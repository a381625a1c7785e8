-- ===== src/Scheduler/Walk.antt =====
-- The walk of `find_new_task`: along `nrp`, and from the end of the queue to its head.
use arduino_osh.Base.{
  ℕ, zero, suc, ◌≤◌, ◌≡◌, refl, inl, inr, true, false, List, [], ◌∷◌, ◌++◌, arith, ◌==◌, ltb,
  if◌then◌else◌, length, All, has, Distinct, Bool-cases, ==_refl,
}
use arduino_osh.Types.{Ptr, null, Os, os_task_status_is_running}
use arduino_osh.Machine.{ok}
use arduino_osh.Chain.{Chain}
use arduino_osh.Scheduler.Select.{Found, note_task, find_loop, runqueue_next_wrapped}

-- The task behind `x` on the walk.
abbrev pub wrapped : Os → Ptr → Ptr
wrapped s x = if s.task.nrp x == null then s.runqueue else s.task.nrp x

-- From `t` the walk leads through `l` to `z`.
abbrev pub Steps : Os → Ptr → List Ptr → Ptr → Type 0
Steps s t [] z = t ≡ z
Steps s t (x ∷ l) z = (t ≡ x) × ((x == null) ≡ false) × Steps s (wrapped s x) l z

pub Steps-append :
    (s : Os) (t m z : Ptr) (l k : List Ptr) → Steps s t l m → Steps s m k z → Steps s t (l ++ k) z
Steps-append s t m z [] k h g = rw h g
Steps-append s t m z (x ∷ l) k h g = (h.0, h.1, Steps-append s (wrapped s x) m z l k h.2 g)

-- Behind `x` the walk goes to the end of the queue, and then to its head.
pub Steps-end :
    (s : Os) (x : Ptr) (ys : List Ptr)
    → Chain s.task.nrp (s.task.nrp x) ys
    → Steps s (wrapped s x) ys s.runqueue
Steps-end s x [] c = rw c refl
Steps-end s x (y ∷ ys) c = (rw (c.0, c.1) refl, c.1, Steps-end s y ys c.2)

-- From the head of a queue the walk goes to any task of it.
pub Steps-front :
    (s : Os) (p r : Ptr) (front back : List Ptr)
    → Chain s.task.nrp p (front ++ r ∷ back)
    → Steps s p front r
Steps-front s p r [] back c = c.0
Steps-front s p r (x ∷ front) back c =
    (c.0, c.1, rw (live front c.2) (Steps-front s (s.task.nrp x) r front back c.2))
  where
    live :
        (f : List Ptr)
        → Chain s.task.nrp (s.task.nrp x) (f ++ r ∷ back)
        → (s.task.nrp x == null) ≡ false
    live [] d = rw (d.0) (d.1)
    live (y ∷ f) d = rw (d.0) (d.1)

-- What the walk finds on its way, for tasks that can all run.
abbrev pub scan : (Ptr → ℕ) → ℕ → List Ptr → Found → Found
scan priority ours [] found = found
scan priority ours (x ∷ l) found =
    if ltb ours (priority x)
    then record found { new_task = x }
    else scan priority ours l (note_task ours (priority x) x found)

pub next_wrapped-wrapped :
    (s : Os) (x : Ptr) → (x == null) ≡ false → runqueue_next_wrapped x s ≡ ok (wrapped s x) s
unfolding runqueue_next_wrapped
next_wrapped-wrapped s x live = elim (Bool-cases (s.task.nrp x == null)) [
  | inl end ↦ simp (live, end)
  | inr more ↦ simp (live, more)
]

-- The task noted as of lower priority is behind the walk.
note_task-behind :
    (ours theirs : ℕ) (x : Ptr) (found : Found) (l : List Ptr)
    → has x l ≡ false
    → has found.lower_priority (x ∷ l) ≡ false
    → has (note_task ours theirs x found).lower_priority l ≡ false
note_task-behind ours theirs x found l new low = ground (arith, new, low)

behind :
    (x : Ptr) (found : Found) (l : List Ptr)
    → has found.lower_priority (x ∷ l) ≡ false
    → (x == found.lower_priority) ≡ false
behind x found l low = ground (arith, low)

pub find_loop-scan :
    (k : ℕ) (s : Os) (first : Ptr) (ours : ℕ) (t x : Ptr) (l : List Ptr) (found : Found)
    → length (x ∷ l) ≤ k
    → Steps s t (x ∷ l) first
    → has first l ≡ false
    → Distinct (x ∷ l)
    → has found.lower_priority (x ∷ l) ≡ false
    → All (λ a. os_task_status_is_running (s.task.status a) ≡ true) (x ∷ l)
    → find_loop k first ours t found s ≡ ok (scan s.task.priority ours (x ∷ l) found) s
unfolding find_loop
find_loop-scan zero s first ours t x l found fuel w out d low can = absurd (omega arith)
find_loop-scan (suc k) s first ours t x [] found fuel (e, live, w) out d low (can, cans) =
    elim (Bool-cases (ltb ours (s.task.priority x))) [
      | inl higher ↦ simp (e, live, behind x found [] low, can, higher)
      | inr lower ↦
          simp
            (e, live, behind x found [] low, can, lower, next_wrapped-wrapped s x live, w, ==_refl)
    ]
find_loop-scan (suc k) s first ours t x (y ∷ l) found fuel (e, live, w) out d low (can, cans) =
    elim (Bool-cases (ltb ours (s.task.priority x))) [
      | inl higher ↦ simp (e, live, behind x found (y ∷ l) low, can, higher)
      | inr lower ↦
          let found' = note_task ours (s.task.priority x) x found in
          simp
            (e, live, behind x found (y ∷ l) low, can, lower, next_wrapped-wrapped s x live, onward)
            (find_loop-scan k s first ours (wrapped s x) y l found' (omega arith) w
              (ground (arith, out)) d.1
              (note_task-behind ours (s.task.priority x) x found (y ∷ l) d.0 low) cans)
    ]
  where
    onward : (wrapped s x == first) ≡ false
    onward = rw (w.0) (ground (arith, out))
