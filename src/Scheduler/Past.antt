-- ===== src/Scheduler/Past.antt =====
-- Rounds of the loop of `find_new_task` that go on to the next task.
use arduino_osh.Base.{
  ℕ, suc, ◌+◌, ◌≡◌, refl, ◌∙◌, inl, inr, true, false, ◌&&◌, List, [], ◌∷◌, arith, ◌==◌, ltb,
  if◌then◌else◌, length, All, Bool-cases,
}
use arduino_osh.Types.{Ptr, null, Os, os_task_status_is_running}
use arduino_osh.Machine.{ok}
use arduino_osh.Scheduler.Select.{Found, note_task, find_loop}
use arduino_osh.Scheduler.Walk.{Steps, wrapped, next_wrapped-wrapped}

-- What is known behind `x`.
abbrev pub noted : Os → ℕ → Ptr → Found → Found
noted s ours x found =
    if os_task_status_is_running (s.task.status x)
    then note_task ours (s.task.priority x) x found
    else found

-- `x` neither ends the loop nor outranks the task that asks.
abbrev pub PassesOn : Os → Ptr → ℕ → Found → Ptr → Type 0
PassesOn s first ours found x =
    ((x == found.lower_priority) ≡ false)
    × ((os_task_status_is_running (s.task.status x) && ltb ours (s.task.priority x)) ≡ false)
    × ((wrapped s x == first) ≡ false)

pub find_loop_step :
    (k : ℕ) (s : Os) (first : Ptr) (ours : ℕ) (x : Ptr) (found : Found)
    → (x == null) ≡ false
    → PassesOn s first ours found x
    → find_loop (suc k) first ours x found s
      ≡ find_loop k first ours (wrapped s x) (noted s ours x found) s
unfolding find_loop
find_loop_step k s first ours x found live (open_end, below, onward) =
    elim (Bool-cases (os_task_status_is_running (s.task.status x))) [
      | inl can ↦
          let low : ltb ours (s.task.priority x) ≡ false = ground (arith, below, can) in
          simp (live, open_end, can, low, next_wrapped-wrapped s x live, onward)
      | inr cannot ↦ simp (live, open_end, cannot, next_wrapped-wrapped s x live, onward)
    ]

-- The loop ends at the task of lower priority that it has noted.
pub find_loop_stop :
    (k : ℕ) (s : Os) (first : Ptr) (ours : ℕ) (x : Ptr) (found : Found)
    → (x == found.lower_priority) ≡ true
    → find_loop (suc k) first ours x found s ≡ ok found s
unfolding find_loop
find_loop_stop k s first ours x found same = simp same

-- The loop ends at a task that outranks the one that asks.
pub find_loop_hit :
    (k : ℕ) (s : Os) (first : Ptr) (ours : ℕ) (x : Ptr) (found : Found)
    → (x == null) ≡ false
    → (x == found.lower_priority) ≡ false
    → os_task_status_is_running (s.task.status x) ≡ true
    → ltb ours (s.task.priority x) ≡ true
    → find_loop (suc k) first ours x found s ≡ ok (record found { new_task = x }) s
unfolding find_loop
find_loop_hit k s first ours x found live open_end can high = simp (live, open_end, can, high)

-- One round for each task of `l`, and `k` more.
abbrev pub spend : List Ptr → ℕ → ℕ
spend [] k = k
spend (x ∷ l) k = suc (spend l k)

pub spend-add : (l : List Ptr) (k : ℕ) → spend l k ≡ length l + k
spend-add [] k = omega arith
spend-add (x ∷ l) k = omega (arith, spend-add l k)

-- Along tasks of which nothing new is noted.
pub find_loop_past :
    (k : ℕ) (s : Os) (first : Ptr) (ours : ℕ) (t z : Ptr) (l : List Ptr) (found : Found)
    → Steps s t l z
    → All (PassesOn s first ours found) l
    → All (λ x. noted s ours x found ≡ found) l
    → find_loop (spend l k) first ours t found s ≡ find_loop k first ours z found s
find_loop_past k s first ours t z [] found w on same = rw w refl
find_loop_past k s first ours t z (x ∷ l) found (e, live, w) (on, ons) (same, sames) = rw e (
    find_loop_step (spend l k) s first ours x found live on
    ∙ rw same (find_loop_past k s first ours (wrapped s x) z l found w ons sames))
