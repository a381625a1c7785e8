-- ===== src/Scheduler/Turn.antt =====
-- `find_new_task` of src/os.c takes the tasks of the highest priority in turn.
use arduino_osh.Base.{
  ℕ, ◌+◌, ◌≤◌, ◌<◌, ◌≡◌, refl, inl, inr, true, false, List, [], ◌∷◌, ◌++◌, arith, ◌==◌, ltb, length,
  length-append, All, All-append, All-split, subst, has, has-append, Distinct, Bool-cases, ==_refl,
  ltb→lt, ltb→le, append_assoc,
}
use arduino_osh.Types.{Ptr, null, Os, Event, os_task_status_is_running}
use arduino_osh.Machine.{ok, rounds}
use arduino_osh.Chain.{Chain, Chain-Distinct}
use arduino_osh.Chain.Order.{Falling}
use arduino_osh.Chain.Rotate.{Distinct-rotate}
use arduino_osh.RunQueue.Check.{osi_priority_check-Traces}
use arduino_osh.Scheduler.Select.{Found, find_loop, find_new_task}
use arduino_osh.Scheduler.Walk.{
  wrapped, Steps, Steps-append, Steps-end, Steps-front, scan, find_loop-scan, next_wrapped-wrapped,
}
use arduino_osh.Scheduler.Scan.{IsFirstOfTop, scan_high, scan_level}

abbrev pub nothing : Found
nothing = record { new_task = null; lower_priority = null }

pub Chain-live :
    (next : Ptr → Ptr) (p : Ptr) (xs : List Ptr)
    → Chain next p xs
    → All (λ a. (a == null) ≡ false) xs
Chain-live next p [] c = tt
Chain-live next p (x ∷ xs) c = (c.1, Chain-live next (next x) xs c.2)

pub Chain-behind :
    (next : Ptr → Ptr) (p r : Ptr) (front back : List Ptr)
    → Chain next p (front ++ r ∷ back)
    → Chain next (next r) back
Chain-behind next p r [] back c = c.2
Chain-behind next p r (x ∷ front) back c = Chain-behind next (next x) r front back c.2

Falling-behind : (key : Ptr → ℕ) (xs ys : List Ptr) → Falling key (xs ++ ys) → Falling key ys
Falling-behind key [] ys f = f
Falling-behind key (x ∷ xs) ys f = Falling-behind key xs ys f.1

pub All-le :
    (key : Ptr → ℕ) (m n : ℕ) (xs : List Ptr)
    → m ≤ n
    → All (λ a. key a ≤ m) xs
    → All (λ a. key a ≤ n) xs
All-le key m n [] le h = tt
All-le key m n (x ∷ xs) le h = (omega (arith, h.0), All-le key m n xs le h.1)

pub All-lt :
    (key : Ptr → ℕ) (m n : ℕ) (xs : List Ptr)
    → m < n
    → All (λ a. key a ≤ m) xs
    → All (λ a. key a < n) xs
All-lt key m n [] lt h = tt
All-lt key m n (x ∷ xs) lt h = (omega (arith, h.0), All-lt key m n xs lt h.1)

-- The task that the scan of `l` finds, with the priority of `r` to reach.
abbrev found_in : (Ptr → ℕ) → Ptr → List Ptr → Ptr
found_in key r l = (scan key (key r) l nothing).new_task

scan_level-IsFirstOfTop :
    (key : Ptr → ℕ) (r : Ptr) (l : List Ptr)
    → All (λ a. key a ≤ key r) l
    → All (λ a. (a == null) ≡ false) l
    → has r l ≡ true
    → IsFirstOfTop key l (found_in key r l)
scan_level-IsFirstOfTop key r l low live i =
    let (before, after, split, p, first) =
      scan_level key (key r) l nothing r low live refl i refl in
    record { before = before; after = after; split = split; top = rw p low; first = rw p first }

-- The parts of a queue in the order of the walk.
All-around :
    (P : Ptr → Type 0) (r : Ptr) (front back : List Ptr)
    → All P (front ++ r ∷ back)
    → All P (back ++ (front ++ r ∷ []))
All-around P r front back h =
    let (f, rb) = All-split P front (r ∷ back) h in
    All-append P back (front ++ r ∷ []) rb.1 (All-append P front (r ∷ []) f (rb.0, tt))

has-around : (r : Ptr) (front back : List Ptr) → has r (back ++ (front ++ r ∷ [])) ≡ true
has-around r front back =
    rw (has-append r back (front ++ r ∷ []), has-append r front (r ∷ []), ==_refl) (ground arith)

-- The scan from behind `r`, round a queue by falling priority, ends with `r` itself.
scan-IsFirstOfTop :
    (key : Ptr → ℕ) (r : Ptr) (front back : List Ptr)
    → Falling key (front ++ r ∷ back)
    → All (λ a. (a == null) ≡ false) (front ++ r ∷ back)
    → IsFirstOfTop key (back ++ (front ++ r ∷ [])) (found_in key r (back ++ (front ++ r ∷ [])))
scan-IsFirstOfTop key r [] back f live =
    scan_level-IsFirstOfTop key r (back ++ r ∷ [])
      (All-append (λ a. key a ≤ key r) back (r ∷ []) f.0 (omega arith, tt))
      (All-around _ r [] back live) (has-around r [] back)
scan-IsFirstOfTop key r (h ∷ front) back f live =
    let (fs, rb) = All-split (λ a. key a ≤ key h) front (r ∷ back) f.0 in
    let behind = (Falling-behind key front (r ∷ back) f.1).0 in
    elim (Bool-cases (ltb (key r) (key h))) [
      | inl high ↦
          let hit =
            scan_high key (key r) back h (front ++ r ∷ []) nothing behind (ltb→lt _ _ high) in
          rw hit (record {
            before = back;
            after = front ++ r ∷ [];
            split = refl;
            top = All-around (λ a. key a ≤ key h) r (h ∷ front) back (omega arith, f.0);
            first = All-lt key (key r) (key h) back (ltb→lt _ _ high) behind;
          })
      | inr low ↦
          scan_level-IsFirstOfTop key r (back ++ (h ∷ front ++ r ∷ []))
            (All-around (λ a. key a ≤ key r) r (h ∷ front) back
              (ltb→le _ _ low, All-le key (key h) (key r) _ (ltb→le _ _ low) f.0))
            (All-around _ r (h ∷ front) back live) (has-around r (h ∷ front) back)
    ]

-- The loop of `find_new_task` goes once round the walk.
module _ (s : Os) (ours : ℕ) where
  has-null : (l : List Ptr) → All (λ a. (a == null) ≡ false) l → has null l ≡ false
  has-null [] h = refl
  has-null (x ∷ l) h = ground (arith, h.0, has-null l h.1)

  pub find_loop_around :
      (first r : Ptr) (l : List Ptr)
      → length l < rounds
      → Steps s first l first
      → Distinct l
      → has r l ≡ true
      → All (λ a. (a == null) ≡ false) l
      → All (λ a. os_task_status_is_running (s.task.status a) ≡ true) l
      → find_loop (rounds + rounds) first ours first nothing s
        ≡ ok (scan s.task.priority ours l nothing) s
  find_loop_around first r [] fuel w d i live can = absurd (cc)
  find_loop_around first r (x ∷ l) fuel w d i live can =
      find_loop-scan (rounds + rounds) s first ours first x l nothing (omega arith) w
        (rw (w.0) (d.0)) d (has-null (x ∷ l) live) can

-- What `find_new_task` answers: a task, and at most more of the trace.
pub record Turn (s : Os) (running : Ptr) (l : List Ptr) : Type 0 where
  pub task : Ptr
  pub trace : List Event
  pub result : find_new_task running s ≡ ok task (record s { trace = trace })
  pub choice : IsFirstOfTop s.task.priority l task

-- The running task stands in a run queue that ends, whose tasks can run and stand by falling
-- priority. Then `find_new_task` returns, changes at most the trace, and answers the first of the
-- tasks with the highest priority in the order that begins behind the running task, goes on from
-- the head of the queue and ends with the running task.
pub find_new_task-Turn :
    (s : Os) (running : Ptr) (front back : List Ptr)
    → length (front ++ running ∷ back) < rounds
    → Chain s.task.nrp s.runqueue (front ++ running ∷ back)
    → All (λ a. os_task_status_is_running (s.task.status a) ≡ true) (front ++ running ∷ back)
    → Falling s.task.priority (front ++ running ∷ back)
    → Turn s running (back ++ (front ++ running ∷ []))
unfolding find_new_task
find_new_task-Turn s running front back fuel c can ranked =
    let live = Chain-live s.task.nrp s.runqueue _ c in
    let here = (All-split (λ a. (a == null) ≡ false) front (running ∷ back) live).1.0 in
    let around = back ++ (front ++ running ∷ []) in
    let choice = scan-IsFirstOfTop s.task.priority running front back ranked live in
    let lives = All-around (λ a. (a == null) ≡ false) running front back live in
    let loop =
      find_loop_around s (s.task.priority running) (wrapped s running) running around
        (omega (
          arith,
          fuel,
          length-append front (running ∷ back),
          length-append back (front ++ running ∷ []),
          length-append front (running ∷ []),
        ))
        (Steps-append s _ s.runqueue _ back _
          (Steps-end s running back (Chain-behind _ _ running front back c))
          (Steps-append s _ running _ front _ (Steps-front s _ running front back c)
            (refl, here, refl)))
        (Distinct-rotate (front ++ running ∷ []) back
          (rw (append_assoc front (running ∷ []) back) (Chain-Distinct s.task.nrp s.runqueue _ c)))
        (has-around running front back) lives (All-around _ running front back can) in
    let check =
      osi_priority_check-Traces s (found_in s.task.priority running around)
        (front ++ running ∷ back) fuel c in
    let new : (found_in s.task.priority running around == null) ≡ false =
      (All-split (λ a. (a == null) ≡ false) choice.before _
        (subst (All (λ a. (a == null) ≡ false)) choice.split lives)).1.0 in
    record {
      task = found_in s.task.priority running around;
      trace = check.trace;
      result = simp (next_wrapped-wrapped s running here, here, loop, new, check.result);
      choice = choice;
    }
