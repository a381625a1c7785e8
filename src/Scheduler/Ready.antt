-- ===== src/Scheduler/Ready.antt =====
-- `find_new_task` of src/os.c for a task that waits, wherever it stands in the wait queue, and the
-- loop of `osi_schedule` that wakes a task.
use arduino_osh.Base.{
  ℕ, zero, suc, ◌+◌, ◌<◌, ◌≡◌, refl, sym, ◌∙◌, ap, inl, inr, Bool, true, false, not, ◌&&◌, List, [],
  ◌∷◌, ◌++◌, arith, ◌==◌, leb, if◌then◌else◌, length, length-append, All, All-split, has, subst,
  Bool-cases, ==→eq, ==_refl, ==_sym,
}
use arduino_osh.Types.{Ptr, null, idle, wait, Os, Event, os_task_status_is_running, u32_max}
use arduino_osh.Machine.{ok, rounds}
use arduino_osh.Chain.{Chain, erase, insert}
use arduino_osh.Chain.Order.{Falling, All-map}
use arduino_osh.RunQueue.Add.{ranks_below}
use arduino_osh.Scheduler.{osi_task_status_set, find_new_task, wake_loop}
use arduino_osh.Scheduler.Queues.{relink}
use arduino_osh.Scheduler.Frame.{Kept, Untouched}
use arduino_osh.Scheduler.Turn.{Chain-behind, Chain-live}
use arduino_osh.Scheduler.Next.{find_new_task_head}
use arduino_osh.Scheduler.Detour.{find_new_task_detour}
use arduino_osh.Scheduler.Invariant.{Queues, StatusSet-idle, with_status}

-- A list at one of its members.
pub record At (a : Ptr) (l : List Ptr) : Type 0 where
  pub front : List Ptr
  pub back : List Ptr
  pub split : l ≡ front ++ a ∷ back

pub has-At : (a : Ptr) (l : List Ptr) → has a l ≡ true → At a l
has-At a [] i = absurd (cc)
has-At a (x ∷ l) i = elim (Bool-cases (a == x)) [
  | inl e ↦ record { front = []; back = l; split = ap (λ b. b ∷ l) (sym (==→eq a x e)) }
  | inr n ↦
      let rest = has-At a l (ground (arith, i, n)) in
      record { front = x ∷ rest.front; back = rest.back; split = ap (λ k. x ∷ k) rest.split }
]

choose_behind :
    (s : Os) (running x : Ptr) (xs back : List Ptr) (r : Ptr)
    → (running == null) ≡ false
    → s.task.status running ≡ wait
    → Chain s.task.nrp (s.task.nrp running) back
    → All (λ a. s.task.status a ≡ wait) back
    → Chain s.task.nrp s.runqueue (x ∷ xs)
    → All (λ a. os_task_status_is_running (s.task.status a) ≡ true) (x ∷ xs)
    → Falling s.task.priority (x ∷ xs)
    → ((a : Ptr) → has a (x ∷ xs) ≡ true → has a back ≡ false)
    → length back + length (x ∷ xs) < rounds
    → has r (x ∷ xs) ≡ true
    → s.task.priority r < s.task.priority running
    → (trace : List Event) × (find_new_task running s ≡ ok x (record s { trace = trace }))
choose_behind s running x xs [] r live waits behind others c can ranked apart fuel i under =
    find_new_task_head s running x xs live (rw waits refl) behind (omega (arith, fuel)) c can ranked
choose_behind s running x xs (w ∷ ws) r live waits behind others c can ranked apart fuel i under =
    find_new_task_detour s running w ws x xs r live (rw waits refl) behind
      (All-map (λ a. s.task.status a ≡ wait) _ (w ∷ ws) (λ a j e. rw e refl) others) c can ranked
      (elim (Bool-cases (has w (x ∷ xs))) [
        | inl h ↦ absurd (let o = apart w h in ground (arith, o, ==_refl w))
        | inr n ↦ n
      ])
      fuel i under

-- Let the invariant of the queues hold, with a task that waits, and a task in the run queue of
-- lower priority than it. `find_new_task` for the task that waits returns, changes at most the
-- trace, and answers the head of the run queue.
pub find_new_task_waiting :
    (s : Os) (running x : Ptr) (xs waiting : List Ptr) (r : Ptr)
    → Queues s (x ∷ xs) waiting
    → has running waiting ≡ true
    → has r (x ∷ xs) ≡ true
    → s.task.priority r < s.task.priority running
    → (trace : List Event) × (find_new_task running s ≡ ok x (record s { trace = trace }))
find_new_task_waiting s running x xs waiting r q i j under =
    let at = has-At running waiting i in
    let chain = rw (at.split) at (q.lists.wait_chain) in
    let lives = Chain-live s.task.nrp s.waitqueue _ chain in
    let live = (All-split (λ a. (a == null) ≡ false) at.front (running ∷ at.back) lives).1.0 in
    let waits =
      (All-split (λ a. s.task.status a ≡ wait) at.front (running ∷ at.back)
        (rw (at.split) at (q.waits))).1 in
    let size = ap length at.split ∙ length-append at.front (running ∷ at.back) in
    choose_behind s running x xs at.back r live waits.0
      (Chain-behind s.task.nrp s.waitqueue running at.front at.back chain) waits.1 q.lists.run_chain
      q.can_run q.ranked
      (λ a h. behind_out a at.front at.back (rw (at.split) at (q.lists.apart a h)))
      (omega (arith, q.lists.room, size)) j under
  where
    behind_out :
        (a : Ptr) (front back : List Ptr)
        → has a (front ++ running ∷ back) ≡ false
        → has a back ≡ false
    behind_out a [] back o = ground (arith, o)
    behind_out a (f ∷ front) back o = behind_out a front back (ground (arith, o))

-- Whether the time of a task has come.
abbrev pub is_due : Os → Ptr → Bool
is_due s a = not (s.task.delay a == u32_max) && leb (s.task.delay a) s.uptime

-- The first of the tasks whose time has come, and `null` with none.
abbrev pub first_due : Os → List Ptr → Ptr
first_due s [] = null
first_due s (x ∷ xs) = if is_due s x then x else first_due s xs

-- The queues after the first task whose time has come is woken.
abbrev pub run_after : Os → List Ptr → List Ptr → List Ptr
run_after s run waiting =
    if first_due s waiting == null
    then run
    else insert (ranks_below s (first_due s waiting)) (first_due s waiting) run

abbrev pub wait_after : Os → List Ptr → List Ptr
wait_after s waiting =
    if first_due s waiting == null then waiting else erase (first_due s waiting) waiting

wake_loop_none :
    (k : ℕ) (s : Os) (head : Ptr) (xs : List Ptr)
    → length xs < k
    → Chain s.task.nrp head xs
    → first_due s xs ≡ null
    → wake_loop k s.uptime head s ≡ ok tt s
unfolding wake_loop
wake_loop_none zero s head xs fuel c late = absurd (omega arith)
wake_loop_none (suc k) s head [] fuel c late = simp c
wake_loop_none (suc k) s head (x ∷ xs) fuel (e, live, c) late = elim (Bool-cases (is_due s x)) [
  | inl now ↦ absurd (let h : x ≡ null = rw now at late in ground (arith, h, live))
  | inr later ↦
      simp (e, live, later)
        (wake_loop_none k s (s.task.nrp x) xs (omega arith) c (rw later at late))
]

wake_loop_some :
    (k : ℕ) (s : Os) (head : Ptr) (xs : List Ptr) (c' : ℕ) (after : Os)
    → length xs < k
    → Chain s.task.nrp head xs
    → (first_due s xs == null) ≡ false
    → osi_task_status_set (first_due s xs) idle s ≡ ok c' after
    → wake_loop k s.uptime head s ≡ ok tt after
unfolding wake_loop
wake_loop_some zero s head xs c' after fuel c some set = absurd (omega arith)
wake_loop_some (suc k) s head [] c' after fuel c some set = absurd (cc)
wake_loop_some (suc k) s head (x ∷ xs) c' after fuel (e, live, c) some set =
    elim (Bool-cases (is_due s x)) [
      | inl now ↦
          let set' : osi_task_status_set x idle s ≡ ok c' after = rw now at set in
          simp (e, live, now, set')
      | inr later ↦
          simp (e, live, later)
            (wake_loop_some k s (s.task.nrp x) xs c' after (omega arith) c (rw later at some)
              (rw later at set))
    ]

pub first_due-has :
    (s : Os) (xs : List Ptr) → (first_due s xs == null) ≡ false → has (first_due s xs) xs ≡ true
first_due-has s [] some = absurd (cc)
first_due-has s (x ∷ xs) some = elim (Bool-cases (is_due s x)) [
  | inl now ↦ rw (now, ==_refl) refl
  | inr later ↦
      let rest = first_due-has s xs (rw later at some) in
      let same : first_due s (x ∷ xs) ≡ first_due s xs = rw later refl in
      subst (λ t. has t (x ∷ xs) ≡ true) (sym same) (ground (arith, rest))
]

pub record Woken (s : Os) (run waiting : List Ptr) : Type 0 where
  pub after : Os
  pub result : wake_loop rounds s.uptime s.waitqueue s ≡ ok tt after
  pub queues : Queues after (run_after s run waiting) (wait_after s waiting)
  pub kept : Kept s after
  pub untouched : Untouched s after
  pub scheduled : after.scheduled ≡ s.scheduled
  pub delay : after.task.delay ≡ s.task.delay
  pub others :
      (a : Ptr) → (a == first_due s waiting) ≡ false → after.task.status a ≡ s.task.status a

-- Let the invariant of the queues hold. The loop wakes the first task whose time has come, if there
-- is one, and nothing else changes.
pub wake_loop-Woken : (s : Os) (run waiting : List Ptr) → Queues s run waiting → Woken s run waiting
wake_loop-Woken s run waiting q = elim (Bool-cases (first_due s waiting == null)) [
  | inl none ↦ record {
    after = s;
    result =
        wake_loop_none rounds s s.waitqueue waiting (omega (arith, q.lists.room)) q.lists.wait_chain
          (==→eq _ _ none);
    queues = rw none q;
    kept = record {
      running = refl;
      idle = refl;
      state = refl;
      uptime = refl;
      memory = refl;
      priority = refl;
      stack = refl;
      sp = refl;
    };
    untouched = record {
      flags = λ a. refl;
      nblocked = refl;
      mutex = refl;
      queue = refl;
      semaphore = refl;
      rwlock = refl;
      mutexes = refl;
    };
    scheduled = refl;
    delay = refl;
    others = λ a n. refl;
  }
  | inr some ↦
      let t = first_due s waiting in
      let set = StatusSet-idle s t run waiting q some (first_due-has s waiting some) in
      record {
        after = relink (with_status s t idle) set.next set.run_head set.wait_head set.trace;
        result =
            wake_loop_some rounds s s.waitqueue waiting _ _ (omega (arith, q.lists.room))
              q.lists.wait_chain some set.result;
        queues = rw some (set.queues);
        kept = record {
          running = refl;
          idle = refl;
          state = refl;
          uptime = refl;
          memory = refl;
          priority = refl;
          stack = refl;
          sp = refl;
        };
        untouched = record {
          flags = λ a. refl;
          nblocked = refl;
          mutex = refl;
          queue = refl;
          semaphore = refl;
          rwlock = refl;
          mutexes = refl;
        };
        scheduled = refl;
        delay = refl;
        others = λ a n. rw (==_sym t a ∙ n) refl;
      }
]
