-- ===== src/Scheduler/Next.antt =====
-- `find_new_task` of src/os.c for a task that has left the run queue.
use arduino_osh.Base.{
  ℕ, ◌≤◌, ◌<◌, ◌≡◌, refl, ◌⊎◌, inl, inr, true, false, List, ◌∷◌, arith, ◌==◌, ltb, length, All,
  Bool-cases, ==→ne, ==_refl, ltb→le,
}
use arduino_osh.Types.{Ptr, null, Os, Event, os_task_status_is_running}
use arduino_osh.Machine.{ok, rounds}
use arduino_osh.Chain.{Chain, Chain-Distinct}
use arduino_osh.Chain.Order.{Falling}
use arduino_osh.RunQueue.Check.{osi_priority_check-Traces}
use arduino_osh.Scheduler.Select.{find_new_task}
use arduino_osh.Scheduler.Walk.{Steps-end, scan, next_wrapped-wrapped, wrapped}
use arduino_osh.Scheduler.Scan.{scan_low, scan_below}
use arduino_osh.Scheduler.Turn.{nothing, Chain-live, All-le, All-lt, find_loop_around}

-- What the scan of a queue by falling priority knows at its end: the head, as a task that is to
-- run or as one of lower priority.
scan_head :
    (key : Ptr → ℕ) (ours : ℕ) (x : Ptr) (xs : List Ptr)
    → (x == null) ≡ false
    → All (λ a. key a ≤ key x) xs
    → ((scan key ours (x ∷ xs) nothing).new_task ≡ x)
      ⊎ (scan key ours (x ∷ xs) nothing ≡ record { new_task = null; lower_priority = x })
scan_head key ours x xs live low = elim (Bool-cases (ltb ours (key x))) [
  | inl high ↦ rw high (inl refl)
  | inr le ↦ elim (Bool-cases (key x == ours)) [
    | inl level ↦
        rw (le, level)
          (inl (scan_low key ours xs _ (All-le key (key x) ours xs (ltb→le _ _ le) low) live))
    | inr less ↦
        rw (le, less)
          (inr (
            scan_below key ours xs _
              (All-lt key (key x) ours xs (omega (arith, ltb→le _ _ le, ==→ne _ _ less)) low) live))
  ]
]

-- A task that cannot run has left the run queue, its `nrp` is `NULL`, and the queue ends, holds at
-- least one task, and holds tasks that can run, by falling priority. Then `find_new_task` returns,
-- changes at most the trace, and answers the head of the queue.
pub find_new_task_head :
    (s : Os) (running x : Ptr) (xs : List Ptr)
    → (running == null) ≡ false
    → os_task_status_is_running (s.task.status running) ≡ false
    → s.task.nrp running ≡ null
    → length (x ∷ xs) < rounds
    → Chain s.task.nrp s.runqueue (x ∷ xs)
    → All (λ a. os_task_status_is_running (s.task.status a) ≡ true) (x ∷ xs)
    → Falling s.task.priority (x ∷ xs)
    → (trace : List Event) × (find_new_task running s ≡ ok x (record s { trace = trace }))
unfolding find_new_task
find_new_task_head s running x xs here out end fuel c can ranked =
    let live = Chain-live s.task.nrp s.runqueue (x ∷ xs) c in
    let first : wrapped s running ≡ s.runqueue = rw end refl in
    let loop =
      find_loop_around s (s.task.priority running) s.runqueue x (x ∷ xs) fuel
        (c.0, c.1, Steps-end s x xs c.2) (Chain-Distinct s.task.nrp s.runqueue (x ∷ xs) c)
        (rw ==_refl refl) live can in
    let check = osi_priority_check-Traces s x (x ∷ xs) fuel c in
    (
      check.trace,
      elim (scan_head s.task.priority (s.task.priority running) x xs c.1 ranked.0) [
        | inl e ↦
            simp (next_wrapped-wrapped s running here, first, here, loop, e, c.1, check.result)
        | inr e ↦
            simp (next_wrapped-wrapped s running here, first, here, loop, e, c.1, out, check.result)
      ],
    )
