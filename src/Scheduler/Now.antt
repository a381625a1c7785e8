-- ===== src/Scheduler/Now.antt =====
-- `osi_dispatch_or_queue` of src/os.c, for a task that no task of the run queue outranks.
use arduino_osh.Base.{
  ℕ, ◌<◌, ◌≤◌, ◌≡◌, refl, ap, ◌∙◌, false, ltb, List, [], ◌∷◌, arith, ◌==◌, length, All,
}
use arduino_osh.Types.{Ptr, null, Os}
use arduino_osh.Machine.{Run, ok, rounds}
use arduino_osh.Chain.{Chain}
use arduino_osh.RunQueue.Higher.{outranked, has_higher_priority-outranked}
use arduino_osh.Scheduler.Dispatch.{osi_dispatch}
use arduino_osh.Scheduler.Schedule.{osi_dispatch_or_queue}

-- No task of the list outranks the task.
not_outranked :
    (s : Os) (task : Ptr) (l : List Ptr)
    → All (λ a. s.task.priority a ≤ s.task.priority task) l
    → outranked s task l ≡ false
not_outranked s task [] low = refl
not_outranked s task (x ∷ l) low =
    let here : ltb (s.task.priority task) (s.task.priority x) ≡ false = ground (arith, low.0) in
    let rest = not_outranked s task l low.1 in ground (arith, here, rest)

pub dispatch_now :
    (s : Os) (task : Ptr) (run : List Ptr) (r : Run ℕ)
    → length run < rounds
    → (task == null) ≡ false
    → Chain s.task.nrp s.runqueue run
    → All (λ a. s.task.priority a ≤ s.task.priority task) run
    → osi_dispatch task s ≡ r
    → osi_dispatch_or_queue task s ≡ r
unfolding osi_dispatch_or_queue
dispatch_now s task run r fuel live c low h =
    let answer =
      has_higher_priority-outranked s task run fuel live c
      ∙ ap (λ b. ok b s) (not_outranked s task run low) in
    simp answer h
