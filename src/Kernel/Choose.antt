-- ===== src/Kernel/Choose.antt =====
-- A schedule that leads to another task, from a state where the invariant of the queues holds.
use arduino_osh.Base.{
  ◌≤◌, ◌<◌, ◌≡◌, refl, inl, inr, Bool, true, false, List, [], ◌∷◌, arith, ◌==◌, if◌then◌else◌, All,
  has, Bool-cases, ==_refl,
}
use arduino_osh.Types.{Ptr, null, Os, Event, oss_success, is_mcu}
use arduino_osh.Machine.{ok, rounds}
use arduino_osh.Scheduler.{choose_and_dispatch, wake_loop, osi_dispatch, find_new_task}
use arduino_osh.Scheduler.Invariant.{Queues}
use arduino_osh.Scheduler.Ready.{find_new_task_waiting}
use arduino_osh.Scheduler.Switch.{Queues-same}
use arduino_osh.Kernel.Objects.{Objects-same}
use arduino_osh.Kernel.Settled.{Pending}

-- What the walk chooses for a task that waits.
pub record Picked (s : Os) (running : Ptr) (run : List Ptr) : Type 0 where
  pub task : Ptr
  pub trace : List Event
  pub result : find_new_task running s ≡ ok task (record s { trace = trace })
  pub found : has task run ≡ true
  pub top : All (λ a. s.task.priority a ≤ s.task.priority task) run

pub find_new_task-Picked :
    (s : Os) (running r : Ptr) (run waiting : List Ptr)
    → Queues s run waiting
    → has running waiting ≡ true
    → has r run ≡ true
    → s.task.priority r < s.task.priority running
    → Picked s running run
find_new_task-Picked s running r [] waiting q i j under = absurd (cc)
find_new_task-Picked s running r (x ∷ xs) waiting q i j under =
    let (trace, result) = find_new_task_waiting s running x xs waiting r q i j under in
    record {
      task = x;
      trace = trace;
      result = result;
      found = rw ==_refl refl;
      top = (omega arith, q.ranked.0);
    }

-- The request for the context switch changes nothing else.
pub pend-Pending :
    (mutexes : List Ptr) (s : Os) (run waiting : List Ptr) (pended : Bool)
    → Pending mutexes s run waiting
    → Pending mutexes (record s { pendsv = pended }) run waiting
pend-Pending mutexes s run waiting pended p = record {
  queues = Queues-same s (record s { pendsv = pended }) run waiting refl refl refl p.queues;
  begun = p.begun;
  live = p.live;
  live_next = p.live_next;
  other = p.other;
  left = p.left;
  here = p.here;
  now_active = p.now_active;
  top = p.top;
  idle_here = p.idle_here;
  fit =
      λ a i. let f = p.fit a i in record { above = f.above; bounded = f.bounded; magic = f.magic };
  objects =
      Objects-same mutexes s (record s { pendsv = pended }) run waiting refl refl refl refl refl
        refl refl p.objects;
  free = p.free;
}

-- A schedule, from the results of its steps.
pub choose_steps_switch :
    (s woken s' after : Os) (running x : Ptr)
    → wake_loop rounds s.uptime s.waitqueue s ≡ ok tt woken
    → find_new_task running woken ≡ ok x s'
    → (x == null) ≡ false
    → (running == x) ≡ false
    → osi_dispatch x s' ≡ ok oss_success after
    → (after.scheduled == null) ≡ false
    → choose_and_dispatch running s
      ≡ ok oss_success (record after { pendsv = if is_mcu after.arch then true else after.pendsv })
unfolding choose_and_dispatch
choose_steps_switch s woken s' after running x awake found live away switched set =
    elim (Bool-cases (is_mcu after.arch)) [
      | inl m ↦ simp (awake, found, live, away, switched, set, m)
      | inr m ↦ simp (awake, found, live, away, switched, set, m)
    ]

pub choose_steps_stay :
    (s woken s' : Os) (running : Ptr)
    → wake_loop rounds s.uptime s.waitqueue s ≡ ok tt woken
    → find_new_task running woken ≡ ok running s'
    → s'.scheduled ≡ null
    → (running == null) ≡ false
    → choose_and_dispatch running s ≡ ok oss_success s'
unfolding choose_and_dispatch
choose_steps_stay s woken s' running awake found none live =
    simp (awake, found, ==_refl, none, live)
