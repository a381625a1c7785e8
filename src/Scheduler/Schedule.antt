-- ===== src/Scheduler/Schedule.antt =====
-- `osi_schedule`, `osi_dispatch_or_queue`, `osi_irs_systick` and `osi_stack_check` of src/os.c.
use arduino_osh.Base.{ℕ, zero, suc, not, ◌&&◌, ◌==◌, leb, if◌then◌else◌}
use arduino_osh.Types.{
  Ptr, null, TaskStatus, OsState, os_state_eq, status_eq, os_task_status_is_running, u32_max,
  oss_success, Event,
}
use arduino_osh.Machine.{
  M, Run, pure, skip, get, os_assert, load, emit, when, pend_sv, rounds, ◌>>=◌, ◌>>◌,
}
use arduino_osh.RunQueue.{runqueue_has_higher_priority}
use arduino_osh.Scheduler.Status.{osi_task_status_set}
use arduino_osh.Scheduler.Dispatch.{osi_dispatch}
use arduino_osh.Scheduler.Select.{find_new_task}

-- The first task of the wait queue whose time has come is woken, and no other.
unfoldable pub wake_loop : ℕ → ℕ → Ptr → M (Unit {0})
wake_loop zero now task = λ _. Run.out_of_rounds
wake_loop (suc k) now task = if task == null then skip else do
  delay ← load task (λ t. t.delay)
  next ← load task (λ t. t.nrp)
  if not (delay == u32_max) && leb delay now
      then (do osi_task_status_set task TaskStatus.idle; skip)
      else wake_loop k now next

-- The part of `osi_schedule` behind the two early returns.
unfoldable pub choose_and_dispatch : Ptr → M ℕ
choose_and_dispatch running = do
  now ← get (λ s. s.uptime)
  head ← get (λ s. s.waitqueue)
  wake_loop rounds now head
  new_task ← find_new_task running
  when (not (new_task == null) && not (running == new_task)) (do osi_dispatch new_task; skip)
  scheduled ← get (λ s. s.scheduled)
  when (not (scheduled == null)) pend_sv
  pure oss_success

unfoldable pub osi_schedule : M ℕ
osi_schedule = do
  running ← get (λ s. s.running)
  os_assert (not (running == null))
  status ← load running (λ t. t.status)
  scheduled ← get (λ s. s.scheduled)
  if status_eq status TaskStatus.idle
      then (do emit Event.warning_idle; pure oss_success)
      else if not (scheduled == null)
      then (do emit Event.warning_schedule; pure oss_success)
      else choose_and_dispatch running

unfoldable pub osi_dispatch_or_queue : Ptr → M ℕ
osi_dispatch_or_queue task = do
  outranked ← runqueue_has_higher_priority task
  if outranked
      then (do
        status ← load task (λ t. t.status)
        when (not (os_task_status_is_running status))
            (do osi_task_status_set task TaskStatus.idle; skip)
        scheduled ← get (λ s. s.scheduled)
        if scheduled == null then osi_schedule else pure oss_success)
      else osi_dispatch task

unfoldable pub osi_irs_systick : M ℕ
osi_irs_systick = do
  state ← get (λ s. s.state)
  scheduled ← get (λ s. s.scheduled)
  if os_state_eq state OsState.started && (scheduled == null)
      then osi_schedule
      else pure oss_success
