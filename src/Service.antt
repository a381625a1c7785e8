-- ===== src/Service.antt =====
-- The service calls of src/service.c that make the running task wait or end. They run in the
-- SVC handler, with `osg.running` the caller.
pub mod Delay
use Prim.Native.Nat.{bit_or}
use arduino_osh.Base.{ℕ, ◌+◌, ◌%◌, not, ◌==◌, if◌then◌else◌}
use arduino_osh.Types.{
  Ptr, null, TaskStatus, PanicKind, u32_mod, u32_max, oss_success, oss_error_to,
}
use arduino_osh.Machine.{
  M, pure, skip, get, os_assert, load, set_delay, set_flags, when, ◌>>=◌, ◌>>◌,
}
use arduino_osh.Scheduler.{osi_task_status_set, osi_schedule}
use arduino_osh.Hooks.{osi_panic}

-- The end that the calls share: another task must have been scheduled.
unfoldable pub reschedule : M (Unit {0})
reschedule = do
  scheduled ← get (λ s. s.scheduled)
  when (scheduled == null) (do osi_schedule; skip)
  scheduled ← get (λ s. s.scheduled)
  os_assert (not (scheduled == null))
  running ← get (λ s. s.running)
  os_assert (not (scheduled == running))

unfoldable pub set_wake_time : Ptr → ℕ → M (Unit {0})
set_wake_time running ms = if ms == u32_max then set_delay running u32_max else do
  now ← get (λ s. s.uptime)
  set_delay running ((now + ms) % u32_mod)
  os_assert (not ((now + ms) % u32_mod == u32_max))

unfoldable pub svc_delay : ℕ → M ℕ
svc_delay ms = do
  running ← get (λ s. s.running)
  os_assert (not (running == null))
  scheduled ← get (λ s. s.scheduled)
  os_assert (not (scheduled == running))
  set_wake_time running ms
  osi_task_status_set running TaskStatus.wait
  reschedule
  pure oss_error_to

unfoldable pub svc_panic : PanicKind → M ℕ
svc_panic code = do
  osi_panic code
  running ← get (λ s. s.running)
  osi_task_status_set running TaskStatus.panic
  reschedule
  pure oss_success

unfoldable pub svc_abort : ℕ → M ℕ
svc_abort code = do
  running ← get (λ s. s.running)
  osi_task_status_set running TaskStatus.aborted
  reschedule
  pure oss_success

unfoldable pub svc_block : ℕ → ℕ → M ℕ
svc_block ms flags = do
  running ← get (λ s. s.running)
  before ← load running (λ t. t.flags)
  set_flags running (bit_or before flags)
  svc_delay ms
