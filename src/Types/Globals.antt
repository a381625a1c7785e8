-- ===== src/Types/Globals.antt =====
-- `os_globals_t` of src/types.h, and with it all that the operating system reads and writes.
use arduino_osh.Base.{ℕ, List, Bool}
use arduino_osh.Types.Enums.{Ptr, Arch, TaskStatus, OsState, PanicKind}
use arduino_osh.Types.Objects.{Queue, Mutex, Semaphore, Rwlock}
use arduino_osh.Types.Task.{Tasks}

-- What goes out: the calls of `osg.status_hook` and the messages of `osi_printf`.
pub data Event : Type 0 where
  hook : Ptr → TaskStatus → Event
  warning_add : Event
  warning_idle : Event
  warning_schedule : Event
  scheduler_panic : Ptr → Ptr → Event
  error_status : Ptr → Event
  error_priority : Ptr → Event
  task_panic : Ptr → Event
  panic_kind : PanicKind → Event
  report_task : Ptr → Event
  print : Ptr → Event

pub record Os : Type 0 where
  -- The build.
  pub arch : Arch
  -- `osg`.
  pub running : Ptr
  pub scheduled : Ptr
  pub state : OsState
  pub ntasks : ℕ
  pub idle : Ptr
  pub tasks : Ptr
  pub runqueue : Ptr
  pub waitqueue : Ptr
  pub status_hook : Ptr
  pub logging_hook : Ptr
  -- The structures that addresses stand for.
  pub task : Tasks
  pub queue : Ptr → Queue
  pub mutex : Ptr → Mutex
  pub semaphore : Ptr → Semaphore
  pub rwlock : Ptr → Rwlock
  -- The words of the stacks, by byte address.
  pub memory : ℕ → ℕ
  -- What the linker gives `&task_finished`.
  pub task_finished : Ptr
  -- What `osi_platform_uptime` and `osi_platform_micros` return.
  pub uptime : ℕ
  pub micros : ℕ
  -- Whether `SCB->ICSR |= SCB_ICSR_PENDSVSET_Msk` asked for a context switch.
  pub pendsv : Bool
  -- The registers CONTROL and IPSR.
  pub control : ℕ
  pub ipsr : ℕ
  -- Newest first.
  pub trace : List Event
