-- ===== src/Syscalls/Calls.antt =====
-- The functions of src/service.c for the application, but for those that print.
use Prim.Native.Nat.{bit_and}
use arduino_osh.Base.{ℕ, Bool, not, ◌&&◌, ◌||◌, ◌==◌, if◌then◌else◌}
use arduino_osh.Types.{
  Ptr, Tuple, PanicKind, QueueDefinition, MutexDefinition, RwlockDefinition, priority_idle,
  mutex_flag_abort_on_timeout, oss_success, oss_error_to, oss_error_invalid,
}
use arduino_osh.Machine.{
  M, pure, skip, get, os_assert, load, load_mutex, load_rwlock, when, ◌>>=◌, ◌>>◌,
}
use arduino_osh.Hooks.{osi_panic}
use arduino_osh.Service.{svc_delay, svc_block, svc_panic, svc_abort}
use arduino_osh.Queue.{osi_queue_enqueue_isr}
use arduino_osh.Syscalls.Plumbing.{
  osi_in_task, in_interrupt, Caller, service_call, service_call_tuple,
}
use arduino_osh.Syscalls.Bodies.{
  svc_queue_create, svc_queue_enqueue, svc_queue_dequeue, svc_mutex_create, svc_mutex_acquire,
  svc_mutex_release, svc_semaphore_acquire, svc_semaphore_release, svc_rwlock_create,
  svc_rwlock_acquire_read, svc_rwlock_acquire_write, svc_rwlock_release, svc_signal,
  svc_signal_check,
}

-- `if (osi_in_task()) { return __svc_f(…); } return svc_f(…);` behind the refusal in interrupts.
abbrev direct_or_call : Caller → M ℕ → M ℕ
direct_or_call caller call = do
  interrupted ← get in_interrupt
  tasked ← get osi_in_task
  if interrupted then pure oss_error_invalid else if tasked then service_call caller call else call

unfoldable pub osi_in_idle : M Bool
osi_in_idle = do
  self ← get (λ s. s.running)
  priority ← load self (λ t. t.priority)
  pure (priority == priority_idle)

-- `sleep` is what the platform does to wait, `usleep` of so many milliseconds or `delay`.
unfoldable pub osi_platform_delay : (ℕ → M (Unit {0})) → ℕ → M ℕ
osi_platform_delay sleep ms = do sleep ms; pure ms

unfoldable pub os_delay : (ℕ → M (Unit {0})) → Caller → ℕ → M ℕ
os_delay sleep caller ms = do
  tasked ← get osi_in_task
  if tasked
      then (do
        in_idle ← osi_in_idle
        if in_idle
            then (do osi_platform_delay sleep ms; pure ms)
            else service_call caller (svc_delay ms))
      else osi_platform_delay sleep ms

unfoldable pub os_block : Caller → ℕ → ℕ → M ℕ
os_block caller ms flags = do
  tasked ← get osi_in_task
  if tasked then service_call caller (svc_block ms flags) else pure oss_error_invalid

unfoldable pub os_panic : Caller → PanicKind → M ℕ
os_panic caller code = do
  interrupted ← get in_interrupt
  tasked ← get osi_in_task
  if interrupted
      then (do osi_panic code; pure oss_success)
      else if tasked
      then (do service_call caller (svc_panic code); pure oss_success)
      else (do osi_panic code; pure oss_success)

unfoldable pub os_abort : Caller → ℕ → M ℕ
os_abort caller code = do
  interrupted ← get in_interrupt
  tasked ← get osi_in_task
  if interrupted || not tasked then pure oss_error_invalid else service_call caller (svc_abort code)

unfoldable pub os_queue_create : Caller → Ptr → QueueDefinition → M ℕ
os_queue_create caller queue def = direct_or_call caller (svc_queue_create queue def)

unfoldable pub os_queue_enqueue : Caller → Ptr → Ptr → ℕ → M Tuple
os_queue_enqueue caller queue message to = do
  interrupted ← get in_interrupt
  if interrupted
      then (do os_assert (to == 0); osi_queue_enqueue_isr queue message)
      else service_call_tuple caller (svc_queue_enqueue queue message to)

unfoldable pub os_queue_dequeue : Caller → Ptr → ℕ → M Tuple
os_queue_dequeue caller queue to = service_call_tuple caller (svc_queue_dequeue queue to)

unfoldable pub os_mutex_create : Caller → Ptr → MutexDefinition → M ℕ
os_mutex_create caller mutex def = direct_or_call caller (svc_mutex_create mutex def)

-- `again` makes the second call, that of `__svc_abort`.
unfoldable pub os_mutex_acquire : Caller → Caller → Ptr → ℕ → M ℕ
os_mutex_acquire caller again mutex to = do
  status ← service_call caller (svc_mutex_acquire mutex to)
  flags ← load_mutex mutex (λ m. m.flags)
  when (not (bit_and flags mutex_flag_abort_on_timeout == 0) && (status == oss_error_to))
      (do service_call again (svc_abort 0); skip)
  pure status

unfoldable pub os_mutex_release : Caller → Ptr → M ℕ
os_mutex_release caller mutex = service_call caller (svc_mutex_release mutex)

unfoldable pub os_semaphore_acquire : Caller → Ptr → ℕ → M ℕ
os_semaphore_acquire caller semaphore to = service_call caller (svc_semaphore_acquire semaphore to)

unfoldable pub os_semaphore_release : Caller → Ptr → M ℕ
os_semaphore_release caller semaphore = service_call caller (svc_semaphore_release semaphore)

unfoldable pub os_rwlock_create : Caller → Ptr → RwlockDefinition → M ℕ
os_rwlock_create caller rwlock def = direct_or_call caller (svc_rwlock_create rwlock def)

unfoldable pub os_rwlock_acquire_read : Caller → Ptr → ℕ → M ℕ
os_rwlock_acquire_read caller rwlock to = service_call caller (svc_rwlock_acquire_read rwlock to)

unfoldable pub os_rwlock_acquire_write : Caller → Ptr → ℕ → M ℕ
os_rwlock_acquire_write caller rwlock to = do
  status ← service_call caller (svc_rwlock_acquire_write rwlock to)
  when (status == oss_success)
      (do l ← load_rwlock rwlock (λ l. l); os_assert ((l.readers == 0) && (l.writers == 1)))
  pure status

unfoldable pub os_rwlock_release : Caller → Ptr → M ℕ
os_rwlock_release caller rwlock = service_call caller (svc_rwlock_release rwlock)

unfoldable pub os_signal : Caller → Ptr → ℕ → M ℕ
os_signal caller task signal = service_call caller (svc_signal task signal)

unfoldable pub os_signal_check : Caller → Ptr → M ℕ
os_signal_check caller signal = service_call caller (svc_signal_check signal)
