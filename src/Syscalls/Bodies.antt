-- ===== src/Syscalls/Bodies.antt =====
-- The functions of src/service.c that the handler of service calls runs for the objects.
use arduino_osh.Base.{ℕ}
use arduino_osh.Types.{
  Ptr, Tuple, QueueDefinition, MutexDefinition, SemaphoreDefinition, RwlockDefinition,
}
use arduino_osh.Machine.{M, pure, ◌>>=◌, ◌>>◌}
use arduino_osh.Stack.{poke}
use arduino_osh.Queue.{osi_queue_create, osi_queue_enqueue, osi_queue_dequeue}
use arduino_osh.Mutex.{osi_mutex_create, osi_mutex_acquire, osi_mutex_release}
use arduino_osh.Semaphore.{osi_semaphore_create, osi_semaphore_acquire, osi_semaphore_release}
use arduino_osh.Rwlock.{
  osi_rwlock_create, osi_rwlock_acquire_read, osi_rwlock_acquire_write, osi_rwlock_release,
}
use arduino_osh.Signals.{osi_signal, osi_signal_check}

unfoldable pub svc_queue_create : Ptr → QueueDefinition → M ℕ
svc_queue_create queue def = osi_queue_create queue def

unfoldable pub svc_queue_enqueue : Ptr → Ptr → ℕ → M Tuple
svc_queue_enqueue queue message to = do
  status ← osi_queue_enqueue queue message to
  pure (record { status = status; value = 0 })

-- `rtuple.value` holds 0 before the call.
unfoldable pub svc_queue_dequeue : Ptr → ℕ → M Tuple
svc_queue_dequeue queue to = osi_queue_dequeue queue 0 to

unfoldable pub svc_mutex_create : Ptr → MutexDefinition → M ℕ
svc_mutex_create mutex def = osi_mutex_create mutex def

unfoldable pub svc_mutex_acquire : Ptr → ℕ → M ℕ
svc_mutex_acquire mutex to = osi_mutex_acquire mutex to

unfoldable pub svc_mutex_release : Ptr → M ℕ
svc_mutex_release mutex = osi_mutex_release mutex

unfoldable pub svc_semaphore_create : Ptr → SemaphoreDefinition → M ℕ
svc_semaphore_create semaphore def = osi_semaphore_create semaphore def

unfoldable pub svc_semaphore_acquire : Ptr → ℕ → M ℕ
svc_semaphore_acquire semaphore to = osi_semaphore_acquire semaphore to

unfoldable pub svc_semaphore_release : Ptr → M ℕ
svc_semaphore_release semaphore = osi_semaphore_release semaphore

unfoldable pub svc_rwlock_create : Ptr → RwlockDefinition → M ℕ
svc_rwlock_create rwlock def = osi_rwlock_create rwlock def

unfoldable pub svc_rwlock_acquire_read : Ptr → ℕ → M ℕ
svc_rwlock_acquire_read rwlock to = osi_rwlock_acquire_read rwlock to

unfoldable pub svc_rwlock_acquire_write : Ptr → ℕ → M ℕ
svc_rwlock_acquire_write rwlock to = osi_rwlock_acquire_write rwlock to

unfoldable pub svc_rwlock_release : Ptr → M ℕ
svc_rwlock_release rwlock = osi_rwlock_release rwlock

unfoldable pub svc_signal : Ptr → ℕ → M ℕ
svc_signal task signal = osi_signal task signal

-- `signal` is the address of a word.
unfoldable pub svc_signal_check : Ptr → M ℕ
svc_signal_check signal = do (status, value) ← osi_signal_check; poke signal value; pure status
