-- ===== src/Mutex/Defs.antt =====
-- The operations of src/mutex.c.
use arduino_osh.Base.{ℕ, ◌+◌, ◌-◌, ◌%◌, not, ◌||◌, ◌==◌, ltb, if◌then◌else◌}
use arduino_osh.Types.{
  Ptr, null, MutexDefinition, u16_mod, u32_max, flag_mutex, oss_success, oss_error, oss_error_to,
}
use arduino_osh.Machine.{
  M, pure, get, os_assert, load, set_nblocked, set_mutex, load_mutex, store_mutex, with_tasks,
  ◌>>=◌, ◌>>◌,
}
use arduino_osh.Blocked.{blocked_append}
use arduino_osh.Stack.{osi_task_set_stacked_return}
use arduino_osh.Scheduler.{osi_dispatch_or_queue}
use arduino_osh.Service.{svc_block}

unfoldable pub blocked_enq : Ptr → Ptr → M (Unit {0})
blocked_enq mutex task = do
  blocked ← load_mutex mutex (λ m. m.blocked)
  blocked ← blocked_append blocked task
  store_mutex mutex (λ m. record m { blocked = blocked })
  theirs ← load task (λ t. t.mutex)
  os_assert (theirs == null)
  set_mutex task mutex

unfoldable pub blocked_deq : Ptr → M Ptr
blocked_deq mutex = do
  task ← load_mutex mutex (λ m. m.blocked.tasks)
  if task == null then pure null else (do
    theirs ← load task (λ t. t.mutex)
    os_assert (theirs == mutex)
    next ← load task (λ t. t.nblocked)
    store_mutex mutex (λ m. record m { blocked = with_tasks m.blocked next })
    set_nblocked task null
    pure task)

unfoldable pub osi_mutex_create : Ptr → MutexDefinition → M ℕ
osi_mutex_create mutex def = do
  store_mutex mutex (λ m. record {
    def = def;
    blocked = record { type = 0; tasks = null };
    owner = null;
    level = 0;
    flags = def.flags;
  })
  pure oss_success

unfoldable pub os_mutex_is_owner : Ptr → M ℕ
os_mutex_is_owner mutex = do
  owner ← load_mutex mutex (λ m. m.owner)
  self ← get (λ s. s.running)
  if owner == self then pure oss_success else pure oss_error

-- `level` is a `uint16_t`, and is compared with `(uint32_t)(-1)`.
unfoldable pub osi_mutex_acquire : Ptr → ℕ → M ℕ
osi_mutex_acquire mutex to = do
  task ← get (λ s. s.running)
  theirs ← load task (λ t. t.mutex)
  os_assert ((theirs == null) || (theirs == mutex))
  level ← load_mutex mutex (λ m. m.level)
  owner ← load_mutex mutex (λ m. m.owner)
  if level == 0
      then (do store_mutex mutex (λ m. record m { owner = task; level = 1 }); pure oss_success)
      else if owner == task
      then (if level == u32_max then pure oss_error else (do
        store_mutex mutex (λ m. record m { level = (level + 1) % u16_mod })
        pure oss_success))
      else if to == 0
      then pure oss_error_to
      else (do blocked_enq mutex task; svc_block to flag_mutex; pure oss_error_to)

-- The last release: the first waiting task becomes the owner.
unfoldable pub hand_over : Ptr → M ℕ
hand_over mutex = do
  head ← load_mutex mutex (λ m. m.blocked.tasks)
  if head == null then pure oss_success else (do
    blocked_task ← blocked_deq mutex
    store_mutex mutex (λ m. record m { owner = blocked_task; level = 1 })
    osi_task_set_stacked_return blocked_task oss_success
    osi_dispatch_or_queue blocked_task
    pure oss_success)

unfoldable pub osi_mutex_release : Ptr → M ℕ
osi_mutex_release mutex = do
  level ← load_mutex mutex (λ m. m.level)
  os_assert (ltb 0 level)
  owner ← load_mutex mutex (λ m. m.owner)
  self ← get (λ s. s.running)
  os_assert (owner == self)
  store_mutex mutex (λ m. record m { level = level - 1 })
  if not (level - 1 == 0) then pure oss_success else (do
    theirs ← load owner (λ t. t.mutex)
    os_assert (theirs == null)
    store_mutex mutex (λ m. record m { owner = null })
    hand_over mutex)
