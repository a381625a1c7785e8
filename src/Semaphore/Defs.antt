-- ===== src/Semaphore/Defs.antt =====
-- The operations of src/semaphore.c.
use arduino_osh.Base.{ℕ, ◌+◌, ◌-◌, ◌%◌, not, ◌||◌, ◌==◌, ltb, if◌then◌else◌}
use arduino_osh.Types.{
  Ptr, null, SemaphoreDefinition, u32_mod, flag_semaphore, oss_success, oss_error_to,
}
use arduino_osh.Machine.{
  M, pure, get, os_assert, load, set_nblocked, set_semaphore, load_semaphore, store_semaphore,
  with_tasks, ◌>>=◌, ◌>>◌,
}
use arduino_osh.Blocked.{blocked_append}
use arduino_osh.Stack.{osi_task_set_stacked_return}
use arduino_osh.Scheduler.{osi_dispatch_or_queue}
use arduino_osh.Service.{svc_block}

unfoldable pub blocked_enq : Ptr → Ptr → M (Unit {0})
blocked_enq semaphore task = do
  blocked ← load_semaphore semaphore (λ m. m.blocked)
  blocked ← blocked_append blocked task
  store_semaphore semaphore (λ m. record m { blocked = blocked })
  theirs ← load task (λ t. t.semaphore)
  os_assert (theirs == null)
  set_semaphore task semaphore

unfoldable pub blocked_deq : Ptr → M Ptr
blocked_deq semaphore = do
  task ← load_semaphore semaphore (λ m. m.blocked.tasks)
  if task == null then pure null else (do
    theirs ← load task (λ t. t.semaphore)
    os_assert (theirs == semaphore)
    next ← load task (λ t. t.nblocked)
    store_semaphore semaphore (λ m. record m { blocked = with_tasks m.blocked next })
    set_nblocked task null
    pure task)

unfoldable pub osi_semaphore_create : Ptr → SemaphoreDefinition → M ℕ
osi_semaphore_create semaphore def = do
  store_semaphore semaphore (λ m. record {
    def = def;
    blocked = record { type = 0; tasks = null };
    tokens = def.tokens;
    flags = def.flags;
  })
  pure oss_success

unfoldable pub osi_semaphore_acquire : Ptr → ℕ → M ℕ
osi_semaphore_acquire semaphore to = do
  task ← get (λ s. s.running)
  theirs ← load task (λ t. t.semaphore)
  os_assert ((theirs == null) || (theirs == semaphore))
  tokens ← load_semaphore semaphore (λ m. m.tokens)
  if ltb 0 tokens
      then (do store_semaphore semaphore (λ m. record m { tokens = tokens - 1 }); pure oss_success)
      else if to == 0
      then pure oss_error_to
      else (do blocked_enq semaphore task; svc_block to flag_semaphore; pure oss_error_to)

unfoldable pub osi_semaphore_release : Ptr → M ℕ
osi_semaphore_release semaphore = do
  head ← load_semaphore semaphore (λ m. m.blocked.tasks)
  if not (head == null)
      then (do
        blocked_task ← blocked_deq semaphore
        osi_task_set_stacked_return blocked_task oss_success
        osi_dispatch_or_queue blocked_task
        pure oss_success)
      else (do
        store_semaphore semaphore (λ m. record m { tokens = (m.tokens + 1) % u32_mod })
        pure oss_success)
