-- ===== src/Rwlock/Defs.antt =====
-- The operations of src/rwlock.c.
use arduino_osh.Base.{ℕ, zero, suc, ◌+◌, ◌-◌, ◌%◌, ◌&&◌, ◌||◌, ◌==◌, ltb, if◌then◌else◌}
use arduino_osh.Types.{
  Ptr, null, TaskStatus, RwlockDefinition, u16_mod, flag_rwlock, oss_success, oss_error_to,
}
use arduino_osh.Machine.{
  M, Run, pure, skip, get, os_assert, load, set_nblocked, set_c, set_rwlock, load_rwlock,
  store_rwlock, with_tasks, when, rounds, ◌>>=◌, ◌>>◌,
}
use arduino_osh.Blocked.{blocked_append}
use arduino_osh.Stack.{osi_task_set_stacked_return}
use arduino_osh.Scheduler.{osi_dispatch_or_queue, osi_task_status_set}
use arduino_osh.Service.{svc_block}

abbrev pub desired_none : ℕ
desired_none = 0

abbrev pub desired_read : ℕ
desired_read = 1

abbrev pub desired_write : ℕ
desired_write = 2

unfoldable pub blocked_enq : Ptr → Ptr → M (Unit {0})
blocked_enq rwlock task = do
  blocked ← load_rwlock rwlock (λ l. l.blocked)
  blocked ← blocked_append blocked task
  store_rwlock rwlock (λ l. record l { blocked = blocked })
  theirs ← load task (λ t. t.rwlock)
  os_assert (theirs == null)
  set_rwlock task rwlock

unfoldable pub osi_rwlock_create : Ptr → RwlockDefinition → M ℕ
osi_rwlock_create rwlock def = do
  store_rwlock rwlock (λ l. record {
    def = def;
    blocked = record { type = 0; tasks = null };
    readers = 0;
    writers = 0;
    flags = def.flags;
    writer = null;
  })
  pure oss_success

-- What the two acquisitions share when the lock is not free.
unfoldable pub wait_for : Ptr → Ptr → ℕ → ℕ → M ℕ
wait_for rwlock task desired to =
    if to == 0
    then pure oss_error_to
    else do set_c task desired; blocked_enq rwlock task; svc_block to flag_rwlock; pure oss_error_to

unfoldable pub osi_rwlock_acquire_read : Ptr → ℕ → M ℕ
osi_rwlock_acquire_read rwlock to = do
  task ← get (λ s. s.running)
  theirs ← load task (λ t. t.rwlock)
  os_assert ((theirs == null) || (theirs == rwlock))
  writers ← load_rwlock rwlock (λ l. l.writers)
  if writers == 0
      then (do
        store_rwlock rwlock (λ l. record l { readers = (l.readers + 1) % u16_mod })
        pure oss_success)
      else wait_for rwlock task desired_read to

unfoldable pub osi_rwlock_acquire_write : Ptr → ℕ → M ℕ
osi_rwlock_acquire_write rwlock to = do
  task ← get (λ s. s.running)
  theirs ← load task (λ t. t.rwlock)
  os_assert ((theirs == null) || (theirs == rwlock))
  readers ← load_rwlock rwlock (λ l. l.readers)
  writers ← load_rwlock rwlock (λ l. l.writers)
  if (readers == 0) && (writers == 0)
      then (do
        store_rwlock rwlock (λ l. record l { writers = (l.writers + 1) % u16_mod; writer = task })
        pure oss_success)
      else wait_for rwlock task desired_write to

-- The first two steps of the release: the caller's share is given back.
unfoldable pub give_back : Ptr → Ptr → M (Unit {0})
give_back rwlock task = do
  readers ← load_rwlock rwlock (λ l. l.readers)
  writers ← load_rwlock rwlock (λ l. l.writers)
  os_assert (ltb 0 readers || (writers == 1))
  when (ltb 0 readers) (store_rwlock rwlock (λ l. record l { readers = l.readers - 1 }))
  when (ltb 0 writers) (do
    writer ← load_rwlock rwlock (λ l. l.writer)
    os_assert (writer == task)
    store_rwlock rwlock (λ l. record l { writer = null; writers = l.writers - 1 }))

-- The first waiting task is a writer, and the lock is free.
unfoldable pub admit_writer : Ptr → Ptr → M (Unit {0})
admit_writer rwlock task = do
  next ← load task (λ t. t.nblocked)
  store_rwlock rwlock (λ l. record l { blocked = with_tasks l.blocked next })
  set_nblocked task null
  set_c task desired_none
  store_rwlock rwlock (λ l. record l { writers = (l.writers + 1) % u16_mod; writer = task })
  osi_task_set_stacked_return task oss_success
  osi_dispatch_or_queue task
  skip

-- A waiting reader behind `previous` leaves the list and can run.
unfoldable pub admit_reader : Ptr → Ptr → Ptr → M (Unit {0})
admit_reader rwlock previous iter = do
  next ← load iter (λ t. t.nblocked)
  (if previous == null
      then store_rwlock rwlock (λ l. record l { blocked = with_tasks l.blocked next })
      else set_nblocked previous next)
  set_nblocked iter null
  set_c iter desired_none
  osi_task_set_stacked_return iter oss_success
  osi_task_status_set iter TaskStatus.idle
  store_rwlock rwlock (λ l. record l { readers = (l.readers + 1) % u16_mod })

-- The loop's step reads `iter->nblocked`, which `admit_reader` has set to `NULL`.
unfoldable pub admit_readers : ℕ → Ptr → Ptr → Ptr → M (Unit {0})
admit_readers zero rwlock previous iter = λ _. Run.out_of_rounds
admit_readers (suc k) rwlock previous iter = if iter == null then skip else do
  desired ← load iter (λ t. t.c)
  when (desired == desired_read) (admit_reader rwlock previous iter)
  next ← load iter (λ t. t.nblocked)
  admit_readers k rwlock (if desired == desired_read then previous else iter) next

unfoldable pub osi_rwlock_release : Ptr → M ℕ
osi_rwlock_release rwlock = do
  self ← get (λ s. s.running)
  give_back rwlock self
  head ← load_rwlock rwlock (λ l. l.blocked.tasks)
  if head == null then pure oss_success else (do
    readers ← load_rwlock rwlock (λ l. l.readers)
    desired ← load head (λ t. t.c)
    (if (readers == 0) && (desired == desired_write)
        then admit_writer rwlock head
        else admit_readers rounds rwlock null head)
    pure oss_success)
