-- ===== src/Scheduler/Dispatch.antt =====
-- `osi_dispatch` of src/os.c: a task leaves what it blocked on, changes queues, and is scheduled.
use Prim.Native.Nat.{bit_and}
use arduino_osh.Base.{ℕ, ◌+◌, ◌-◌, ◌%◌, Bool, not, ◌==◌, ltb, if◌then◌else◌, update}
use arduino_osh.Types.{
  Ptr, null, TaskStatus, idle, active, wait, suspended, finished, panic, aborted, status_eq,
  u32_mod, flag_mutex, flag_queue, flag_semaphore, flag_rwlock, oss_success, Event,
}
use arduino_osh.Machine.{
  M, pure, skip, get, modify, os_assert, load, store, set_status, set_delay, set_flags, set_c,
  set_nblocked, set_queue, set_mutex, set_semaphore, set_rwlock, load_mutex, store_mutex,
  load_queue, store_queue, load_semaphore, store_semaphore, load_rwlock, store_rwlock, with_tasks,
  emit, when, pend_sv, ◌>>=◌, ◌>>◌,
}
use arduino_osh.RunQueue.{runqueue_add, runqueue_remove, runqueue_length, osi_priority_check}
use arduino_osh.WaitQueue.{waitqueue_remove}
use arduino_osh.Blocked.{blocked_remove}

-- `(task->flags & flag) == flag`.
abbrev pub has_flag : ℕ → ℕ → Bool
has_flag flags flag = bit_and flags flag == flag

-- The assertions on what the task blocks on: at most the given ones are not `NULL`.
abbrev pub assert_null : Ptr → M (Unit {0})
assert_null p = os_assert (p == null)

abbrev pub assert_set : Ptr → M (Unit {0})
assert_set p = os_assert (not (p == null))

-- The four blocks that take the task off what it blocks on.
unfoldable pub detach_mutex : Ptr → M (Unit {0})
detach_mutex task = do
  queue ← load task (λ t. t.queue)
  assert_null queue
  mutex ← load task (λ t. t.mutex)
  assert_set mutex
  semaphore ← load task (λ t. t.semaphore)
  assert_null semaphore
  rwlock ← load task (λ t. t.rwlock)
  assert_null rwlock
  head ← load_mutex mutex (λ m. m.blocked.tasks)
  when (head == task) (do
    next ← load task (λ t. t.nblocked)
    store_mutex mutex (λ m. record m { blocked = with_tasks m.blocked next })
    set_nblocked task null)
  blocked ← load_mutex mutex (λ m. m.blocked)
  (_, rest) ← blocked_remove blocked task
  store_mutex mutex (λ m. record m { blocked = rest })
  set_mutex task null
  set_flags task 0

unfoldable pub detach_queue : Ptr → M (Unit {0})
detach_queue task = do
  mutex ← load task (λ t. t.mutex)
  assert_null mutex
  queue ← load task (λ t. t.queue)
  assert_set queue
  semaphore ← load task (λ t. t.semaphore)
  assert_null semaphore
  rwlock ← load task (λ t. t.rwlock)
  assert_null rwlock
  blocked ← load_queue queue (λ q. q.blocked)
  (_, rest) ← blocked_remove blocked task
  store_queue queue (λ q. record q { blocked = rest })
  set_queue task null
  set_flags task 0

unfoldable pub detach_semaphore : Ptr → M (Unit {0})
detach_semaphore task = do
  mutex ← load task (λ t. t.mutex)
  assert_null mutex
  queue ← load task (λ t. t.queue)
  assert_null queue
  semaphore ← load task (λ t. t.semaphore)
  assert_set semaphore
  rwlock ← load task (λ t. t.rwlock)
  assert_null rwlock
  blocked ← load_semaphore semaphore (λ m. m.blocked)
  (_, rest) ← blocked_remove blocked task
  store_semaphore semaphore (λ m. record m { blocked = rest })
  set_semaphore task null
  set_flags task 0

unfoldable pub detach_rwlock : Ptr → M (Unit {0})
detach_rwlock task = do
  mutex ← load task (λ t. t.mutex)
  assert_null mutex
  queue ← load task (λ t. t.queue)
  assert_null queue
  semaphore ← load task (λ t. t.semaphore)
  assert_null semaphore
  rwlock ← load task (λ t. t.rwlock)
  assert_set rwlock
  blocked ← load_rwlock rwlock (λ l. l.blocked)
  (_, rest) ← blocked_remove blocked task
  store_rwlock rwlock (λ l. record l { blocked = rest })
  set_c task 0
  set_rwlock task null
  set_flags task 0

-- `if ((task->flags & flag) == flag) { … }`.
abbrev pub when_flag : Ptr → ℕ → M (Unit {0}) → M (Unit {0})
when_flag task flag detach = do flags ← load task (λ t. t.flags); when (has_flag flags flag) detach

unfoldable pub detach : Ptr → M (Unit {0})
detach task = do
  when_flag task flag_mutex (detach_mutex task)
  when_flag task flag_queue (detach_queue task)
  when_flag task flag_semaphore (detach_semaphore task)
  when_flag task flag_rwlock (detach_rwlock task)

-- The `switch` over the status of the task that has been running.
unfoldable pub leave_status : Ptr → TaskStatus → M (Unit {0})
leave_status task active = set_status task idle
leave_status task idle = skip
leave_status task wait = skip
leave_status task suspended = runqueue_remove task
leave_status task finished = runqueue_remove task
leave_status task panic = do emit (Event.task_panic task); runqueue_remove task
leave_status task aborted = runqueue_remove task

-- The accounts of the time that tasks run.
unfoldable pub account : Ptr → Ptr → M (Unit {0})
account running task = do
  now ← get (λ s. s.micros)
  since ← load running (λ t. t.scheduled)
  when (ltb 0 since) (do
    store running (λ t. record t {
      runtime =
          update t.runtime running
            ((t.runtime running + (now + u32_mod - since) % u32_mod) % u32_mod);
    })
    store running (λ t. record t { scheduled = update t.scheduled running 0 }))
  store task (λ t. record t { scheduled = update t.scheduled task now })

-- `OS_CONFIG_PARANOIA`: the idle task runs only when it is alone in the run queue.
unfoldable pub idle_check : Ptr → M (Unit {0})
idle_check task = do
  idle_task ← get (λ s. s.idle)
  when (task == idle_task)
      (do head ← get (λ s. s.runqueue); length ← runqueue_length head; os_assert (length == 1))

-- The part of `osi_dispatch` behind the early return.
unfoldable pub switch_to : Ptr → Ptr → M ℕ
switch_to running task = do
  detach task
  status ← load running (λ t. t.status)
  leave_status running status
  old_status ← load task (λ t. t.status)
  set_delay task 0
  set_flags task 0
  set_status task active
  when (status_eq old_status wait) (do waitqueue_remove task; runqueue_add task)
  account running task
  idle_check task
  modify (λ s. record s { scheduled = task })
  osi_priority_check task
  pend_sv
  pure oss_success

unfoldable pub osi_dispatch : Ptr → M ℕ
osi_dispatch task = do
  assert_set task
  running ← get (λ s. s.running)
  assert_set running
  if running == task then pure oss_success else switch_to running task
