-- ===== src/Tasks/Control.antt =====
-- The operations on one task, in src/os.c.
use arduino_osh.Base.{
  ℕ, ◌+◌, ◌-◌, ◌%◌, Bool, true, false, not, ◌&&◌, ◌||◌, ◌==◌, ltb, if◌then◌else◌, update,
}
use arduino_osh.Types.{
  Ptr, null, TaskStatus, idle, active, wait, suspended, finished, panic, aborted, status_eq, Tasks,
  u32_mod, stack_magic_word, oss_success,
}
use arduino_osh.Machine.{M, pure, skip, get, os_assert, load, store, set_status, ◌>>=◌, ◌>>◌}
use arduino_osh.RunQueue.{runqueue_add, runqueue_remove, osi_priority_check}
use arduino_osh.WaitQueue.{waitqueue_remove}
use arduino_osh.Stack.{initialize_stack}
use arduino_osh.Scheduler.{call_hook, osi_task_status_set}
use arduino_osh.Hooks.{osi_panic}
use arduino_osh.Types.{PanicKind}

unfoldable pub os_task_user_data_get : Ptr → M Ptr
os_task_user_data_get task = load task (λ t. t.user_data)

unfoldable pub os_task_user_data_set : Ptr → Ptr → M (Unit {0})
os_task_user_data_set task user_data =
    store task (λ t. record t { user_data = update t.user_data task user_data })

unfoldable pub os_task_get_status : Ptr → M TaskStatus
os_task_get_status task = load task (λ t. t.status)

-- The `switch` of `os_task_is_running`: unlike `os_task_status_is_running` it counts a waiting
-- task.
abbrev pub is_running_case : TaskStatus → Bool
is_running_case idle = true
is_running_case active = true
is_running_case wait = true
is_running_case suspended = false
is_running_case finished = false
is_running_case panic = false
is_running_case aborted = false

unfoldable pub os_task_is_running : Ptr → M Bool
os_task_is_running task = do status ← os_task_get_status task; pure (is_running_case status)

-- The assignments to `*task` of `os_task_start_options`, up to the stack. `semaphore` is left.
unfoldable pub restart_task : Ptr → ℕ → Ptr → ℕ → Tasks → Tasks
restart_task task priority params now t = record t {
  stack_kind = update t.stack_kind task 0;
  delay = update t.delay task 0;
  flags = update t.flags task 0;
  queue = update t.queue task null;
  mutex = update t.mutex task null;
  rwlock = update t.rwlock task null;
  c = update t.c task null;
  nblocked = update t.nblocked task null;
  params = update t.params task params;
  started = update t.started task now;
  runtime = update t.runtime task 0;
  scheduled = update t.scheduled task 0;
  priority = update t.priority task priority;
  signal = update t.signal task 0;
}

unfoldable pub os_task_start_options : Ptr → ℕ → Ptr → M ℕ
os_task_start_options task priority params = do
  os_assert (not (task == null))
  status ← load task (λ t. t.status)
  os_assert (not (status_eq status idle) && not (status_eq status active))
  now ← get (λ s. s.uptime)
  store task (restart_task task priority params now)
  stack ← load task (λ t. t.stack)
  stack_size ← load task (λ t. t.stack_size)
  sp ← initialize_stack task stack stack_size
  store task (λ t. record t { sp = update t.sp task sp })
  set_status task idle
  waitqueue_remove task
  runqueue_remove task
  runqueue_add task
  call_hook task finished
  pure oss_success

-- The `uint8_t` parameter `priority` cuts off the task's priority.
unfoldable pub os_task_start : Ptr → M ℕ
os_task_start task = do
  priority ← load task (λ t. t.priority)
  os_task_start_options task (priority % 256) null

unfoldable pub os_task_suspend : Ptr → M ℕ
os_task_suspend task = do
  os_assert (not (task == null))
  status ← load task (λ t. t.status)
  os_assert (status_eq status idle || status_eq status active)
  osi_task_status_set task suspended
  pure oss_success

unfoldable pub os_task_resume : Ptr → M ℕ
os_task_resume task = do
  os_assert (not (task == null))
  status ← load task (λ t. t.status)
  os_assert (status_eq status suspended)
  osi_task_status_set task idle
  pure oss_success

unfoldable pub os_task_is_stop : Ptr → M ℕ
os_task_is_stop task = do os_assert (not (task == null)); pure oss_success

-- `os_task_runtime` has the same body.
unfoldable pub os_task_uptime : Ptr → M ℕ
os_task_uptime task = do
  os_assert (not (task == null))
  now ← get (λ s. s.uptime)
  started ← load task (λ t. t.started)
  pure ((now + u32_mod - started) % u32_mod)

unfoldable pub os_task_runtime : Ptr → M ℕ
os_task_runtime task = do
  os_assert (not (task == null))
  now ← get (λ s. s.uptime)
  started ← load task (λ t. t.started)
  pure ((now + u32_mod - started) % u32_mod)

-- What a task's handler returns to; the endless loop behind it is left to the scheduler's tick.
unfoldable pub task_finished : M (Unit {0})
task_finished = do
  running ← get (λ s. s.running)
  os_assert (not (running == null))
  idle_task ← get (λ s. s.idle)
  os_assert (not (running == idle_task))
  status ← load running (λ t. t.status)
  os_assert (status_eq status active)
  osi_task_status_set running finished
  skip

-- The build without `__pic__`.
unfoldable pub osi_stack_check : M (Unit {0})
osi_stack_check = do
  running ← get (λ s. s.running)
  sp ← load running (λ t. t.sp)
  stack ← load running (λ t. t.stack)
  lowest ← get (λ s. s.memory stack)
  (if ltb sp stack || not (lowest == stack_magic_word)
      then osi_panic PanicKind.stack_overflow
      else skip)
  scheduled ← get (λ s. s.scheduled)
  osi_priority_check scheduled
