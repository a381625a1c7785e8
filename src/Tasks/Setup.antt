-- ===== src/Tasks/Setup.antt =====
-- Initialisation, configuration, start and teardown, in src/os.c.
use arduino_osh.Base.{ℕ, ◌+◌, ◌%◌, not, ◌||◌, ◌==◌, if◌then◌else◌, update}
use arduino_osh.Types.{
  Ptr, null, StartStatus, TaskStatus, idle, active, suspended, finished, status_eq, unset,
  initialized, tasks_initialized, started, os_state_eq, Tasks, TaskOptions, u8_mod, priority_idle,
  priority_normal, oss_success, oss_error_invalid, is_mcu,
}
use arduino_osh.Machine.{
  M, pure, get, modify, os_assert, load, store, set_status, when, ◌>>=◌, ◌>>◌,
}
use arduino_osh.RunQueue.{runqueue_add}
use arduino_osh.Stack.{initialize_stack}
use arduino_osh.Scheduler.{call_hook}

-- The build without `OS_MTB`.
unfoldable pub os_initialize : M ℕ
os_initialize = do
  state ← get (λ s. s.state)
  if not (os_state_eq state unset) then pure oss_error_invalid else (do
    modify (λ s. record s { state = initialized; status_hook = null; logging_hook = null })
    pure oss_success)

unfoldable pub os_configure_hooks : Ptr → Ptr → M ℕ
os_configure_hooks status_hook logging_hook = do
  modify (λ s. record s { status_hook = status_hook; logging_hook = logging_hook })
  pure oss_success

unfoldable pub os_teardown : M ℕ
os_teardown = do
  modify (λ s. record s {
    running = null;
    scheduled = null;
    state = unset;
    ntasks = 0;
    idle = null;
    tasks = null;
    runqueue = null;
    waitqueue = null;
  })
  pure oss_success

abbrev pub start_status : StartStatus → TaskStatus
start_status StartStatus.running = idle
start_status StartStatus.suspended = suspended

-- The assignments to `*task` of `os_task_initialize_options`, up to the stack. `slice`,
-- `highwater` and `user_data` keep what the memory held.
unfoldable pub fill_task : Ptr → TaskOptions → ℕ → Tasks → Tasks
fill_task task options now t = record t {
  sp = update t.sp task null;
  stack = update t.stack task options.stack;
  stack_size = update t.stack_size task options.stack_size;
  stack_kind = update t.stack_kind task 0;
  params = update t.params task options.params;
  handler = update t.handler task options.handler;
  status = update t.status task (start_status options.status);
  name = update t.name task options.name;
  delay = update t.delay task 0;
  flags = update t.flags task 0;
  started = update t.started task now;
  runtime = update t.runtime task 0;
  scheduled = update t.scheduled task 0;
  queue = update t.queue task null;
  mutex = update t.mutex task null;
  nblocked = update t.nblocked task null;
  semaphore = update t.semaphore task null;
  rwlock = update t.rwlock task null;
  c = update t.c task null;
  nrp = update t.nrp task null;
  priority = update t.priority task options.priority;
  signal = update t.signal task 0;
}

unfoldable pub os_task_initialize_options : Ptr → TaskOptions → M ℕ
os_task_initialize_options task options = do
  state ← get (λ s. s.state)
  if not (os_state_eq state initialized || os_state_eq state tasks_initialized)
      then pure oss_error_invalid
      else (do
        now ← get (λ s. s.uptime)
        store task (fill_task task options now)
        sp ← initialize_stack task options.stack options.stack_size
        store task (λ t. record t { sp = update t.sp task sp })
        tasks ← get (λ s. s.tasks)
        store task (λ t. record t { np = update t.np task tasks })
        modify (λ s. record s { tasks = task; ntasks = (s.ntasks + 1) % u8_mod })
        idle_task ← get (λ s. s.idle)
        status ← load task (λ t. t.status)
        when (idle_task == null) (do
          os_assert (not (status_eq status suspended))
          store task (λ t. record t { priority = update t.priority task priority_idle })
          modify (λ s. record s { idle = task }))
        when (not (status_eq status suspended)) (runqueue_add task)
        modify (λ s. record s { state = tasks_initialized })
        call_hook task finished
        pure oss_success)

unfoldable pub os_task_initialize : Ptr → Ptr → StartStatus → Ptr → Ptr → Ptr → ℕ → M ℕ
os_task_initialize task name status handler params stack stack_size =
    os_task_initialize_options task (record {
      name = name;
      status = status;
      handler = handler;
      params = params;
      stack = stack;
      stack_size = stack_size;
      priority = priority_normal;
    })

-- On the microcontrollers the run ends here, in the idle task's handler, which does not return.
-- The writes to the NVIC, PSP and CONTROL registers are the processor's, but for `control`.
unfoldable pub os_start : M ℕ
os_start = do
  state ← get (λ s. s.state)
  if not (os_state_eq state tasks_initialized) then pure oss_error_invalid else (do
    head ← get (λ s. s.runqueue)
    os_assert (not (head == null))
    modify (λ s. record s { running = s.idle })
    running ← get (λ s. s.running)
    set_status running active
    arch ← get (λ s. s.arch)
    when (is_mcu arch) (modify (λ s. record s { control = 2; state = started }))
    pure oss_success)
