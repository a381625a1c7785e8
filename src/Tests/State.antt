-- ===== src/Tests/State.antt =====
-- A system of five tasks. Task 1 is the idle task, 2 is running, and 3 can run. Task 4 waits, and
-- task 5 is suspended.
use arduino_osh.Base.{ℕ, false, [], update}
use arduino_osh.Types.{
  Ptr, null, Arch, TaskStatus, OsState, QueueStatus, Tasks, Blocked, Queue, Mutex, Semaphore,
  Rwlock, Os,
}

abbrev zeros : ℕ → ℕ
zeros _ = 0

abbrev statuses : Ptr → TaskStatus
statuses =
    update (update (update (λ _. TaskStatus.idle) 2 TaskStatus.active) 4 TaskStatus.wait) 5
      TaskStatus.suspended

abbrev pub tasks : Tasks
tasks = record {
  sp = zeros;
  stack = zeros;
  stack_size = zeros;
  stack_kind = zeros;
  status = statuses;
  name = zeros;
  handler = zeros;
  params = zeros;
  np = zeros;
  nrp = update (update zeros 2 3) 3 1;
  nblocked = zeros;
  queue = zeros;
  mutex = zeros;
  semaphore = zeros;
  rwlock = zeros;
  priority = update (λ _. 16) 1 0;
  c = zeros;
  started = zeros;
  runtime = zeros;
  scheduled = zeros;
  delay = update zeros 4 50;
  flags = zeros;
  signal = zeros;
  highwater = zeros;
  user_data = zeros;
}

abbrev blocked_none : Blocked
blocked_none = record { type = 0; tasks = null }

abbrev pub queue : Queue
queue = record {
  def = record { name = 0; size = 2; flags = 0 };
  blocked = blocked_none;
  size = 2;
  number = 1;
  first = 0;
  last = 1;
  status = QueueStatus.fine;
  messages = λ _. 77;
}

abbrev pub mutex : Mutex
mutex = record {
  def = record { name = 0; flags = 0 };
  blocked = blocked_none;
  owner = 2;
  level = 3;
  flags = 0;
}

abbrev pub semaphore : Semaphore
semaphore = record {
  def = record { name = 0; tokens = 1; flags = 0 };
  blocked = blocked_none;
  tokens = 1;
  flags = 0;
}

abbrev pub rwlock : Rwlock
rwlock = record {
  def = record { name = 0; flags = 0 };
  blocked = blocked_none;
  readers = 0;
  writers = 0;
  flags = 0;
  writer = null;
}

abbrev pub system : Os
system = record {
  arch = Arch.samd21;
  running = 2;
  scheduled = null;
  state = OsState.started;
  ntasks = 5;
  idle = 1;
  tasks = 5;
  runqueue = 2;
  waitqueue = 4;
  status_hook = null;
  logging_hook = null;
  task = tasks;
  queue = λ _. queue;
  mutex = λ _. mutex;
  semaphore = λ _. semaphore;
  rwlock = λ _. rwlock;
  memory = zeros;
  task_finished = 9;
  uptime = 20;
  micros = 0;
  pendsv = false;
  control = 2;
  ipsr = 0;
  trace = [];
}
