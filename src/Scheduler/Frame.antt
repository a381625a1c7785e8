-- ===== src/Scheduler/Frame.antt =====
-- What waking a task and switching to one leave as they are.
use arduino_osh.Base.{◌≡◌, ◌∙◌}
use arduino_osh.Types.{Ptr, Os}

pub record Kept (s after : Os) : Type 0 where
  pub running : after.running ≡ s.running
  pub idle : after.idle ≡ s.idle
  pub state : after.state ≡ s.state
  pub uptime : after.uptime ≡ s.uptime
  pub memory : after.memory ≡ s.memory
  pub priority : after.task.priority ≡ s.task.priority
  pub stack : after.task.stack ≡ s.task.stack
  pub sp : after.task.sp ≡ s.task.sp

pub Kept-trans : (s t u : Os) → Kept s t → Kept t u → Kept s u
Kept-trans s t u h g = record {
  running = g.running ∙ h.running;
  idle = g.idle ∙ h.idle;
  state = g.state ∙ h.state;
  uptime = g.uptime ∙ h.uptime;
  memory = g.memory ∙ h.memory;
  priority = g.priority ∙ h.priority;
  stack = g.stack ∙ h.stack;
  sp = g.sp ∙ h.sp;
}

-- What the tasks block on is left as it is.
pub record Untouched (s after : Os) : Type 0 where
  pub flags : (a : Ptr) → after.task.flags a ≡ s.task.flags a
  pub nblocked : after.task.nblocked ≡ s.task.nblocked
  pub mutex : after.task.mutex ≡ s.task.mutex
  pub queue : after.task.queue ≡ s.task.queue
  pub semaphore : after.task.semaphore ≡ s.task.semaphore
  pub rwlock : after.task.rwlock ≡ s.task.rwlock
  pub mutexes : after.mutex ≡ s.mutex

pub Untouched-trans : (s t u : Os) → Untouched s t → Untouched t u → Untouched s u
Untouched-trans s t u h g = record {
  flags = λ a. g.flags a ∙ h.flags a;
  nblocked = g.nblocked ∙ h.nblocked;
  mutex = g.mutex ∙ h.mutex;
  queue = g.queue ∙ h.queue;
  semaphore = g.semaphore ∙ h.semaphore;
  rwlock = g.rwlock ∙ h.rwlock;
  mutexes = g.mutexes ∙ h.mutexes;
}
