-- ===== src/Kernel/Settled.antt =====
-- The invariant of the system between two exceptions, and when a switch is under way.
use arduino_osh.Base.{◌+◌, ◌≤◌, ◌<◌, ◌≡◌, ◌⊎◌, true, false, List, ◌==◌, All, has}
use arduino_osh.Types.{Ptr, null, active, OsState, Os, stack_magic_word}
use arduino_osh.Scheduler.Frame.{Kept}
use arduino_osh.Scheduler.Invariant.{Queues}
pub use arduino_osh.Kernel.Objects.{In}
use arduino_osh.Kernel.Objects.{Objects}
use arduino_osh.Kernel.{Registers}

-- A task that outranks the idle task, and has kept its stack.
pub record Fit (s : Os) (a : Ptr) : Type 0 where
  pub above : (a ≡ s.idle) ⊎ (s.task.priority s.idle < s.task.priority a)
  pub bounded : s.task.stack a ≤ s.task.sp a
  pub magic : s.memory (s.task.stack a) ≡ stack_magic_word

-- The running task is active, no task that can run outranks it, and no switch is under way.
pub record Settled (mutexes : List Ptr) (s : Os) (run waiting : List Ptr) : Type 0 where
  pub queues : Queues s run waiting
  pub none : s.scheduled ≡ null
  pub begun : s.state ≡ OsState.started
  pub here : has s.running run ≡ true
  pub now_active : s.task.status s.running ≡ active
  pub top : All (λ a. s.task.priority a ≤ s.task.priority s.running) run
  pub idle_here : has s.idle run ≡ true
  pub fit : (a : Ptr) → In a run waiting → Fit s a
  pub objects : Objects mutexes s run waiting
  pub free : s.task.flags s.running ≡ 0

-- The same without the promise on priorities: a system that has started and not yet ticked.
pub record Begun (mutexes : List Ptr) (s : Os) (run waiting : List Ptr) : Type 0 where
  pub queues : Queues s run waiting
  pub none : s.scheduled ≡ null
  pub begun : s.state ≡ OsState.started
  pub here : has s.running run ≡ true
  pub now_active : s.task.status s.running ≡ active
  pub idle_here : has s.idle run ≡ true
  pub fit : (a : Ptr) → In a run waiting → Fit s a
  pub objects : Objects mutexes s run waiting

pub Settled-Begun :
    (mutexes : List Ptr) (s : Os) (run waiting : List Ptr)
    → Settled mutexes s run waiting
    → Begun mutexes s run waiting
Settled-Begun mutexes s run waiting d = record {
  queues = d.queues;
  none = d.none;
  begun = d.begun;
  here = d.here;
  now_active = d.now_active;
  idle_here = d.idle_here;
  fit = d.fit;
  objects = d.objects;
}

-- A switch to another task is under way.
pub record Pending (mutexes : List Ptr) (s : Os) (run waiting : List Ptr) : Type 0 where
  pub queues : Queues s run waiting
  pub begun : s.state ≡ OsState.started
  pub live : (s.running == null) ≡ false
  pub live_next : (s.scheduled == null) ≡ false
  pub other : (s.running == s.scheduled) ≡ false
  pub left : In s.running run waiting
  pub here : has s.scheduled run ≡ true
  pub now_active : s.task.status s.scheduled ≡ active
  pub top : All (λ a. s.task.priority a ≤ s.task.priority s.scheduled) run
  pub idle_here : has s.idle run ≡ true
  pub fit : (a : Ptr) → In a run waiting → Fit s a
  pub objects : Objects mutexes s run waiting
  pub free : s.task.flags s.scheduled ≡ 0

-- The registers go to the stack of the running task, and the frame over no stack's lowest word.
pub record Fits (s : Os) (cpu : Registers) : Type 0 where
  pub deep : 32 ≤ cpu.psp
  pub bounded : s.task.stack s.running + 32 ≤ cpu.psp
  pub clear : (a : Ptr) → (s.task.stack a + 32 < cpu.psp) ⊎ (cpu.psp + 32 ≤ s.task.stack a)

pub Fits-Kept : (s t : Os) (cpu : Registers) → Kept s t → Fits s cpu → Fits t cpu
Fits-Kept s t cpu k f = record {
  deep = f.deep;
  bounded = rw (k.stack, k.running) (f.bounded);
  clear = rw (k.stack) (f.clear);
}
