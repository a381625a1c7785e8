-- ===== src/Kernel.antt =====
-- The handlers of src/arch/m0.s that switch between tasks, and the exceptions that lead to them: the
-- tick, and the service calls for a delay and for a mutex, each followed by `PendSV_Handler`, which has
-- the lowest priority.
pub mod Objects
pub mod Settled
pub mod Frames
pub mod Switch
pub mod Answer
pub mod Dispatch
pub mod Choose
pub mod After
pub mod Chosen
pub mod Tick
pub mod Asleep
pub mod Reschedule
pub mod Delay
pub mod Stay
pub mod Asks
pub mod Acquire
pub mod Runs
pub mod Wakes
pub mod Start
pub mod Enter
pub mod Filled
pub mod Prepare
pub mod First
pub mod Application
pub mod Grow
pub mod Boot
use arduino_osh.Base.{ℕ, ◌+◌, ◌-◌, not, ◌&&◌, ◌==◌, update}
use arduino_osh.Types.{Ptr, null, Tuple}
use arduino_osh.Machine.{M, pure, get, modify, store, when, ◌>>=◌, ◌>>◌}
use arduino_osh.Stack.{word, poke}
use arduino_osh.Scheduler.{osi_irs_systick}
use arduino_osh.Service.{svc_delay}
use arduino_osh.Mutex.{osi_mutex_acquire}
use arduino_osh.Tasks.{osi_stack_check}

-- What the processor holds in a handler: the process stack pointer, at which the exception has saved
-- eight other registers, R4 to R11, and R1 and R2 as a service call's function leaves them.
pub record Registers : Type 0 where
  pub psp : Ptr
  pub r : ℕ → ℕ

-- The two `stmia`: R8 to R11 below R4 to R7.
unfoldable pub save_registers : Registers → M (Unit {0})
save_registers cpu = do
  let at = cpu.psp - 32
  poke (word at 4) (cpu.r 4)
  poke (word at 5) (cpu.r 5)
  poke (word at 6) (cpu.r 6)
  poke (word at 7) (cpu.r 7)
  poke (word at 0) (cpu.r 8)
  poke (word at 1) (cpu.r 9)
  poke (word at 2) (cpu.r 10)
  poke (word at 3) (cpu.r 11)

-- Loading the registers of the next task changes no memory.
unfoldable pub pendsv_handler : Registers → M (Unit {0})
pendsv_handler cpu = do
  running ← get (λ s. s.running)
  scheduled ← get (λ s. s.scheduled)
  when (not (running == scheduled) && not (scheduled == null)) (do
    save_registers cpu
    running ← get (λ s. s.running)
    store running (λ t. record t { sp = update t.sp running (cpu.psp - 32) })
    osi_stack_check
    next ← get (λ s. s.scheduled)
    modify (λ s. record s { running = next })
    osi_stack_check
    modify (λ s. record s { scheduled = null }))

-- The three words that a service call's function leaves go to the caller's R0 to R2: its result, a
-- second word for the functions that return two, and R2.
unfoldable pub store_return : Registers → Tuple → M (Unit {0})
store_return cpu tuple = do
  poke (word cpu.psp 0) tuple.status
  poke (word cpu.psp 1) tuple.value
  poke (word cpu.psp 2) (cpu.r 2)

-- A function with one word for its result leaves something in R1.
abbrev pub one_word : Registers → M ℕ → M Tuple
one_word cpu call = do status ← call; pure (record { status = status; value = cpu.r 1 })

-- `SVC_Handler` calls the function, and switches at once if that has scheduled another task.
unfoldable pub svc_handler : M Tuple → Registers → M (Unit {0})
svc_handler call cpu = do
  tuple ← call
  store_return cpu tuple
  running ← get (λ s. s.running)
  scheduled ← get (λ s. s.scheduled)
  when (not (scheduled == null) && not (running == scheduled)) (do
    when (not (running == null)) (do
      save_registers cpu
      store running (λ t. record t { sp = update t.sp running (cpu.psp - 32) })
      osi_stack_check)
    modify (λ s. record s { running = scheduled; scheduled = null }))

-- What happens to the system: the clock ticks, the running task delays itself, asks for a mutex, or
-- works.
pub data Call : Type 0 where
  tick : ℕ → ℕ → Registers → Call
  delay : ℕ → Registers → Call
  acquire : Ptr → ℕ → Registers → Call
  work : (ℕ → ℕ) → Call

unfoldable pub perform : Call → M (Unit {0})
perform (tick uptime micros cpu) = do
  modify (λ s. record s { uptime = uptime; micros = micros })
  osi_irs_systick
  pendsv_handler cpu
perform (delay ms cpu) = do svc_handler (one_word cpu (svc_delay ms)) cpu; pendsv_handler cpu
perform (acquire mutex to cpu) = do
  svc_handler (one_word cpu (osi_mutex_acquire mutex to)) cpu
  pendsv_handler cpu
perform (work memory) = modify (λ s. record s { memory = memory })
