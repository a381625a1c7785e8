-- ===== src/Kernel/Asks.antt =====
-- What a task of a running system may ask of a mutex (src/mutex.c), and what comes of it.
use arduino_osh.Base.{ℕ, ◌+◌, ◌<◌, ◌≡◌, ◌⊎◌, true, false, List, ◌==◌, length, has}
use arduino_osh.Types.{Ptr, Os, oss_success, oss_error_to, u16_mod}
use arduino_osh.Machine.{ok, rounds}
use arduino_osh.Chain.{Chain}
use arduino_osh.Kernel.{Registers, perform, acquire}
use arduino_osh.Kernel.Settled.{Fits, Settled}
use arduino_osh.Kernel.Asleep.{InTime, wake_time}

-- When the call may come: one more level fits, the list of the mutex has room, and the caller is not
-- the idle task and waits not at all, for ever, or for some time that ends before the clock is
-- at its largest number.
pub record MayAcquire (mutexes : List Ptr) (s : Os) (m to : ℕ) (cpu : Registers) : Type 0 where
  pub known : has m mutexes ≡ true
  pub busy : (s.running == s.idle) ≡ false
  pub fits_level : (s.mutex m).level + 1 < u16_mod
  pub room :
      (xs : List Ptr) → Chain s.task.nblocked (s.mutex m).blocked.tasks xs → length xs + 1 < rounds
  pub time : (to ≡ 0) ⊎ InTime s to
  pub fits : Fits s cpu

-- The mutex belongs to another task than the running one.
abbrev pub IsOthers : Os → Ptr → Type 0
IsOthers s m = (((s.mutex m).level == 0) ≡ false) × (((s.mutex m).owner == s.running) ≡ false)

-- The caller has the mutex and runs on, is refused and runs on, or waits.
pub data Acquires (mutexes : List Ptr) (s : Os) (m to : ℕ) (cpu : Registers)
    (run waiting : List Ptr) : Type 0 where
  gets :
      (after : Os)
      → perform (acquire m to cpu) s ≡ ok tt after
      → Settled mutexes after run waiting
      → after.running ≡ s.running
      → (after.mutex m).owner ≡ s.running
      → (after.mutex m).level ≡ (s.mutex m).level + 1
      → (((s.mutex m).level ≡ 0) ⊎ ((s.mutex m).owner ≡ s.running))
      → after.memory cpu.psp ≡ oss_success
      → Acquires mutexes s m to cpu run waiting
  refused :
      (after : Os)
      → perform (acquire m to cpu) s ≡ ok tt after
      → Settled mutexes after run waiting
      → after.running ≡ s.running
      → after.mutex ≡ s.mutex
      → IsOthers s m
      → to ≡ 0
      → after.memory cpu.psp ≡ oss_error_to
      → Acquires mutexes s m to cpu run waiting
  waits :
      (after : Os) (runs sleeps : List Ptr)
      → perform (acquire m to cpu) s ≡ ok tt after
      → Settled mutexes after runs sleeps
      → has s.running sleeps ≡ true
      → after.task.delay s.running ≡ wake_time s to
      → IsOthers s m
      → (to == 0) ≡ false
      → after.memory cpu.psp ≡ oss_error_to
      → Acquires mutexes s m to cpu run waiting
