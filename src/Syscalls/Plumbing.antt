-- ===== src/Syscalls/Plumbing.antt =====
-- src/syscall_plumbing.h: how the code of a task makes a service call and gets its result.
use Prim.Native.Nat.{bit_and}
use arduino_osh.Base.{ℕ, Bool, not, ◌==◌, if◌then◌else◌}
use arduino_osh.Types.{Os, Tuple, is_mcu}
use arduino_osh.Machine.{M, pure, get, ◌>>=◌, ◌>>◌}
use arduino_osh.Stack.{word, peek}
use arduino_osh.Kernel.{Registers, one_word, svc_handler}

-- `osi_in_task`, and `__get_IPSR() != 0U`.
abbrev pub osi_in_task : Os → Bool
osi_in_task s = bit_and s.control 2 == 2

abbrev pub in_interrupt : Os → Bool
in_interrupt s = not (s.ipsr == 0)

-- Where a call is made: the registers in the handler, and what happens until the caller runs on.
pub record Caller : Type 0 where
  pub cpu : Registers
  pub meanwhile : M (Unit {0})

-- `SVC_n_1`: on the microcontrollers the `svc` instruction and then R0, elsewhere the function.
unfoldable pub service_call : Caller → M ℕ → M ℕ
service_call caller call = do
  arch ← get (λ s. s.arch)
  if is_mcu arch
      then (do
        svc_handler (one_word caller.cpu call) caller.cpu
        caller.meanwhile
        peek (word caller.cpu.psp 0))
      else call

-- With R0 and R1 for the result, `RET_os_tuple_t`.
unfoldable pub service_call_tuple : Caller → M Tuple → M Tuple
service_call_tuple caller call = do
  arch ← get (λ s. s.arch)
  if is_mcu arch
      then (do
        svc_handler call caller.cpu
        caller.meanwhile
        status ← peek (word caller.cpu.psp 0)
        value ← peek (word caller.cpu.psp 1)
        pure (record { status = status; value = value }))
      else call
