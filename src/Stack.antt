-- ===== src/Stack.antt =====
-- The stacks of src/os.c: `initialize_stack` and its parts, and the saved registers through which
-- a blocked task is given its return value. Addresses are in bytes, words are four bytes.
pub mod Return
pub mod Writes
pub mod Prepared
pub mod Highwater
use Prim.Native.Nat.{bit_and}
use arduino_osh.Base.{ℕ, zero, suc, ◌+◌, ◌-◌, ◌*◌, ◌/◌, ◌%◌, not, ◌==◌, leb, if◌then◌else◌, update}
use arduino_osh.Types.{
  Ptr, Arch, samd21, samd51, linux, u32_mod, stack_magic_word, stack_minimum_size,
  stack_basic_frame_size, Tuple,
}
use arduino_osh.Machine.{M, skip, pure, get, modify, os_assert, load, store, ◌>>=◌, ◌>>◌}

abbrev pub word : Ptr → ℕ → Ptr
word p i = p + 4 * i

abbrev pub poke : Ptr → ℕ → M (Unit {0})
poke a v = modify (λ s. record s { memory = update s.memory a (v % u32_mod) })

abbrev pub peek : Ptr → M ℕ
peek a = get (λ s. s.memory a)

-- Recursion on the words left to paint.
pub stack_paint : Ptr → ℕ → M (Unit {0})
stack_paint stack zero = skip
stack_paint stack (suc n) = do poke stack stack_magic_word; stack_paint (stack + 4) n

-- Recursion on the words left to look at, `i` of which are behind.
pub stack_highwater_loop : Ptr → ℕ → ℕ → M ℕ
stack_highwater_loop stack i zero = pure i
stack_highwater_loop stack i (suc n) = do
  w ← peek stack
  if not (w == stack_magic_word) then pure i else stack_highwater_loop (stack + 4) (i + 1) n

stack_highwater : Ptr → ℕ → M ℕ
unfolding stack_highwater_loop
stack_highwater stack size = stack_highwater_loop stack 0 size

-- `os_task_highwater` hands over the stack's size in bytes where words are counted.
unfoldable pub os_task_highwater : Ptr → M ℕ
unfolding stack_highwater
os_task_highwater task = do
  stack ← load task (λ t. t.stack)
  size ← load task (λ t. t.stack_size)
  mark ← stack_highwater stack size
  store task (λ t. record t { highwater = update t.highwater task mark })
  pure mark

-- The words `stk[0]` to `stk[7]`, in the order that the target's `PendSV_Handler` pops them.
-- The build without `__pic__`.
pub software_frame : Arch → Ptr → ℕ → M (Unit {0})
software_frame linux stk base = skip
software_frame samd21 stk base = do
  poke (word stk 7) (base + 7)
  poke (word stk 6) (base + 6)
  poke (word stk 5) (base + 5)
  poke (word stk 4) (base + 4)
  poke (word stk 3) (base + 11)
  poke (word stk 2) (base + 10)
  poke (word stk 1) (base + 9)
  poke (word stk 0) (base + 8)
software_frame samd51 stk base = do
  poke (word stk 7) (base + 11)
  poke (word stk 6) (base + 10)
  poke (word stk 5) (base + 9)
  poke (word stk 4) (base + 8)
  poke (word stk 3) (base + 7)
  poke (word stk 2) (base + 6)
  poke (word stk 1) (base + 5)
  poke (word stk 0) (base + 4)

-- Where the saved registers go: below the end of the stack, moved down to eight bytes.
abbrev pub frame_address : Ptr → ℕ → Ptr
frame_address stack stack_size =
    let top = stack + 4 * (stack_size / 4) in
    (if bit_and top 4 == 0 then top else top - 4) - 4 * stack_basic_frame_size

unfoldable pub initialize_stack : Ptr → Ptr → ℕ → M Ptr
unfolding stack_paint software_frame
initialize_stack task stack stack_size = do
  os_assert (stack_size % 4 == 0)
  os_assert (leb stack_minimum_size stack_size)
  stack_paint stack (stack_size / 4)
  let stk = frame_address stack stack_size
  let base : ℕ = 0x1000
  handler ← load task (λ t. t.handler)
  params ← load task (λ t. t.params)
  poke (word stk 15) 0x01000000
  poke (word stk 14) (handler - handler % 2)
  finished ← get (λ s. s.task_finished)
  poke (word stk 13) finished
  poke (word stk 12) (base + 12)
  poke (word stk 11) (base + 3)
  poke (word stk 10) (base + 2)
  poke (word stk 9) (base + 1)
  poke (word stk 8) params
  arch ← get (λ s. s.arch)
  software_frame arch stk base
  poke stack stack_magic_word
  pure stk

-- An extended frame, saved by a task that used the floating point unit, is 16 words deeper.
unfoldable pub return_regs : Arch → Ptr → ℕ → Ptr
return_regs samd51 sp stack_kind = if stack_kind == 1 then sp + 32 + 64 else sp + 32
return_regs arch sp stack_kind = sp + 32

unfoldable pub osi_task_return_regs : Ptr → M Ptr
unfolding return_regs
osi_task_return_regs task = do
  sp ← load task (λ t. t.sp)
  stack_kind ← load task (λ t. t.stack_kind)
  arch ← get (λ s. s.arch)
  pure (return_regs arch sp stack_kind)

-- A write through `osi_task_stacked_return_tuple`: the status, then the value.
unfoldable pub set_stacked_return_tuple : Ptr → Tuple → M (Unit {0})
unfolding osi_task_return_regs
set_stacked_return_tuple task tuple = do
  regs ← osi_task_return_regs task
  poke (word regs 0) tuple.status
  poke (word regs 1) tuple.value

unfoldable pub osi_task_set_stacked_return : Ptr → ℕ → M ℕ
unfolding osi_task_return_regs
osi_task_set_stacked_return task v0 = do
  regs ← osi_task_return_regs task
  poke (word regs 0) v0
  pure v0

unfoldable pub osi_task_get_stacked_return : Ptr → M ℕ
unfolding osi_task_return_regs
osi_task_get_stacked_return task = do regs ← osi_task_return_regs task; peek (word regs 0)
