-- ===== src/Stack/Highwater.antt =====
-- What `os_task_highwater` finds on a stack that `initialize_stack` has just prepared.
use Prim.Native.Nat.{bit_and}
use arduino_osh.Base.{
  ℕ, zero, suc, ◌+◌, ◌-◌, ◌*◌, ◌/◌, ◌<◌, ◌≡◌, inl, inr, true, false, arith, ◌==◌, update,
  Bool-cases, subst, sym,
}
use arduino_osh.Types.{Ptr, null, Os, u32_mod, stack_magic_word, is_mcu}
use arduino_osh.Machine.{ok, ◌>>◌}
use arduino_osh.Stack.{
  word, frame_address, initialize_stack, stack_highwater, stack_highwater_loop, os_task_highwater,
}
use arduino_osh.Stack.Prepared.{initialize_stack-Prepared, IsStackSize}

-- The loop counts the magic words up to the first other word.
stack_highwater_loop-count :
    (k n i : ℕ) (s : Os) (stack : Ptr)
    → k < n
    → ((j : ℕ) → j < k → s.memory (word stack j) ≡ stack_magic_word)
    → (s.memory (word stack k) == stack_magic_word) ≡ false
    → stack_highwater_loop stack i n s ≡ ok (i + k) s
unfolding stack_highwater_loop
stack_highwater_loop-count k zero i s stack l magic other = absurd (omega arith)
stack_highwater_loop-count zero (suc n) i s stack l magic other =
    let here : (s.memory stack == stack_magic_word) ≡ false =
      subst (λ a. (s.memory a == stack_magic_word) ≡ false) (omega arith) other in
    let count : i + 0 ≡ i = omega arith in simp (here, count)
stack_highwater_loop-count (suc k) (suc n) i s stack l magic other =
    let here : s.memory stack ≡ stack_magic_word =
      subst (λ a. s.memory a ≡ stack_magic_word) (omega arith) (magic 0 (omega arith)) in
    let rest =
      stack_highwater_loop-count k n (i + 1) s (stack + 4) (omega arith)
        (λ j m.
          subst (λ a. s.memory a ≡ stack_magic_word) (omega arith) (magic (suc j) (omega arith)))
        (subst (λ a. (s.memory a == stack_magic_word) ≡ false) (omega arith) other) in
    let count : i + 1 + k ≡ i + suc k = omega arith in simp here (rw (sym count) rest)

frame-index :
    (stack : Ptr) (n : ℕ)
    → IsStackSize n
    → (k : ℕ) × (word stack k ≡ frame_address stack n) × (k < n)
frame-index stack n (whole, least) = elim (Bool-cases (bit_and (stack + 4 * (n / 4)) 4 == 0)) [
  | inl e ↦ rw e (n / 4 - 16, omega arith, omega arith)
  | inr e ↦ rw e (n / 4 - 17, omega arith, omega arith)
]

-- The run that prepares a task's stack and then takes its high-water mark.
pub record Marked (s : Os) (task : Ptr) : Type 0 where
  pub mark : ℕ
  pub memory : ℕ → ℕ
  pub frame :
      word (s.task.stack task) mark ≡ frame_address (s.task.stack task) (s.task.stack_size task)
  pub result :
      (initialize_stack task (s.task.stack task) (s.task.stack_size task) >> os_task_highwater task)
        s
      ≡ ok mark (record s {
        memory = memory;
        task = record (s.task) { highwater = update s.task.highwater task mark };
      })

-- On the two microcontrollers, the high-water mark of a new stack is the number of the words below its
-- frame: the run that prepares a task's stack and then takes the mark returns it, and stores it.
pub os_task_highwater-initialize_stack :
    (s : Os) (task : Ptr)
    → (task == null) ≡ false
    → is_mcu s.arch ≡ true
    → IsStackSize (s.task.stack_size task)
    → s.task.handler task < u32_mod
    → s.task.params task < u32_mod
    → s.task_finished < u32_mod
    → Marked s task
unfolding os_task_highwater stack_highwater
os_task_highwater-initialize_stack s task live mcu size handler params finished =
    let stack = s.task.stack task in
    let bytes = s.task.stack_size task in
    let p = initialize_stack-Prepared s task stack bytes live size handler params finished in
    let (n, frame, fits) = frame-index stack bytes size in
    let same : word (frame_address stack bytes) 0 ≡ word stack n = omega (arith, frame) in
    let count =
      stack_highwater_loop-count n bytes 0 (record s { memory = p.memory }) stack fits
        (λ j l. p.painted j (rw (sym frame) (omega arith)))
        (subst (λ a. (p.memory a == stack_magic_word) ≡ false) same (p.lowest mcu)) in
    let none : 0 + n ≡ n = omega arith in
    record {
      mark = n;
      memory = p.memory;
      frame = frame;
      result = simp (p.result, live, count, none);
    }
