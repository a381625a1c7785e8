-- ===== src/Stack/Return.antt =====
-- The return value that a blocked task finds in its saved registers.
use arduino_osh.Base.{ℕ, ◌%◌, ◌≡◌, false, ◌==◌, update}
use arduino_osh.Types.{Ptr, null, Os, u32_mod}
use arduino_osh.Machine.{ok}
use arduino_osh.Stack.{word, return_regs, osi_task_return_regs, osi_task_set_stacked_return}

-- The return value of a task is written into its saved registers, and into nothing else.
pub stacked :
    (s : Os) (task : Ptr) (v : ℕ)
    → (task == null) ≡ false
    → (memory : ℕ → ℕ) × (osi_task_set_stacked_return task v s
        ≡ ok v (record s { memory = memory }))
unfolding osi_task_set_stacked_return osi_task_return_regs
stacked s task v live = (
  update s.memory (word (return_regs s.arch (s.task.sp task) (s.task.stack_kind task)) 0)
      (v % u32_mod),
  simp live,
)
