-- ===== src/Kernel/Answer.antt =====
-- The result that `osi_task_set_stacked_return` of src/os.c gives a task that has been switched away
-- from by `PendSV_Handler` of src/arch/m0.s.
use arduino_osh.Base.{
  ℕ, ◌-◌, ◌%◌, ◌≤◌, ◌<◌, ◌≡◌, refl, ap, ◌∙◌, false, List, arith, ◌==◌, update, ==_refl,
}
use arduino_osh.Types.{Ptr, null, Arch, Os, u32_mod}
use arduino_osh.Machine.{ok}
use arduino_osh.Stack.{
  word, return_regs, osi_task_return_regs, osi_task_set_stacked_return, osi_task_get_stacked_return,
}
use arduino_osh.Kernel.{Registers, pendsv_handler}
use arduino_osh.Kernel.Frames.{with_memory}
use arduino_osh.Kernel.Settled.{Pending, Fits}
use arduino_osh.Kernel.Switch.{pendsv_handler-Switched}

-- A result in the frame that the exception has saved at `psp`, and nowhere else.
pub record Answered (s : Os) (cpu : Registers) (v : ℕ) : Type 0 where
  pub after : Os
  pub switched : pendsv_handler cpu s ≡ ok tt after
  pub memory : ℕ → ℕ
  pub written : osi_task_set_stacked_return s.running v after ≡ ok v (with_memory after memory)
  pub r0 : memory cpu.psp ≡ v
  pub elsewhere : (a : ℕ) → (cpu.psp == a) ≡ false → memory a ≡ after.memory a
  pub read :
      osi_task_get_stacked_return s.running (with_memory after memory)
      ≡ ok v (with_memory after memory)

-- What the two functions do to a task whose saved stack pointer is 32 bytes below `psp`.
module _ (s : Os) (task psp : Ptr) (v : ℕ) (m0 : s.arch ≡ Arch.samd21)
    (live : (task == null) ≡ false) (deep : 32 ≤ psp) (below : s.task.sp task ≡ psp - 32) where
  frame_r0 : word (return_regs s.arch (s.task.sp task) (s.task.stack_kind task)) 0 ≡ psp
  unfolding return_regs
  frame_r0 = rw (m0, below) (omega (arith, deep))

  set_at_psp :
      osi_task_set_stacked_return task v s
      ≡ ok v (with_memory s (update s.memory psp (v % u32_mod)))
  unfolding osi_task_set_stacked_return osi_task_return_regs
  set_at_psp = simp live (ap (λ a. ok v (with_memory s (update s.memory a (v % u32_mod)))) frame_r0)

  get_at_psp : osi_task_get_stacked_return task s ≡ ok (s.memory psp) s
  unfolding osi_task_get_stacked_return osi_task_return_regs
  get_at_psp = simp live (ap (λ a. ok (s.memory a) s) frame_r0)

-- On a SAMD21, let a switch be under way, with the registers' place in the running task's stack and
-- over no stack's lowest word. Once the context switch is through, `osi_task_set_stacked_return` gives the task
-- that ran a 32-bit result. It is then in the word of R0 of the frame that the exception has saved,
-- which the processor restores, no other word has changed, and `osi_task_get_stacked_return` reads it.
pub set_stacked_return-pendsv_handler :
    (mutexes : List Ptr) (s : Os) (cpu : Registers) (run waiting : List Ptr) (v : ℕ)
    → Pending mutexes s run waiting
    → Fits s cpu
    → s.arch ≡ Arch.samd21
    → v < u32_mod
    → Answered s cpu v
set_stacked_return-pendsv_handler mutexes s cpu run waiting v p fits m0 small =
    let sw = pendsv_handler-Switched mutexes s cpu run waiting p fits in
    let below : sw.after.task.sp s.running ≡ cpu.psp - 32 =
      ap (λ g. g s.running) sw.saved_sp ∙ rw ==_refl refl in
    let whole : v % u32_mod ≡ v = omega (arith, small) in
    let memory = update sw.after.memory cpu.psp (v % u32_mod) in
    let held : memory cpu.psp ≡ v = rw ==_refl whole in
    record {
      after = sw.after;
      switched = sw.result;
      memory = memory;
      written = set_at_psp sw.after s.running cpu.psp v (sw.arch ∙ m0) p.live fits.deep below;
      r0 = held;
      elsewhere = λ a n. rw n refl;
      read =
          get_at_psp (with_memory sw.after memory) s.running cpu.psp v (sw.arch ∙ m0) p.live
            fits.deep below
          ∙ ap (λ w. ok w (with_memory sw.after memory)) held;
    }
