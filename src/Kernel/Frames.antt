-- ===== src/Kernel/Frames.antt =====
-- What the handlers of src/arch/m0.s write to the stack of the task that runs, and the check of it.
use arduino_osh.Base.{
  ℕ, ◌+◌, ◌-◌, ◌%◌, ◌≤◌, ◌<◌, ◌≡◌, ◌≢◌, refl, ◌⊎◌, inl, inr, true, false, List, [], ◌∷◌, ◌∙◌,
  ==_refl, arith, ◌==◌, ltb, length,
}
use arduino_osh.Types.{Ptr, null, Os, Tuple, stack_magic_word, u32_mod}
use arduino_osh.Machine.{ok, rounds}
use arduino_osh.Chain.{Chain}
use arduino_osh.RunQueue.Check.{Traces, osi_priority_check-Traces}
use arduino_osh.Stack.{word}
use arduino_osh.Stack.Writes.{words, words-other}
use arduino_osh.Tasks.{osi_stack_check}
use arduino_osh.Kernel.{Registers, save_registers, store_return}

abbrev pub with_memory : Os → (ℕ → ℕ) → Os
with_memory s memory = record s { memory = memory }

-- The eight registers, R8 to R11 below R4 to R7, from `sp` on.
pub record Holds (memory : ℕ → ℕ) (sp : Ptr) (cpu : Registers) : Type 0 where
  pub r4 : memory (word sp 4) ≡ cpu.r 4 % u32_mod
  pub r5 : memory (word sp 5) ≡ cpu.r 5 % u32_mod
  pub r6 : memory (word sp 6) ≡ cpu.r 6 % u32_mod
  pub r7 : memory (word sp 7) ≡ cpu.r 7 % u32_mod
  pub r8 : memory (word sp 0) ≡ cpu.r 8 % u32_mod
  pub r9 : memory (word sp 1) ≡ cpu.r 9 % u32_mod
  pub r10 : memory (word sp 2) ≡ cpu.r 10 % u32_mod
  pub r11 : memory (word sp 3) ≡ cpu.r 11 % u32_mod

saved_words-Holds :
    (memory : ℕ → ℕ) (sp : Ptr) (cpu : Registers)
    → Holds
        (words sp
          ((4, cpu.r 4)
            ∷ (5, cpu.r 5)
            ∷ (6, cpu.r 6)
            ∷ (7, cpu.r 7)
            ∷ (0, cpu.r 8)
            ∷ (1, cpu.r 9)
            ∷ (2, cpu.r 10)
            ∷ (3, cpu.r 11)
            ∷ [])
          memory)
        sp
        cpu
saved_words-Holds memory sp cpu = record {
  r4 =
      words-other sp 4
        ((5, cpu.r 5)
          ∷ (6, cpu.r 6)
          ∷ (7, cpu.r 7)
          ∷ (0, cpu.r 8)
          ∷ (1, cpu.r 9)
          ∷ (2, cpu.r 10)
          ∷ (3, cpu.r 11)
          ∷ [])
        (words sp ((4, cpu.r 4) ∷ []) memory)
        (refl, (refl, (refl, (refl, (refl, (refl, (refl, tt)))))))
      ∙ rw ==_refl refl;
  r5 =
      words-other sp 5
        ((6, cpu.r 6)
          ∷ (7, cpu.r 7)
          ∷ (0, cpu.r 8)
          ∷ (1, cpu.r 9)
          ∷ (2, cpu.r 10)
          ∷ (3, cpu.r 11)
          ∷ [])
        (words sp ((4, cpu.r 4) ∷ (5, cpu.r 5) ∷ []) memory)
        (refl, (refl, (refl, (refl, (refl, (refl, tt))))))
      ∙ rw ==_refl refl;
  r6 =
      words-other sp 6
        ((7, cpu.r 7) ∷ (0, cpu.r 8) ∷ (1, cpu.r 9) ∷ (2, cpu.r 10) ∷ (3, cpu.r 11) ∷ [])
        (words sp ((4, cpu.r 4) ∷ (5, cpu.r 5) ∷ (6, cpu.r 6) ∷ []) memory)
        (refl, (refl, (refl, (refl, (refl, tt)))))
      ∙ rw ==_refl refl;
  r7 =
      words-other sp 7 ((0, cpu.r 8) ∷ (1, cpu.r 9) ∷ (2, cpu.r 10) ∷ (3, cpu.r 11) ∷ [])
        (words sp ((4, cpu.r 4) ∷ (5, cpu.r 5) ∷ (6, cpu.r 6) ∷ (7, cpu.r 7) ∷ []) memory)
        (refl, (refl, (refl, (refl, tt))))
      ∙ rw ==_refl refl;
  r8 =
      words-other sp 0 ((1, cpu.r 9) ∷ (2, cpu.r 10) ∷ (3, cpu.r 11) ∷ [])
        (words sp ((4, cpu.r 4) ∷ (5, cpu.r 5) ∷ (6, cpu.r 6) ∷ (7, cpu.r 7) ∷ (0, cpu.r 8) ∷ [])
          memory)
        (refl, (refl, (refl, tt)))
      ∙ rw ==_refl refl;
  r9 =
      words-other sp 1 ((2, cpu.r 10) ∷ (3, cpu.r 11) ∷ [])
        (words sp
          ((4, cpu.r 4)
            ∷ (5, cpu.r 5)
            ∷ (6, cpu.r 6)
            ∷ (7, cpu.r 7)
            ∷ (0, cpu.r 8)
            ∷ (1, cpu.r 9)
            ∷ [])
          memory)
        (refl, (refl, tt))
      ∙ rw ==_refl refl;
  r10 =
      words-other sp 2 ((3, cpu.r 11) ∷ [])
        (words sp
          ((4, cpu.r 4)
            ∷ (5, cpu.r 5)
            ∷ (6, cpu.r 6)
            ∷ (7, cpu.r 7)
            ∷ (0, cpu.r 8)
            ∷ (1, cpu.r 9)
            ∷ (2, cpu.r 10)
            ∷ [])
          memory)
        (refl, tt)
      ∙ rw ==_refl refl;
  r11 = rw ==_refl refl;
}

pub record Saved (s : Os) (cpu : Registers) : Type 0 where
  pub memory : ℕ → ℕ
  pub result : save_registers cpu s ≡ ok tt (with_memory s memory)
  pub same : (a : ℕ) → (a + 32 < cpu.psp) ⊎ (cpu.psp ≤ a) → memory a ≡ s.memory a
  pub holds : Holds memory (cpu.psp - 32) cpu

pub frame_apart :
    (psp a i : ℕ) → 32 ≤ psp → i < 8 → (a + 32 < psp) ⊎ (psp ≤ a) → (word (psp - 32) i == a) ≡ false
frame_apart psp a i deep small (inl low) =
    let differ : word (psp - 32) i ≢ a = λ e. omega (arith, deep, small, low, e) in
    ground (arith, differ)
frame_apart psp a i deep small (inr high) =
    let differ : word (psp - 32) i ≢ a = λ e. omega (arith, deep, small, high, e) in
    ground (arith, differ)

pub save_registers-Saved : (s : Os) (cpu : Registers) → 32 ≤ cpu.psp → Saved s cpu
unfolding save_registers
save_registers-Saved s cpu deep = record {
  memory =
      words (cpu.psp - 32)
        ((4, cpu.r 4)
          ∷ (5, cpu.r 5)
          ∷ (6, cpu.r 6)
          ∷ (7, cpu.r 7)
          ∷ (0, cpu.r 8)
          ∷ (1, cpu.r 9)
          ∷ (2, cpu.r 10)
          ∷ (3, cpu.r 11)
          ∷ [])
        s.memory;
  result = refl;
  holds = saved_words-Holds s.memory (cpu.psp - 32) cpu;
  same = λ a out.
      let off : (i : ℕ) → i < 8 → (word (cpu.psp - 32) i == a) ≡ false =
        λ i small. frame_apart (cpu.psp) a i deep small out in
      simp (
        off 0 (omega arith),
        off 1 (omega arith),
        off 2 (omega arith),
        off 3 (omega arith),
        off 4 (omega arith),
        off 5 (omega arith),
        off 6 (omega arith),
        off 7 (omega arith),
      );
}

pub return_apart :
    (psp a i : ℕ) → i < 8 → (a + 32 < psp) ⊎ (psp + 32 ≤ a) → (word psp i == a) ≡ false
return_apart psp a i small (inl low) =
    let differ : word psp i ≢ a = λ e. omega (arith, small, low, e) in ground (arith, differ)
return_apart psp a i small (inr high) =
    let differ : word psp i ≢ a = λ e. omega (arith, small, high, e) in ground (arith, differ)

pub record Returned (s : Os) (cpu : Registers) (value : Tuple) : Type 0 where
  pub memory : ℕ → ℕ
  pub result : store_return cpu value s ≡ ok tt (with_memory s memory)
  pub same : (a : ℕ) → (a + 32 < cpu.psp) ⊎ (cpu.psp + 32 ≤ a) → memory a ≡ s.memory a
  pub answer : memory cpu.psp ≡ value.status % u32_mod

pub store_return-Returned : (s : Os) (cpu : Registers) (value : Tuple) → Returned s cpu value
unfolding store_return
store_return-Returned s cpu value = record {
  memory = _;
  result = refl;
  same = λ a out.
      let off : (i : ℕ) → i < 8 → (word (cpu.psp) i == a) ≡ false =
        λ i small. return_apart (cpu.psp) a i small out in
      simp (off 0 (omega arith), off 1 (omega arith), off 2 (omega arith));
  answer =
      let one : (word (cpu.psp) 1 == cpu.psp) ≡ false = ground arith in
      let two : (word (cpu.psp) 2 == cpu.psp) ≡ false = ground arith in
      let own : (word (cpu.psp) 0 == cpu.psp) ≡ true = ground arith in simp (one, two, own);
}

pub stack_check-Traces :
    (s : Os) (run : List Ptr)
    → (s.running == null) ≡ false
    → s.task.stack s.running ≤ s.task.sp s.running
    → s.memory (s.task.stack s.running) ≡ stack_magic_word
    → length run < rounds
    → Chain s.task.nrp s.runqueue run
    → Traces s osi_stack_check
unfolding osi_stack_check
stack_check-Traces s run live bounded magic fuel c =
    let check = osi_priority_check-Traces s s.scheduled run fuel c in
    let over : ltb (s.task.sp s.running) (s.task.stack s.running) ≡ false =
      ground (arith, bounded) in
    record { trace = check.trace; result = simp (live, over, magic, check.result) }
