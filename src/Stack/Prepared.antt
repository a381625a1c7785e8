-- ===== src/Stack/Prepared.antt =====
-- What `initialize_stack` leaves on a new stack.
use Prim.Native.Nat.{bit_and}
use arduino_osh.Base.{
  ℕ, ◌+◌, ◌-◌, ◌*◌, ◌/◌, ◌%◌, ◌≤◌, ◌<◌, ◌≡◌, refl, ◌∙◌, inl, inr, true, false, List, [], ◌∷◌, arith,
  ◌==◌, leb, All, update, Bool-cases, ==_refl,
}
use arduino_osh.Types.{Ptr, null, Os, u32_mod, stack_magic_word, stack_minimum_size, is_mcu}
use arduino_osh.Machine.{ok}
use arduino_osh.Stack.{word, frame_address, initialize_stack}
use arduino_osh.Stack.Writes.{
  Outside, words, words-Outside, words-other, stack_paint-Painted, software_frame-Framed,
}

-- The stack is painted up to a frame for the handler, which lies in the stack, over its lowest word;
-- nothing else is written.
pub record Prepared (s : Os) (task stack : Ptr) (stack_size : ℕ) : Type 0 where
  pub memory : ℕ → ℕ
  pub result :
      initialize_stack task stack stack_size s
      ≡ ok (frame_address stack stack_size) (record s { memory = memory })
  pub above : stack + 4 ≤ frame_address stack stack_size
  pub room : frame_address stack stack_size + 64 ≤ stack + stack_size
  pub outside : (a : ℕ) → Outside a stack (stack + stack_size) → memory a ≡ s.memory a
  pub magic : memory stack ≡ stack_magic_word
  pub painted :
      (i : ℕ)
      → word stack i < frame_address stack stack_size
      → memory (word stack i) ≡ stack_magic_word
  pub lowest :
      is_mcu s.arch ≡ true
      → (memory (word (frame_address stack stack_size) 0) == stack_magic_word) ≡ false
  pub r0 : memory (word (frame_address stack stack_size) 8) ≡ s.task.params task
  pub lr : memory (word (frame_address stack stack_size) 13) ≡ s.task_finished
  pub pc :
      memory (word (frame_address stack stack_size) 14)
      ≡ s.task.handler task - s.task.handler task % 2
  pub psr : memory (word (frame_address stack stack_size) 15) ≡ 0x01000000

abbrev pub IsStackSize : ℕ → Type 0
IsStackSize n = (n % 4 ≡ 0) × (stack_minimum_size ≤ n)

-- `0x04` tests one bit, so that at most one word is left out.
frame_address-bounds :
    (stack : Ptr) (n : ℕ)
    → IsStackSize n
    → (stack + 4 ≤ frame_address stack n) × (frame_address stack n + 64 ≤ stack + n)
frame_address-bounds stack n (whole, least) =
    elim (Bool-cases (bit_and (stack + 4 * (n / 4)) 4 == 0)) [
      | inl e ↦ rw e (omega arith, omega arith)
      | inr e ↦ rw e (omega arith, omega arith)
    ]

-- The words of the frame for the registers that the processor restores, highest first.
abbrev low : ℕ → List (ℕ × ℕ)
low params = (12, 0x100C) ∷ (11, 0x1003) ∷ (10, 0x1002) ∷ (9, 0x1001) ∷ (8, params) ∷ []

abbrev saved : ℕ → ℕ → ℕ → List (ℕ × ℕ)
saved handler finished params =
    (15, 0x01000000) ∷ (14, handler - handler % 2) ∷ (13, finished) ∷ low params

saved-below : (handler finished params : ℕ) → All (λ p. p.0 < 16) (saved handler finished params)
saved-below handler finished params = (
  omega arith,
  (
    omega arith,
    (omega arith, (omega arith, (omega arith, (omega arith, (omega arith, (omega arith, tt)))))),
  ),
)

-- What the words hold after all of them are written.
saved-r0 :
    (stk handler finished params : ℕ) (memory : ℕ → ℕ)
    → words stk (saved handler finished params) memory (word stk 8) ≡ params % u32_mod
saved-r0 stk handler finished params memory = rw ==_refl refl

saved-lr :
    (stk handler finished params : ℕ) (memory : ℕ → ℕ)
    → words stk (saved handler finished params) memory (word stk 13) ≡ finished % u32_mod
saved-lr stk handler finished params memory =
    words-other stk 13 (low params)
      (words stk ((15, 0x01000000) ∷ (14, handler - handler % 2) ∷ (13, finished) ∷ []) memory)
      (refl, (refl, (refl, (refl, (refl, tt)))))
    ∙ rw ==_refl refl

saved-pc :
    (stk handler finished params : ℕ) (memory : ℕ → ℕ)
    → words stk (saved handler finished params) memory (word stk 14)
      ≡ (handler - handler % 2) % u32_mod
saved-pc stk handler finished params memory =
    words-other stk 14 ((13, finished) ∷ low params)
      (words stk ((15, 0x01000000) ∷ (14, handler - handler % 2) ∷ []) memory)
      (refl, (refl, (refl, (refl, (refl, (refl, tt))))))
    ∙ rw ==_refl refl

saved-psr :
    (stk handler finished params : ℕ) (memory : ℕ → ℕ)
    → words stk (saved handler finished params) memory (word stk 15) ≡ 0x01000000
saved-psr stk handler finished params memory =
    words-other stk 15 ((14, handler - handler % 2) ∷ (13, finished) ∷ low params)
      (words stk ((15, 0x01000000) ∷ []) memory)
      (refl, (refl, (refl, (refl, (refl, (refl, (refl, tt)))))))
    ∙ rw ==_refl refl

module _ (s : Os) (task stack : Ptr) (stack_size : ℕ) (live : (task == null) ≡ false)
    (size : IsStackSize stack_size) (handler_fits : s.task.handler task < u32_mod)
    (params_fits : s.task.params task < u32_mod) (finished_fits : s.task_finished < u32_mod) where
  -- On a stack that is made of words and of the least size, `initialize_stack` returns, and writes
  -- nothing outside of the stack. The frame lies in the stack, over its lowest word, and starts the
  -- handler with its parameter, to return to `task_finished`. The words below it are magic.
  pub initialize_stack-Prepared : Prepared s task stack stack_size
  unfolding initialize_stack
  initialize_stack-Prepared =
      let stk = frame_address stack stack_size in
      let painted = stack_paint-Painted (stack_size / 4) s stack in
      let handler = s.task.handler task in
      let upper = saved handler s.task_finished (s.task.params task) in
      let written = words stk upper painted.memory in
      let framed = software_frame-Framed (record s { memory = written }) s.arch stk in
      let bounds = frame_address-bounds stack stack_size size in
      let whole : (stack_size % 4 == 0) ≡ true = rw (size.0) refl in
      let enough : leb stack_minimum_size stack_size ≡ true = ground (arith, size.1) in
      let memory = update framed.memory stack stack_magic_word in
      let frame : (a : ℕ) → (stack == a) ≡ false → memory a ≡ framed.memory a = λ a n. rw n refl in
      let high : (i : ℕ) → 8 ≤ i → memory (word stk i) ≡ written (word stk i) = λ i l.
        frame (word stk i) (ground (arith, l, bounds.0))
        ∙ framed.outside (word stk i) (inr (omega arith)) in
      record {
        memory = memory;
        result = simp (whole, enough, live, painted.result, framed.result);
        above = bounds.0;
        room = bounds.1;
        outside = λ a o.
            frame a (ground (arith, o, size.1))
            ∙ framed.outside a (ground (arith, o, bounds))
            ∙ words-Outside stk 16 upper painted.memory a
                (saved-below handler s.task_finished (s.task.params task))
                (ground (arith, o, bounds))
            ∙ painted.outside a (ground (arith, o));
        magic = rw ==_refl refl;
        painted = λ i l. elim (Bool-cases (stack == word stack i)) [
          | inl e ↦ rw e refl
          | inr n ↦
              frame (word stack i) n
              ∙ framed.outside (word stack i) (inl l)
              ∙ words-Outside stk 16 upper painted.memory (word stack i)
                  (saved-below handler s.task_finished (s.task.params task)) (inl l)
              ∙ painted.inside i (omega (arith, l, bounds))
        ];
        lowest = λ m. rw (frame (word stk 0) (ground (arith, bounds))) (framed.lowest m);
        r0 = high 8 (omega arith) ∙ saved-r0 stk handler _ _ painted.memory ∙ omega arith;
        lr = high 13 (omega arith) ∙ saved-lr stk handler _ _ painted.memory ∙ omega arith;
        pc = high 14 (omega arith) ∙ saved-pc stk handler _ _ painted.memory ∙ omega arith;
        psr = high 15 (omega arith) ∙ saved-psr stk handler _ _ painted.memory;
      }
