-- ===== src/Stack/Writes.antt =====
-- Runs of `initialize_stack`'s parts, which write a range of the memory and nothing else.
use arduino_osh.Base.{
  ℕ, zero, suc, ◌+◌, ◌*◌, ◌%◌, ◌≤◌, ◌<◌, ◌≡◌, refl, ◌∙◌, ◌⊎◌, inl, inr, true, false, List, [], ◌∷◌,
  arith, ◌==◌, All, update, ==_refl,
}
use arduino_osh.Types.{Ptr, Arch, samd21, samd51, linux, Os, u32_mod, stack_magic_word, is_mcu}
use arduino_osh.Machine.{ok}
use arduino_osh.Stack.{word, stack_paint, software_frame}

abbrev pub Outside : ℕ → Ptr → Ptr → Type 0
Outside a low high = (a < low) ⊎ (high ≤ a)

-- The words at `stk` that a list of indices and values gives, the first of the list written first.
abbrev pub words : Ptr → List (ℕ × ℕ) → (ℕ → ℕ) → ℕ → ℕ
words stk [] memory = memory
words stk (p ∷ ps) memory = words stk ps (update memory (word stk p.0) (p.1 % u32_mod))

pub words-Outside :
    (stk : Ptr) (n : ℕ) (ps : List (ℕ × ℕ)) (memory : ℕ → ℕ) (a : ℕ)
    → All (λ p. p.0 < n) ps
    → Outside a stk (stk + 4 * n)
    → words stk ps memory a ≡ memory a
words-Outside stk n [] memory a b out = refl
words-Outside stk n (p ∷ ps) memory a b out = words-Outside stk n ps _ a b.1 out ∙ rw apart refl
  where
    apart : (word stk p.0 == a) ≡ false
    apart = ground (arith, b.0, out)

-- A word that is not written again.
pub words-other :
    (stk : Ptr) (i : ℕ) (ps : List (ℕ × ℕ)) (memory : ℕ → ℕ)
    → All (λ p. (p.0 == i) ≡ false) ps
    → words stk ps memory (word stk i) ≡ memory (word stk i)
words-other stk i [] memory b = refl
words-other stk i (p ∷ ps) memory b = words-other stk i ps _ b.1 ∙ rw apart refl
  where
    apart : (word stk p.0 == word stk i) ≡ false
    apart = ground (arith, b.0)

-- Painting a stack.
pub record Painted (s : Os) (stack : Ptr) (n : ℕ) : Type 0 where
  pub memory : ℕ → ℕ
  pub result : stack_paint stack n s ≡ ok tt (record s { memory = memory })
  pub outside : (a : ℕ) → Outside a stack (stack + 4 * n) → memory a ≡ s.memory a
  pub inside : (i : ℕ) → i < n → memory (word stack i) ≡ stack_magic_word

module _ (n : ℕ) (s : Os) (stack : Ptr)
    (rest : Painted
      (record s { memory = update s.memory stack stack_magic_word })
      (stack + 4)
      n) where
  paint_next : Painted s stack (suc n)
  unfolding stack_paint
  paint_next = record {
    memory = rest.memory;
    result = rest.result;
    outside = λ a o. rest.outside a (later a o) ∙ rw (apart a o) refl;
    inside = inside;
  }
    where
      later :
          (a : ℕ) → Outside a stack (stack + 4 * suc n) → Outside a (stack + 4) (stack + 4 + 4 * n)
      later a (inl b) = inl (omega arith)
      later a (inr b) = inr (omega arith)

      apart : (a : ℕ) → Outside a stack (stack + 4 * suc n) → (stack == a) ≡ false
      apart a o = ground (arith, o)

      inside : (i : ℕ) → i < suc n → rest.memory (word stack i) ≡ stack_magic_word
      inside zero l = rest.outside (word stack zero) (inl (omega arith)) ∙ rw first refl
        where
          first : (stack == word stack zero) ≡ true
          first = ground arith
      inside (suc i) l = rw next (rest.inside i (omega (arith, l)))
        where
          next : word stack (suc i) ≡ word (stack + 4) i
          next = omega arith

pub stack_paint-Painted : (n : ℕ) (s : Os) (stack : Ptr) → Painted s stack n
unfolding stack_paint
stack_paint-Painted zero s stack = record {
  memory = s.memory;
  result = refl;
  outside = λ a o. refl;
  inside = λ i l. absurd (omega arith);
}
stack_paint-Painted (suc n) s stack = paint_next n s stack (stack_paint-Painted n _ (stack + 4))

-- The words for R4 to R11.
pub record Framed (s : Os) (arch : Arch) (stk : Ptr) : Type 0 where
  pub memory : ℕ → ℕ
  pub result : software_frame arch stk 0x1000 s ≡ ok tt (record s { memory = memory })
  pub outside : (a : ℕ) → Outside a stk (stk + 32) → memory a ≡ s.memory a
  pub lowest : is_mcu arch ≡ true → (memory (word stk 0) == stack_magic_word) ≡ false

abbrev pub registers : Arch → List (ℕ × ℕ)
registers linux = []
registers samd21 =
    (7, 0x1007)
    ∷ (6, 0x1006)
    ∷ (5, 0x1005)
    ∷ (4, 0x1004)
    ∷ (3, 0x100B)
    ∷ (2, 0x100A)
    ∷ (1, 0x1009)
    ∷ (0, 0x1008)
    ∷ []
registers samd51 =
    (7, 0x100B)
    ∷ (6, 0x100A)
    ∷ (5, 0x1009)
    ∷ (4, 0x1008)
    ∷ (3, 0x1007)
    ∷ (2, 0x1006)
    ∷ (1, 0x1005)
    ∷ (0, 0x1004)
    ∷ []

registers-below : (arch : Arch) → All (λ p. p.0 < 8) (registers arch)
registers-below linux = tt
registers-below samd21 = (
  omega arith,
  (
    omega arith,
    (omega arith, (omega arith, (omega arith, (omega arith, (omega arith, (omega arith, tt)))))),
  ),
)
registers-below samd51 = (
  omega arith,
  (
    omega arith,
    (omega arith, (omega arith, (omega arith, (omega arith, (omega arith, (omega arith, tt)))))),
  ),
)

pub software_frame-Framed : (s : Os) (arch : Arch) (stk : Ptr) → Framed s arch stk
unfolding software_frame
software_frame-Framed s linux stk = record {
  memory = s.memory;
  result = refl;
  outside = λ a o. refl;
  lowest = λ m. absurd (cc);
}
software_frame-Framed s samd21 stk = record {
  memory = words stk (registers samd21) s.memory;
  result = refl;
  outside = λ a o. words-Outside stk 8 (registers samd21) s.memory a (registers-below samd21) o;
  lowest = λ m. rw ==_refl refl;
}
software_frame-Framed s samd51 stk = record {
  memory = words stk (registers samd51) s.memory;
  result = refl;
  outside = λ a o. words-Outside stk 8 (registers samd51) s.memory a (registers-below samd51) o;
  lowest = λ m. rw ==_refl refl;
}
