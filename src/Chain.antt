-- ===== src/Chain.antt =====
-- Linked lists of tasks: what a pointer field stands for, as a list of addresses.
pub mod Order
pub mod Rotate
use arduino_osh.Base.{
  ℕ, zero, suc, ◌+◌, ◌≤◌, ◌<◌, ◌≡◌, refl, sym, ap, ◌∙◌, ◌⊎◌, inl, inr, Bool, true, false, ◌||◌,
  List, [], ◌∷◌, arith, ◌==◌, ltb, if◌then◌else◌, length, update, has, Distinct, Bool-cases, ==→eq,
  ==_refl,
}
use arduino_osh.Types.{Ptr, null}

-- From `p` the field `next` leads through `xs` to `NULL`.
abbrev pub Chain : (Ptr → Ptr) → Ptr → List Ptr → Type 0
Chain next p [] = p ≡ null
Chain next p (x ∷ xs) = (p ≡ x) × ((x == null) ≡ false) × Chain next (next x) xs

-- The list without the first `t`.
unfoldable pub erase : Ptr → List Ptr → List Ptr
erase t [] = []
erase t (x ∷ xs) = if x == t then xs else x ∷ erase t xs

-- The list with `t` in front of the first element that `behind` says comes after it.
unfoldable pub insert : (Ptr → Bool) → Ptr → List Ptr → List Ptr
insert behind t [] = t ∷ []
insert behind t (x ∷ xs) = if behind x then t ∷ x ∷ xs else x ∷ insert behind t xs

pub Chain-frame :
    {next next' : Ptr → Ptr} (p : Ptr) (xs : List Ptr)
    → Chain next p xs
    → ((a : Ptr) → has a xs ≡ true → next' a ≡ next a)
    → Chain next' p xs
Chain-frame p [] h same = h
Chain-frame {next} {next'} p (x ∷ xs) (e, live, rest) same = (
  e,
  live,
  rw (same x (rw ==_refl refl)) (Chain-frame (next x) xs rest (λ a i. same a (ground arith))),
)

pub Chain-update :
    (next : Ptr → Ptr) (p a v : Ptr) (xs : List Ptr)
    → Chain next p xs
    → has a xs ≡ false
    → Chain (update next a v) p xs
Chain-update next p a v xs h out = Chain-frame p xs h (λ b i. elim (Bool-cases (a == b)) [
  | inl e ↦ absurd (different b (==→eq a b e) i)
  | inr n ↦ rw n
])
  where
    different : (b : Ptr) → a ≡ b → has b xs ≡ true → ⊥
    different b e i = cc (sym (ap (λ c. has c xs) e) ∙ sym refl)

-- A field leads along one list only.
pub Chain-unique :
    (next : Ptr → Ptr) (p : Ptr) (xs ys : List Ptr) → Chain next p xs → Chain next p ys → xs ≡ ys
Chain-unique next p [] [] h k = refl
Chain-unique next p [] (y ∷ ys) h k = absurd (ground arith)
Chain-unique next p (x ∷ xs) [] h k = absurd (ground arith)
Chain-unique next p (x ∷ xs) (y ∷ ys) (e, l, h) (f, m, k) =
    let same : x ≡ y = sym e ∙ f in cc (Chain-unique next (next x) xs ys h (rw same k))

suffix :
    {next : Ptr → Ptr} (a p : Ptr) (xs : List Ptr)
    → Chain next p xs
    → has a xs ≡ true
    → (ys : List Ptr) × Chain next a ys × (length ys ≤ length xs)
suffix a p [] h i = absurd (cc)
suffix {next} a p (x ∷ xs) h i = elim (Bool-cases (a == x)) [
  | inl e ↦ (x ∷ xs, (==→eq a x e, h.1, h.2), omega arith)
  | inr n ↦ let (ys, c, l) = suffix a (next x) xs h.2 (ground arith) in (ys, c, omega arith)
]

-- No task stands twice in a list that ends.
pub Chain-Distinct : (next : Ptr → Ptr) (p : Ptr) (xs : List Ptr) → Chain next p xs → Distinct xs
Chain-Distinct next p [] h = tt
Chain-Distinct next p (x ∷ xs) h = elim (Bool-cases (has x xs)) [
  | inl i ↦
      let (ys, c, l) = suffix x (next x) xs h.2 i in
      absurd (omega (arith, ap length (Chain-unique next x ys (x ∷ xs) c (refl, h.1, h.2))))
  | inr o ↦ (o, Chain-Distinct next (next x) xs h.2)
]
