-- ===== src/Chain/Order.antt =====
-- What insertion and removal do to membership, length and order.
use arduino_osh.Base.{
  ℕ, suc, ◌≤◌, ◌≡◌, refl, inl, inr, Bool, true, false, ◌||◌, List, [], ◌∷◌, arith, ◌==◌, ltb,
  length, All, has, Distinct, Bool-cases, ==_refl, ltb→lt, ltb→le, ==→eq,
}
use arduino_osh.Types.{Ptr}
use arduino_osh.Chain.{erase, insert}

pub has-insert :
    (f : Ptr → Bool) (a t : Ptr) (xs : List Ptr) → has a (insert f t xs) ≡ ((a == t) || has a xs)
unfolding insert
has-insert f a t [] = refl
has-insert f a t (x ∷ xs) = ground (arith, has-insert f a t xs)

pub length-insert :
    (f : Ptr → Bool) (t : Ptr) (xs : List Ptr) → length (insert f t xs) ≡ suc (length xs)
unfolding insert
length-insert f t [] = refl
length-insert f t (x ∷ xs) = ground (arith, length-insert f t xs)

-- What is in the list without `t` is in the list.
pub has-erase : (a t : Ptr) (xs : List Ptr) → has a (erase t xs) ≡ true → has a xs ≡ true
unfolding erase
has-erase a t [] h = h
has-erase a t (x ∷ xs) h = ground (arith, has-erase a t xs)

pub not-has-erase : (a t : Ptr) (xs : List Ptr) → has a xs ≡ false → has a (erase t xs) ≡ false
unfolding erase
not-has-erase a t [] h = h
not-has-erase a t (x ∷ xs) h = ground (arith, not-has-erase a t xs)

pub has-erase_other :
    (a t : Ptr) (xs : List Ptr) → (a == t) ≡ false → has a xs ≡ true → has a (erase t xs) ≡ true
unfolding erase
has-erase_other a t [] other i = i
has-erase_other a t (x ∷ xs) other i = elim (Bool-cases (x == t)) [
  | inl e ↦
      let not_head : (a == x) ≡ false = rw (==→eq x t e) other in rw e (ground (arith, i, not_head))
  | inr n ↦ elim (Bool-cases (a == x)) [
    | inl h ↦ rw (n, h) refl
    | inr o ↦ let rest = has-erase_other a t xs other (ground (arith, i, o)) in rw (n, o) rest
  ]
]

pub has-erase_apart : (a t : Ptr) (xs : List Ptr) → (a == t) ≡ false → has a (erase t xs) ≡ has a xs
unfolding erase
has-erase_apart a t [] other = refl
has-erase_apart a t (x ∷ xs) other = elim (Bool-cases (x == t)) [
  | inl e ↦ let not_head : (a == x) ≡ false = rw (==→eq x t e) other in rw (e, not_head) refl
  | inr n ↦ rw (n, has-erase_apart a t xs other) refl
]

pub erase_of_not_has : (t : Ptr) (xs : List Ptr) → has t xs ≡ false → erase t xs ≡ xs
unfolding erase
erase_of_not_has t [] h = refl
erase_of_not_has t (x ∷ xs) h = ground (arith, erase_of_not_has t xs)

pub length-erase-le : (t : Ptr) (xs : List Ptr) → length (erase t xs) ≤ length xs
unfolding erase
length-erase-le t [] = omega arith
length-erase-le t (x ∷ xs) = ground (arith, length-erase-le t xs)

pub length-erase :
    (t : Ptr) (xs : List Ptr) → has t xs ≡ true → suc (length (erase t xs)) ≡ length xs
unfolding erase
length-erase t [] h = absurd (ground arith)
length-erase t (x ∷ xs) h = ground (arith, length-erase t xs)

module _ {ℓ} (P : Ptr → Type ℓ) where
  pub All-insert :
      (f : Ptr → Bool) (t : Ptr) (xs : List Ptr) → P t → All P xs → All P (insert f t xs)
  unfolding insert
  All-insert f t [] h hs = (h, hs)
  All-insert f t (x ∷ xs) h hs = elim (Bool-cases (f x)) [
    | inl e ↦ rw e (h, hs)
    | inr e ↦ rw e (hs.0, All-insert f t xs h hs.1)
  ]

  pub All-erase : (t : Ptr) (xs : List Ptr) → All P xs → All P (erase t xs)
  unfolding erase
  All-erase t [] hs = hs
  All-erase t (x ∷ xs) hs = elim (Bool-cases (x == t)) [
    | inl e ↦ rw e (hs.1)
    | inr e ↦ rw e (hs.0, All-erase t xs hs.1)
  ]

-- A property may change where it holds at every member.
pub All-map {ℓ κ} :
    (P : Ptr → Type ℓ) (Q : Ptr → Type κ) (xs : List Ptr)
    → ((a : Ptr) → has a xs ≡ true → P a → Q a)
    → All P xs
    → All Q xs
All-map P Q [] f hs = tt
All-map P Q (x ∷ xs) f hs =
    (f x (ground arith) hs.0, All-map P Q xs (λ a i. f a (ground arith)) hs.1)

-- No later task has a greater key.
abbrev pub Falling : (Ptr → ℕ) → List Ptr → Type 0
Falling key [] = Unit
Falling key (x ∷ xs) = All (λ y. key y ≤ key x) xs × Falling key xs

pub Falling-insert :
    (key : Ptr → ℕ) (t : Ptr) (xs : List Ptr)
    → Falling key xs
    → Falling key (insert (λ x. ltb (key x) (key t)) t xs)
unfolding insert
Falling-insert key t [] h = (tt, tt)
Falling-insert key t (x ∷ xs) h = elim (Bool-cases (ltb (key x) (key t))) [
  | inl e ↦
      rw e (
        (omega (arith, ltb→lt _ _ e), All-map _ _ xs (λ a i l. omega (arith, ltb→lt _ _ e)) h.0),
        h,
      )
  | inr e ↦ rw e (All-insert _ _ t xs (ltb→le _ _ e) h.0, Falling-insert key t xs h.1)
]

pub Falling-erase :
    (key : Ptr → ℕ) (t : Ptr) (xs : List Ptr) → Falling key xs → Falling key (erase t xs)
unfolding erase
Falling-erase key t [] h = h
Falling-erase key t (x ∷ xs) h = elim (Bool-cases (x == t)) [
  | inl e ↦ rw e (h.1)
  | inr e ↦ rw e (All-erase _ t xs h.0, Falling-erase key t xs h.1)
]

-- No earlier task has a greater key.
abbrev pub Rising : (Ptr → ℕ) → List Ptr → Type 0
Rising key [] = Unit
Rising key (x ∷ xs) = All (λ y. key x ≤ key y) xs × Rising key xs

pub Rising-insert :
    (key : Ptr → ℕ) (t : Ptr) (xs : List Ptr)
    → Rising key xs
    → Rising key (insert (λ x. ltb (key t) (key x)) t xs)
unfolding insert
Rising-insert key t [] h = (tt, tt)
Rising-insert key t (x ∷ xs) h = elim (Bool-cases (ltb (key t) (key x))) [
  | inl e ↦
      rw e (
        (omega (arith, ltb→lt _ _ e), All-map _ _ xs (λ a i l. omega (arith, ltb→lt _ _ e)) h.0),
        h,
      )
  | inr e ↦ rw e (All-insert _ _ t xs (ltb→le _ _ e) h.0, Rising-insert key t xs h.1)
]

pub Rising-erase :
    (key : Ptr → ℕ) (t : Ptr) (xs : List Ptr) → Rising key xs → Rising key (erase t xs)
unfolding erase
Rising-erase key t [] h = h
Rising-erase key t (x ∷ xs) h = elim (Bool-cases (x == t)) [
  | inl e ↦ rw e (h.1)
  | inr e ↦ rw e (All-erase _ t xs h.0, Rising-erase key t xs h.1)
]

-- What stands once is gone after its removal.
pub has-erase_self : (t : Ptr) (xs : List Ptr) → Distinct xs → has t (erase t xs) ≡ false
unfolding erase
has-erase_self t [] d = refl
has-erase_self t (x ∷ xs) d = elim (Bool-cases (x == t)) [
  | inl e ↦ rw e (rw (← ==→eq x t e) (d.0))
  | inr n ↦ rw n (ground (arith, n, has-erase_self t xs d.1))
]

pub has-differ : (a t : Ptr) (xs : List Ptr) → has a xs ≡ true → has t xs ≡ false → (a == t) ≡ false
has-differ a t xs i o = elim (Bool-cases (a == t)) [
  | inl e ↦ absurd (ground (arith, ==→eq a t e))
  | inr n ↦ n
]

pub Rising-frame :
    (key key' : Ptr → ℕ) (xs : List Ptr)
    → ((a : Ptr) → has a xs ≡ true → key' a ≡ key a)
    → Rising key xs
    → Rising key' xs
Rising-frame key key' [] same h = tt
Rising-frame key key' (x ∷ xs) same h = (
  All-map _ _ xs (λ a i l. rw (same a (ground (arith, i)), same x (rw ==_refl refl)) l) h.0,
  Rising-frame key key' xs (λ a i. same a (ground (arith, i))) h.1,
)
