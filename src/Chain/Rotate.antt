-- ===== src/Chain/Rotate.antt =====
-- A list without repetitions, read from another place.
use arduino_osh.Base.{
  ◌≡◌, false, List, [], ◌∷◌, ◌++◌, arith, has, Distinct, has-append, append_assoc, append-nil,
}
use arduino_osh.Types.{Ptr}

Distinct-snoc : (x : Ptr) (ys : List Ptr) → has x ys ≡ false → Distinct ys → Distinct (ys ++ x ∷ [])
Distinct-snoc x [] out d = (out, tt)
Distinct-snoc x (y ∷ ys) out d = (apart, Distinct-snoc x ys (ground (arith, out)) d.1)
  where
    apart : has y (ys ++ x ∷ []) ≡ false
    apart = rw (has-append y ys (x ∷ [])) (ground (arith, d.0, out))

pub Distinct-rotate : (xs ys : List Ptr) → Distinct (xs ++ ys) → Distinct (ys ++ xs)
Distinct-rotate [] ys d = rw (append-nil ys) d
Distinct-rotate (x ∷ xs) ys d = rw (← append_assoc ys (x ∷ []) xs) (
    Distinct-rotate xs (ys ++ x ∷ [])
      (rw (← append_assoc xs ys (x ∷ [])) (Distinct-snoc x (xs ++ ys) d.0 d.1)))
