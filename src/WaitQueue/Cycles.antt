-- ===== src/WaitQueue/Cycles.antt =====
-- `has_cycles` of src/os.c answers no on a list that ends.
use arduino_osh.Base.{
  ℕ, zero, suc, ◌≤◌, ◌<◌, ◌≡◌, refl, ap, inl, inr, false, List, [], ◌∷◌, arith, ◌==◌, length,
  Bool-cases, ==→eq,
}
use arduino_osh.Types.{Ptr, null, Os}
use arduino_osh.Machine.{ok, rounds}
use arduino_osh.Chain.{Chain, Chain-unique}
use arduino_osh.WaitQueue.{has_cycles, has_cycles_loop}

-- Two walks with different distances to the end are at different tasks.
apart :
    (next : Ptr → Ptr) (p q : Ptr) (xs ys : List Ptr)
    → Chain next p xs
    → Chain next q ys
    → length ys < length xs
    → (p == q) ≡ false
apart next p q xs ys c d less = elim (Bool-cases (p == q)) [
  | inl e ↦
      let same = Chain-unique next q xs ys (rw (← ==→eq p q e) c) d in
      absurd (omega (arith, ap length same))
  | inr n ↦ n
]

-- The fast walk is at `y`, in front of `ys`, and the slow one no nearer to the end.
has_cycles_loop-false :
    (k : ℕ) (s : Os) (x y : Ptr) (xs ys : List Ptr)
    → length ys < k
    → length ys ≤ length xs
    → (x == null) ≡ false
    → (y == null) ≡ false
    → Chain s.task.nrp (s.task.nrp x) xs
    → Chain s.task.nrp (s.task.nrp y) ys
    → has_cycles_loop k x y s ≡ ok false s
unfolding has_cycles_loop
has_cycles_loop-false zero s x y xs ys fuel le lx ly c d = absurd (omega arith)
has_cycles_loop-false (suc k) s x y xs [] fuel le lx ly c d = simp (lx, ly, d)
has_cycles_loop-false (suc k) s x y xs (z ∷ []) fuel le lx ly c (e, lz, d) =
    elim (Bool-cases (s.task.nrp x == null)) [
      | inl end ↦ simp (lx, ly, e, lz, d, end)
      | inr more ↦ simp (lx, ly, e, lz, d, more)
    ]
has_cycles_loop-false (suc k) s x y [] (z ∷ w ∷ ys) fuel le lx ly c d = absurd (omega arith)
has_cycles_loop-false (suc k) s x y (v ∷ xs) (z ∷ w ∷ ys) fuel le lx ly (e, lv, c) (f, lz, d) =
    let (g, lw, d') = d in
    let far = apart s.task.nrp v w (v ∷ xs) (w ∷ ys) (refl, lv, c) (refl, lw, d') (omega arith) in
    simp (lx, ly, e, f, lz, g, lw, lv, far)
      (has_cycles_loop-false k s v w xs ys (omega arith) (omega arith) lv lw c d')

-- On a list that ends, and is shorter than the bound on rounds, there is no cycle.
pub has_cycles-false :
    (s : Os) (head : Ptr) (xs : List Ptr)
    → length xs < rounds
    → Chain s.task.nrp head xs
    → has_cycles head s ≡ ok false s
unfolding has_cycles
has_cycles-false s head [] fuel c = simp c
has_cycles-false s head (x ∷ xs) fuel (e, live, c) =
    simp (e, live)
      (has_cycles_loop-false rounds s x x xs xs (omega arith) (omega arith) live live c c)
