-- ===== src/RunQueue/Length.antt =====
-- `runqueue_length` of src/os.c.
use arduino_osh.Base.{ℕ, zero, suc, ◌+◌, ◌%◌, ◌<◌, ◌≡◌, List, [], ◌∷◌, arith, length, ◌∙◌, ap}
use arduino_osh.Types.{Ptr, Os, u32_mod}
use arduino_osh.Machine.{ok, rounds, rounds_lem}
use arduino_osh.Chain.{Chain}
use arduino_osh.RunQueue.{runqueue_length, runqueue_length_loop}

loop_lem :
    (k : ℕ) (s : Os) (l : ℕ) (head : Ptr) (xs : List Ptr)
    → length xs < k
    → l + length xs < 4294967296
    → Chain s.task.nrp head xs
    → runqueue_length_loop k l head s ≡ ok (l + length xs) s
unfolding runqueue_length_loop
loop_lem zero s l head xs fuel small c = absurd (omega arith)
loop_lem (suc k) s l head [] fuel small c = simp c (ap (λ n. ok n s) (omega arith))
loop_lem (suc k) s l head (x ∷ xs) fuel small (e, live, c) =
    simp (e, live, fits)
      (loop_lem k s (l + 1) (s.task.nrp x) xs (omega arith) (omega arith) c
        ∙ ap (λ n. ok n s) (omega arith))
  where
    fits : (l + 1) % u32_mod ≡ l + 1
    fits = omega arith

-- On a run queue that ends, `runqueue_length` returns the number of its tasks.
pub runqueue_length_lem :
    (s : Os) (xs : List Ptr)
    → length xs < rounds
    → Chain s.task.nrp s.runqueue xs
    → runqueue_length s.runqueue s ≡ ok (length xs) s
unfolding runqueue_length
runqueue_length_lem s xs fuel c =
    loop_lem rounds s 0 s.runqueue xs fuel (omega (arith, rounds_lem)) c
    ∙ ap (λ n. ok n s) (omega arith)
