-- ===== src/RunQueue/Remove.antt =====
-- `runqueue_remove` takes a task out of the list, and touches nothing else.
use arduino_osh.Base.{
  ℕ, zero, suc, ◌<◌, ◌≡◌, refl, ◌∙◌, inl, inr, true, false, List, [], ◌∷◌, arith, ◌==◌, length,
  update, has, Bool-cases, ==_refl,
}
use arduino_osh.Types.{Ptr, null, Os}
use arduino_osh.Machine.{M, ok, with_nrp, rounds}
use arduino_osh.Chain.{Chain, erase, Chain-update, Chain-Distinct}
use arduino_osh.RunQueue.{runqueue_remove, runqueue_remove_loop}

-- The list behind `previous` loses `task`.
record Unlinked (s : Os) (task previous : Ptr) (xs : List Ptr) (r : M (Unit {0})) : Type 0 where
  next : Ptr → Ptr
  result : r s ≡ ok tt (with_nrp s next)
  chain : Chain next (next previous) (erase task xs)
  same : (a : Ptr) → (a == previous) ≡ false → has a xs ≡ false → next a ≡ s.task.nrp a
  gone : has task xs ≡ true → next task ≡ null

-- The first task of the list is the one to remove, or it stays.
module _ (k : ℕ) (s : Os) (task previous x : Ptr) (xs : List Ptr) (live : (x == null) ≡ false)
    (out : has previous (x ∷ xs) ≡ false) (new : has x xs ≡ false) where
  unlink_here :
      Chain s.task.nrp (s.task.nrp x) xs
      → (previous == null) ≡ false
      → (s.runqueue == x) ≡ false
      → (x == task) ≡ true
      → Unlinked s task previous (x ∷ xs) (runqueue_remove_loop (suc k) task previous x)
  unfolding runqueue_remove_loop erase
  unlink_here c p head hit = record {
    next = update (update s.task.nrp previous (s.task.nrp x)) x null;
    result = simp (live, hit, head, p);
    chain =
        rw (hit, apart, ==_refl)
          (Chain-update _ _ x null xs (Chain-update _ _ previous _ xs c (ground arith)) new);
    same = λ a n o. ground (arith, n, o);
    gone = λ i. ground (arith, hit);
  }
    where
      apart : (x == previous) ≡ false
      apart = ground (arith, out)

  unlink_later :
      s.task.nrp previous ≡ x
      → (x == task) ≡ false
      → Unlinked s task x xs (runqueue_remove_loop k task x (s.task.nrp x))
      → Unlinked s task previous (x ∷ xs) (runqueue_remove_loop (suc k) task previous x)
  unfolding runqueue_remove_loop erase
  unlink_later e miss rest = record {
    next = rest.next;
    result = simp (live, miss) rest.result;
    chain = rw (miss, rest.same previous (ground arith) (ground arith)) (e, live, rest.chain);
    same = λ a n o. rest.same a (ground arith) (ground arith);
    gone = λ i. rest.gone (ground arith);
  }

runqueue_remove_loop-Unlinked :
    (k : ℕ) (s : Os) (task previous iter : Ptr) (xs : List Ptr)
    → length xs < k
    → s.task.nrp previous ≡ iter
    → Chain s.task.nrp iter xs
    → (previous == null) ≡ false
    → has previous xs ≡ false
    → has s.runqueue xs ≡ false
    → Unlinked s task previous xs (runqueue_remove_loop k task previous iter)
unfolding runqueue_remove_loop erase
runqueue_remove_loop-Unlinked zero s task previous iter xs fuel e c p out head =
    absurd (omega arith)
runqueue_remove_loop-Unlinked (suc k) s task previous iter [] fuel e c p out head = record {
  next = s.task.nrp;
  result = rw c refl;
  chain = e ∙ c;
  same = λ a _ _. refl;
  gone = λ i. cc;
}
runqueue_remove_loop-Unlinked (suc k) s task previous iter (x ∷ xs) fuel e c p out head =
    let new = (Chain-Distinct s.task.nrp iter (x ∷ xs) c).0 in
    rw (c.0) (elim (Bool-cases (x == task)) [
      | inl hit ↦ unlink_here k s task previous x xs c.1 out new c.2 p (ground (arith, head)) hit
      | inr miss ↦ unlink_later k s task previous x xs c.1 out new (e ∙ c.0) miss (
          runqueue_remove_loop-Unlinked k s task x (s.task.nrp x) xs (omega arith) refl c.2 c.1 new
            (ground (arith, head)))
    ])

-- What `runqueue_remove` leaves: the list without the task, in the same memory but for `nrp`.
pub record Removed (s : Os) (task : Ptr) (xs : List Ptr) (r : M (Unit {0})) : Type 0 where
  pub next : Ptr → Ptr
  pub head : Ptr
  pub result : r s ≡ ok tt (record (with_nrp s next) { runqueue = head })
  pub chain : Chain next head (erase task xs)
  pub same : (a : Ptr) → has a xs ≡ false → next a ≡ s.task.nrp a
  pub gone : has task xs ≡ true → next task ≡ null

module _ (k : ℕ) (s : Os) (task x : Ptr) (xs : List Ptr) (c : Chain s.task.nrp x (x ∷ xs)) where
  remove_here :
      s.runqueue ≡ x
      → (x == task) ≡ true
      → Removed s task (x ∷ xs) (runqueue_remove_loop (suc k) task null x)
  unfolding runqueue_remove_loop erase
  remove_here e hit = record {
    next = update s.task.nrp x null;
    head = s.task.nrp x;
    result = simp (c.1, hit, e, ==_refl);
    chain = rw hit (Chain-update _ _ x null xs c.2 (Chain-Distinct s.task.nrp x (x ∷ xs) c).0);
    same = λ a o. ground (arith, o);
    gone = λ i. ground (arith, hit);
  }

  remove_later :
      s.runqueue ≡ x
      → (x == task) ≡ false
      → Unlinked s task x xs (runqueue_remove_loop k task x (s.task.nrp x))
      → Removed s task (x ∷ xs) (runqueue_remove_loop (suc k) task null x)
  unfolding runqueue_remove_loop erase
  remove_later e miss rest = record {
    next = rest.next;
    head = s.runqueue;
    result = simp (c.1, miss) rest.result;
    chain = rw miss (e, c.1, rest.chain);
    same = λ a o. rest.same a (ground arith) (ground arith);
    gone = λ i. rest.gone (ground arith);
  }

runqueue_remove_loop-Removed :
    (k : ℕ) (s : Os) (task head : Ptr) (xs : List Ptr)
    → length xs < k
    → s.runqueue ≡ head
    → Chain s.task.nrp head xs
    → Removed s task xs (runqueue_remove_loop k task null head)
unfolding runqueue_remove_loop erase
runqueue_remove_loop-Removed zero s task head xs fuel e c = absurd (omega arith)
runqueue_remove_loop-Removed (suc k) s task head [] fuel e c = record {
  next = s.task.nrp;
  head = s.runqueue;
  result = rw c refl;
  chain = e ∙ c;
  same = λ a _. refl;
  gone = λ i. cc;
}
runqueue_remove_loop-Removed (suc k) s task head (x ∷ xs) fuel e c =
    let c' : Chain s.task.nrp x (x ∷ xs) = (refl, c.1, c.2) in
    let new = (Chain-Distinct s.task.nrp x (x ∷ xs) c').0 in
    rw (c.0) (elim (Bool-cases (x == task)) [
      | inl hit ↦ remove_here k s task x xs c' (e ∙ c.0) hit
      | inr miss ↦ remove_later k s task x xs c' (e ∙ c.0) miss (
          runqueue_remove_loop-Unlinked k s task x (s.task.nrp x) xs (omega arith) refl c.2 c.1 new
            (rw (e ∙ c.0) new))
    ])

-- Of a list that ends `runqueue_remove` takes the task out, and leaves the rest as it was.
pub runqueue_remove-Removed :
    (s : Os) (task : Ptr) (xs : List Ptr)
    → length xs < rounds
    → Chain s.task.nrp s.runqueue xs
    → Removed s task xs (runqueue_remove task)
unfolding runqueue_remove
runqueue_remove-Removed s task xs fuel c =
    let r = runqueue_remove_loop-Removed rounds s task s.runqueue xs fuel refl c in
    record {
      next = r.next;
      head = r.head;
      result = r.result;
      chain = r.chain;
      same = r.same;
      gone = r.gone;
    }
