-- ===== src/Blocked/Remove.antt =====
-- `blocked_remove` of src/utilities.h takes a task out of the list.
use arduino_osh.Base.{
  ℕ, zero, suc, ◌<◌, ◌≡◌, refl, ◌∙◌, Bool, true, false, List, [], ◌∷◌, arith, ◌==◌, length, update,
  has, Bool-cases, ==_refl, ==_sym, ==→eq, inl, inr,
}
use arduino_osh.Types.{Ptr, null, Blocked, Os}
use arduino_osh.Machine.{M, ok, rounds}
use arduino_osh.Chain.{Chain, Chain-Distinct, Chain-update, erase}
use arduino_osh.Blocked.{blocked_remove, blocked_remove_loop}
use arduino_osh.Blocked.Append.{with_nblocked}

-- The list behind `previous` loses `task`, if it is there.
record Unlinked (s : Os) (blocked : Blocked) (task previous : Ptr) (xs : List Ptr)
    (r : M (Bool × Blocked)) : Type 0 where
  next : Ptr → Ptr
  result : r s ≡ ok (has task xs, blocked) (with_nblocked s next)
  chain : Chain next (next previous) (erase task xs)
  same : (a : Ptr) → (a == previous) ≡ false → has a xs ≡ false → next a ≡ s.task.nblocked a
  cleared : has task xs ≡ true → next task ≡ null

loop-Unlinked :
    (k : ℕ) (s : Os) (blocked : Blocked) (task previous iter : Ptr) (xs : List Ptr)
    → length xs < k
    → s.task.nblocked previous ≡ iter
    → Chain s.task.nblocked iter xs
    → (previous == null) ≡ false
    → has previous xs ≡ false
    → Unlinked s blocked task previous xs (blocked_remove_loop k blocked task previous iter)
unfolding blocked_remove_loop erase
loop-Unlinked zero s blocked task previous iter xs fuel e c p out = absurd (omega arith)
loop-Unlinked (suc k) s blocked task previous iter [] fuel e c p out = record {
  next = s.task.nblocked;
  result = rw c refl;
  chain = e ∙ c;
  same = λ a _ _. refl;
  cleared = λ h. absurd (cc);
}
loop-Unlinked (suc k) s blocked task previous iter (x ∷ xs) fuel e c p out =
    let new = (Chain-Distinct s.task.nblocked iter (x ∷ xs) c).0 in
    let apart : (x == previous) ≡ false = ground (arith, out) in
    rw (c.0) (elim (Bool-cases (x == task)) [
      | inl hit ↦
          let same : x ≡ task = ==→eq x task hit in
          let live : (task == null) ≡ false = rw (← same) (c.1) in
          let beside : (task == previous) ≡ false = rw (← same) apart in
          let gone : has task xs ≡ false = rw (← same) new in
          record {
            next = update (update s.task.nblocked previous (s.task.nblocked x)) task null;
            result = simp (c.1, hit, ==_sym task x, p, live);
            chain =
                rw (hit, beside, ==_refl)
                  (Chain-update _ _ task null xs (Chain-update _ _ previous _ xs c.2 (ground arith))
                    gone);
            same = λ a n o. ground (arith, n, o, same);
            cleared = λ h. rw ==_refl refl;
          }
      | inr miss ↦
          let rest =
            loop-Unlinked k s blocked task x (s.task.nblocked x) xs (omega arith) refl c.2 c.1
              new in
          record {
            next = rest.next;
            result = simp (c.1, miss, ==_sym task x) rest.result;
            chain =
                rw (miss, rest.same previous (ground arith) (ground arith))
                  (e ∙ c.0, c.1, rest.chain);
            same = λ a n o. rest.same a (ground arith) (ground arith);
            cleared = λ h. rest.cleared (ground (arith, h, miss));
          }
    ])

-- What `blocked_remove` leaves: the list without the task, in the same memory but for `nblocked`.
pub record Removed (s : Os) (task : Ptr) (xs : List Ptr) (r : M (Bool × Blocked)) : Type 0 where
  pub next : Ptr → Ptr
  pub after : Blocked
  pub result : r s ≡ ok (has task xs, after) (with_nblocked s next)
  pub chain : Chain next after.tasks (erase task xs)
  pub same : (a : Ptr) → has a xs ≡ false → next a ≡ s.task.nblocked a
  pub cleared : has task xs ≡ true → next task ≡ null

loop-Removed :
    (k : ℕ) (s : Os) (blocked : Blocked) (task head : Ptr) (xs : List Ptr)
    → length xs < k
    → blocked.tasks ≡ head
    → Chain s.task.nblocked head xs
    → Removed s task xs (blocked_remove_loop k blocked task null head)
unfolding blocked_remove_loop erase
loop-Removed zero s blocked task head xs fuel e c = absurd (omega arith)
loop-Removed (suc k) s blocked task head [] fuel e c = record {
  next = s.task.nblocked;
  after = blocked;
  result = rw c refl;
  chain = e ∙ c;
  same = λ a _. refl;
  cleared = λ h. absurd (cc);
}
loop-Removed (suc k) s blocked task head (x ∷ xs) fuel e c =
    let new = (Chain-Distinct s.task.nblocked head (x ∷ xs) c).0 in
    rw (c.0) (elim (Bool-cases (x == task)) [
      | inl hit ↦
          let same : x ≡ task = ==→eq x task hit in
          let live : (task == null) ≡ false = rw (← same) (c.1) in
          let gone : has task xs ≡ false = rw (← same) new in
          record {
            next = update s.task.nblocked task null;
            after = record blocked { tasks = s.task.nblocked x };
            result = simp (c.1, hit, ==_sym task x, live);
            chain = rw hit (Chain-update _ _ task null xs c.2 gone);
            same = λ a o. ground (arith, o, same);
            cleared = λ h. rw ==_refl refl;
          }
      | inr miss ↦
          let rest =
            loop-Unlinked k s blocked task x (s.task.nblocked x) xs (omega arith) refl c.2 c.1
              new in
          record {
            next = rest.next;
            after = blocked;
            result = simp (c.1, miss, ==_sym task x) rest.result;
            chain = rw miss (e ∙ c.0, c.1, rest.chain);
            same = λ a o. rest.same a (ground arith) (ground arith);
            cleared = λ h. rest.cleared (ground (arith, h, miss));
          }
    ])

-- Of a list that ends `blocked_remove` takes the task out and clears its link, leaves the rest as it
-- was, and answers whether the task was there.
pub blocked_remove-Removed :
    (s : Os) (blocked : Blocked) (task : Ptr) (xs : List Ptr)
    → length xs < rounds
    → Chain s.task.nblocked blocked.tasks xs
    → Removed s task xs (blocked_remove blocked task)
unfolding blocked_remove
blocked_remove-Removed s blocked task xs fuel c =
    loop-Removed rounds s blocked task blocked.tasks xs fuel refl c
