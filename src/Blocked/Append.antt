-- ===== src/Blocked/Append.antt =====
-- `blocked_append` of src/utilities.h puts a task at the end of the list.
use arduino_osh.Base.{
  ℕ, zero, suc, ◌<◌, ◌≡◌, refl, ◌∙◌, false, List, [], ◌∷◌, ◌++◌, arith, ◌==◌, length, update, has,
  ==_sym,
}
use arduino_osh.Types.{Ptr, null, Blocked, Os}
use arduino_osh.Machine.{M, ok, rounds}
use arduino_osh.Chain.{Chain, Chain-Distinct}
use arduino_osh.Blocked.{blocked_append, blocked_append_loop}

-- The state with another `nblocked` field of the tasks.
abbrev pub with_nblocked : Os → (Ptr → Ptr) → Os
with_nblocked s next = record s { task = record (s.task) { nblocked = next } }

record Joined (s : Os) (task x : Ptr) (xs : List Ptr) (r : M (Unit {0})) : Type 0 where
  next : Ptr → Ptr
  result : r s ≡ ok tt (with_nblocked s next)
  chain : Chain next x (xs ++ task ∷ [])
  same : (a : Ptr) → has a xs ≡ false → next a ≡ s.task.nblocked a

loop-Joined :
    (k : ℕ) (s : Os) (task x : Ptr) (xs : List Ptr)
    → length xs < k
    → (task == null) ≡ false
    → has task (x ∷ xs) ≡ false
    → s.task.nblocked task ≡ null
    → Chain s.task.nblocked x (x ∷ xs)
    → Joined s task x (x ∷ xs) (blocked_append_loop k task x)
unfolding blocked_append_loop
loop-Joined zero s task x xs fuel live out end c = absurd (omega arith)
loop-Joined (suc k) s task x [] fuel live out end c = record {
  next = update s.task.nblocked x task;
  result = simp (c.1, c.2, ==_sym null task, live, other);
  chain = (refl, c.1, (ground arith, live, ground (arith, end, other)));
  same = λ a n. ground (arith, n);
}
  where
    other : (x == task) ≡ false
    other = ground (arith, out)
loop-Joined (suc k) s task x (y ∷ ys) fuel live out end c =
    let other : (x == task) ≡ false = ground (arith, out) in
    let another : (y == task) ≡ false = ground (arith, out) in
    let new = (Chain-Distinct s.task.nblocked x (x ∷ y ∷ ys) c).0 in
    let rest =
      loop-Joined k s task y ys (omega arith) live (ground (arith, out)) end (refl, c.2.1, c.2.2) in
    record {
      next = rest.next;
      result = simp (c.1, c.2.0, c.2.1, other, another) rest.result;
      chain = (refl, c.1, rw (rest.same x new ∙ c.2.0) rest.chain);
      same = λ a n. rest.same a (ground (arith, n));
    }

-- What `blocked_append` leaves: the list with the task, in the same memory but for `nblocked`.
pub record Appended (s : Os) (blocked : Blocked) (task : Ptr) (xs : List Ptr) : Type 0 where
  pub next : Ptr → Ptr
  pub after : Blocked
  pub result : blocked_append blocked task s ≡ ok after (with_nblocked s next)
  pub chain : Chain next after.tasks (xs ++ task ∷ [])
  pub same : (a : Ptr) → has a xs ≡ false → next a ≡ s.task.nblocked a

-- A task that blocks on nothing, and that is not in the list, comes to stand at the end of a list
-- that ends.
pub blocked_append-Appended :
    (s : Os) (blocked : Blocked) (task : Ptr) (xs : List Ptr)
    → length xs < rounds
    → (task == null) ≡ false
    → has task xs ≡ false
    → s.task.nblocked task ≡ null
    → Chain s.task.nblocked blocked.tasks xs
    → Appended s blocked task xs
unfolding blocked_append
blocked_append-Appended s blocked task [] fuel live out end c = record {
  next = s.task.nblocked;
  after = record blocked { tasks = task };
  result = simp (live, end, c);
  chain = (refl, live, end);
  same = λ a n. refl;
}
blocked_append-Appended s blocked task (x ∷ xs) fuel live out end c =
    let l = loop-Joined rounds s task x xs (omega arith) live out end (refl, c.1, c.2) in
    record {
      next = l.next;
      after = blocked;
      result = simp (live, end, c.0, c.1, l.result);
      chain = rw (c.0) l.chain;
      same = l.same;
    }
