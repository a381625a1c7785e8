-- ===== src/RunQueue/Add.antt =====
-- `runqueue_add` puts a task behind those of at least its priority.
use arduino_osh.Base.{
  ℕ, zero, suc, ◌<◌, ◌≡◌, refl, sym, ◌∙◌, inl, inr, Bool, true, false, List, [], ◌∷◌, arith, ◌==◌,
  ltb, length, update, has, subst, Bool-cases,
}
use arduino_osh.Types.{Ptr, null, TaskStatus, status_eq, Os, Event}
use arduino_osh.Machine.{M, ok, with_nrp, rounds}
use arduino_osh.Chain.{Chain, insert, Chain-update, Chain-Distinct}
use arduino_osh.Chain.Order.{length-insert}
use arduino_osh.RunQueue.{osi_priority_check, runqueue_add, runqueue_add_loop}
use arduino_osh.RunQueue.Check.{osi_priority_check-Traces}

-- `x` ranks below `task`.
abbrev pub ranks_below : Os → Ptr → Ptr → Bool
ranks_below s task x = ltb (s.task.priority x) (s.task.priority task)

-- The list behind `previous` gains `task`, and the queue is checked.
record Linked (s : Os) (task previous : Ptr) (xs : List Ptr) (r : M (Unit {0})) : Type 0 where
  next : Ptr → Ptr
  result : r s ≡ osi_priority_check null (with_nrp s next)
  chain : Chain next (next previous) (insert (ranks_below s task) task xs)
  same :
      (a : Ptr)
      → (a == task) ≡ false
      → (a == previous) ≡ false
      → has a xs ≡ false
      → next a ≡ s.task.nrp a

module _ (k : ℕ) (s : Os) (task previous x : Ptr) (xs : List Ptr) (live : (x == null) ≡ false)
    (live_task : (task == null) ≡ false) (live_previous : (previous == null) ≡ false)
    (apart : (previous == task) ≡ false) (other : (x == task) ≡ false)
    (out : has previous (x ∷ xs) ≡ false) (fresh : has task (x ∷ xs) ≡ false)
    (new : has x xs ≡ false) where
  link_before :
      Chain s.task.nrp (s.task.nrp x) xs
      → ranks_below s task x ≡ true
      → Linked s task previous (x ∷ xs) (runqueue_add_loop (suc k) task previous x)
  unfolding runqueue_add_loop insert
  link_before c below = record {
    next = update (update s.task.nrp task x) previous task;
    result = simp (live, live_task, other, below, live_previous);
    chain = rw below (
      ground arith,
      live_task,
      (
        ground arith,
        live,
        rw (past, beside)
            (Chain-update _ _ previous task xs (Chain-update _ _ task x xs c (ground arith))
              (ground arith)),
      ),
    );
    same = λ a n m o. ground (arith, n, m);
  }
    where
      past : (previous == x) ≡ false
      past = ground arith

      beside : (task == x) ≡ false
      beside = ground arith

  link_behind :
      s.task.nrp x ≡ null
      → s.task.nrp previous ≡ x
      → s.task.nrp task ≡ null
      → ranks_below s task x ≡ false
      → Linked s task previous (x ∷ []) (runqueue_add_loop (suc k) task previous x)
  unfolding runqueue_add_loop insert
  link_behind c e end above = record {
    next = update s.task.nrp x task;
    result = simp (live, live_task, other, above, c);
    chain = rw above (ground (arith, e), live, (ground arith, live_task, ground (arith, end)));
    same = λ a n m o. ground (arith, n, m, o);
  }

  link_later :
      s.task.nrp previous ≡ x
      → (s.task.nrp x == null) ≡ false
      → ranks_below s task x ≡ false
      → Linked s task x xs (runqueue_add_loop k task x (s.task.nrp x))
      → Linked s task previous (x ∷ xs) (runqueue_add_loop (suc k) task previous x)
  unfolding runqueue_add_loop insert
  link_later e more above rest = record {
    next = rest.next;
    result = simp (live, live_task, other, above, more) rest.result;
    chain = rw above (rest.same previous apart (ground arith) (ground arith) ∙ e, live, rest.chain);
    same = λ a n m o. rest.same a n (ground arith) (ground arith);
  }

runqueue_add_loop-Linked :
    (k : ℕ) (s : Os) (task previous iter x : Ptr) (xs : List Ptr)
    → length xs < k
    → (task == null) ≡ false
    → (previous == null) ≡ false
    → has task (previous ∷ x ∷ xs) ≡ false
    → has previous (x ∷ xs) ≡ false
    → s.task.nrp task ≡ null
    → s.task.nrp previous ≡ iter
    → Chain s.task.nrp iter (x ∷ xs)
    → Linked s task previous (x ∷ xs) (runqueue_add_loop k task previous iter)
runqueue_add_loop-Linked zero s task previous iter x xs fuel lt lp out op end e c =
    absurd (omega arith)
runqueue_add_loop-Linked (suc k) s task previous iter x [] fuel lt lp out op end e c =
    let apart : (previous == task) ≡ false = ground (arith, out) in
    let other : (x == task) ≡ false = ground (arith, out) in
    rw (c.0) (elim (Bool-cases (ranks_below s task x)) [
      | inl below ↦
          link_before k s task previous x [] c.1 lt lp apart other op (ground (arith, out)) refl c.2
            below
      | inr above ↦
          link_behind k s task previous x [] c.1 lt lp apart other op (ground (arith, out)) refl c.2
            (e ∙ c.0) end above
    ])
runqueue_add_loop-Linked (suc k) s task previous iter x (y ∷ ys) fuel lt lp out op end e c =
    let apart : (previous == task) ≡ false = ground (arith, out) in
    let other : (x == task) ≡ false = ground (arith, out) in
    let fresh : has task (x ∷ y ∷ ys) ≡ false = ground (arith, out) in
    let new = (Chain-Distinct s.task.nrp iter (x ∷ y ∷ ys) c).0 in
    rw (c.0) (elim (Bool-cases (ranks_below s task x)) [
      | inl below ↦
          link_before k s task previous x (y ∷ ys) c.1 lt lp apart other op fresh new c.2 below
      | inr above ↦
          link_later k s task previous x (y ∷ ys) c.1 lt lp apart other op fresh new (e ∙ c.0)
            (rw (c.2.0) (c.2.1)) above
            (runqueue_add_loop-Linked k s task x (s.task.nrp x) y ys (omega arith) lt c.1 fresh new
              end refl c.2)
    ])

-- What `runqueue_add` leaves: the list with the task, in the same memory but for `nrp`.
pub record Added (s : Os) (task : Ptr) (xs : List Ptr) (r : M (Unit {0})) : Type 0 where
  pub next : Ptr → Ptr
  pub head : Ptr
  pub trace : List Event
  pub result : r s ≡ ok tt (record (with_nrp s next) { runqueue = head; trace = trace })
  pub chain : Chain next head (insert (ranks_below s task) task xs)
  pub same : (a : Ptr) → (a == task) ≡ false → has a xs ≡ false → next a ≡ s.task.nrp a

-- The check at the end of an insertion.
conclude :
    (s : Os) (task : Ptr) (xs : List Ptr) (next : Ptr → Ptr) (head : Ptr) (r : M (Unit {0}))
    → suc (length xs) < rounds
    → r s ≡ osi_priority_check null (record (with_nrp s next) { runqueue = head })
    → Chain next head (insert (ranks_below s task) task xs)
    → ((a : Ptr) → (a == task) ≡ false → has a xs ≡ false → next a ≡ s.task.nrp a)
    → Added s task xs r
conclude s task xs next head r fuel e c same =
    let check =
      osi_priority_check-Traces (record (with_nrp s next) { runqueue = head }) null
        (insert (ranks_below s task) task xs)
        (omega (arith, length-insert (ranks_below s task) task xs)) c in
    record {
      next = next;
      head = head;
      trace = check.trace;
      result = e ∙ check.result;
      chain = c;
      same = same;
    }

-- The loop from the head of the queue.
module _ (k : ℕ) (s : Os) (task x : Ptr) (xs : List Ptr) (fuel : suc (suc (length xs)) < rounds)
    (live : (task == null) ≡ false) (out : has task (x ∷ xs) ≡ false) (e : s.runqueue ≡ x)
    (end : s.task.nrp task ≡ null) (c : Chain s.task.nrp x (x ∷ xs)) where
  other : (x == task) ≡ false
  other = ground (arith, out)

  add_before :
      ranks_below s task x ≡ true → Added s task (x ∷ xs) (runqueue_add_loop (suc k) task null x)
  unfolding runqueue_add_loop insert
  add_before below =
      conclude s task (x ∷ xs) (update s.task.nrp task x) task _ fuel
        (simp (c.1, live, other, below))
        (rw below (
          refl,
          live,
          (
            ground arith,
            c.1,
            rw beside (Chain-update s.task.nrp (s.task.nrp x) task x xs c.2 (ground (arith, out))),
          ),
        ))
        (λ a n o. ground (arith, n))
    where
      beside : (task == x) ≡ false
      beside = ground (arith, out)

  add_behind :
      xs ≡ []
      → ranks_below s task x ≡ false
      → Added s task (x ∷ xs) (runqueue_add_loop (suc k) task null x)
  unfolding runqueue_add_loop insert
  add_behind none above =
      conclude s task (x ∷ xs) (update s.task.nrp x task) s.runqueue _ fuel
        (simp (c.1, live, other, above, last))
        (rw (none, above) (e, c.1, (ground arith, live, ground (arith, end))))
        (λ a n o. ground (arith, n, o))
    where
      last : s.task.nrp x ≡ null
      last = subst (Chain s.task.nrp (s.task.nrp x)) none c.2

  add_later :
      (s.task.nrp x == null) ≡ false
      → ranks_below s task x ≡ false
      → Linked s task x xs (runqueue_add_loop k task x (s.task.nrp x))
      → Added s task (x ∷ xs) (runqueue_add_loop (suc k) task null x)
  unfolding runqueue_add_loop insert
  add_later more above rest =
      conclude s task (x ∷ xs) rest.next s.runqueue _ fuel
        (simp (c.1, live, other, above, more) rest.result) (rw above (e, c.1, rest.chain))
        (λ a n o. rest.same a n (ground (arith, o)) (ground (arith, o)))

runqueue_add_loop-Added :
    (k : ℕ) (s : Os) (task x : Ptr) (xs : List Ptr)
    → length xs < k
    → suc (suc (length xs)) < rounds
    → (task == null) ≡ false
    → has task (x ∷ xs) ≡ false
    → s.runqueue ≡ x
    → s.task.nrp task ≡ null
    → Chain s.task.nrp x (x ∷ xs)
    → Added s task (x ∷ xs) (runqueue_add_loop k task null x)
runqueue_add_loop-Added zero s task x xs h fuel live out e end c = absurd (omega arith)
runqueue_add_loop-Added (suc k) s task x [] h fuel live out e end c =
    elim (Bool-cases (ranks_below s task x)) [
      | inl below ↦ add_before k s task x [] fuel live out e end c below
      | inr above ↦ add_behind k s task x [] fuel live out e end c refl above
    ]
runqueue_add_loop-Added (suc k) s task x (y ∷ ys) h fuel live out e end c =
    elim (Bool-cases (ranks_below s task x)) [
      | inl below ↦ add_before k s task x (y ∷ ys) fuel live out e end c below
      | inr above ↦ add_later k s task x (y ∷ ys) fuel live out e end c (rw (c.2.0) (c.2.1)) above (
          runqueue_add_loop-Linked k s task x (s.task.nrp x) y ys (omega arith) live c.1 out
            (Chain-Distinct s.task.nrp x (x ∷ y ∷ ys) c).0 end refl c.2)
    ]

-- A task that is in no list, and that neither waits nor is finished, is put into a run queue
-- that ends: behind every task of at least its priority, and in front of the others.
pub runqueue_add-Added :
    (s : Os) (task : Ptr) (xs : List Ptr)
    → suc (length xs) < rounds
    → (task == null) ≡ false
    → has task xs ≡ false
    → status_eq (s.task.status task) TaskStatus.wait ≡ false
    → status_eq (s.task.status task) TaskStatus.finished ≡ false
    → Chain s.task.nrp s.runqueue xs
    → Added s task xs (runqueue_add task)
unfolding runqueue_add insert
runqueue_add-Added s task [] fuel live out w f c = record {
  next = update s.task.nrp task null;
  head = task;
  trace = s.trace;
  result = simp (live, c);
  chain = (refl, live, ground arith);
  same = λ a n o. ground (arith, n);
}
runqueue_add-Added s task (x ∷ xs) fuel live out w f c =
    let s' = with_nrp s (update s.task.nrp task null) in
    let head : Chain s.task.nrp x (x ∷ xs) = (refl, c.1, c.2) in
    let held : (s.runqueue == null) ≡ false = rw (c.0) (c.1) in
    let a =
      runqueue_add_loop-Added rounds s' task x xs (omega arith) fuel live out c.0 (ground arith)
        (Chain-update s.task.nrp x task null (x ∷ xs) head out) in
    record {
      next = a.next;
      head = a.head;
      trace = a.trace;
      result =
          simp (live, held, w, f)
            (subst
              (λ y.
                runqueue_add_loop rounds task null y s'
                ≡ ok tt (record (with_nrp s a.next) { runqueue = a.head; trace = a.trace }))
              (sym (c.0)) a.result);
      chain = a.chain;
      same = λ b n o. a.same b n o ∙ ground (arith, n);
    }
