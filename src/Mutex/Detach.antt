-- ===== src/Mutex/Detach.antt =====
-- A task that is dispatched leaves the list of the mutex that it blocks on.
use arduino_osh.Base.{
  update-update, ◌≡◌, refl, sym, ap, ◌∙◌, inl, inr, true, false, List, [], ◌∷◌, arith, ◌==◌, length,
  update, has, Bool-cases, ==→eq, Distinct, ==_refl, ==_sym, subst,
}
use arduino_osh.Types.{Blocked, Ptr, null, Os}
use arduino_osh.Machine.{with_tasks}
use arduino_osh.Chain.{Chain}
use arduino_osh.Chain.Order.{length-erase-le, has-erase_apart, has-erase_self, erase_of_not_has}
use arduino_osh.Mutex.Handover.{BlocksOn}
use arduino_osh.Blocked.Remove.{blocked_remove-Removed}
use arduino_osh.Chain.{erase, Chain-Distinct, Chain-update}
use arduino_osh.Scheduler.{detach, detach_mutex}
use arduino_osh.Scheduler.Frame.{Kept}
use arduino_osh.Scheduler.Resume.{Detaches}
use arduino_osh.Mutex.Waiting.{Free, Locks, Change-Locks, elsewhere}

-- The other tasks block on what they have blocked on.
pub record Beside (s after : Os) (task : Ptr) : Type 0 where
  pub flags : (a : Ptr) → (task == a) ≡ false → after.task.flags a ≡ s.task.flags a
  pub mutex : (a : Ptr) → (task == a) ≡ false → after.task.mutex a ≡ s.task.mutex a
  pub queue : after.task.queue ≡ s.task.queue
  pub semaphore : after.task.semaphore ≡ s.task.semaphore
  pub rwlock : after.task.rwlock ≡ s.task.rwlock

-- A task off the list of the mutex that it blocks on.
pub record Comes (s : Os) (tasks mutexes : List Ptr) (lists : Ptr → List Ptr) (task m : Ptr)
    : Type 0 where
  pub detaches : Detaches s task
  pub locks : Locks detaches.after tasks mutexes (update lists m (erase task (lists m)))
  pub free : Free detaches.after task
  pub flags : detaches.after.task.flags task ≡ 0
  pub kept : Kept s detaches.after
  pub beside : Beside s detaches.after task

-- What the four tests of `detach` lead to.
abbrev gone : Os → Ptr → Ptr → Blocked → (Ptr → Ptr) → Os
gone s task m blocked next = record s {
  mutex = update s.mutex m (record (s.mutex m) { blocked = blocked });
  task = record (s.task) {
    nblocked = next;
    mutex = update s.task.mutex task null;
    flags = update s.task.flags task 0;
  };
}

module _ (s : Os) (tasks mutexes : List Ptr) (lists : Ptr → List Ptr) (task m : Ptr)
    (l : Locks s tasks mutexes lists) (here : has m mutexes ≡ true) (b : BlocksOn s task m)
    (blocked : Blocked) (next : Ptr → Ptr) (cleared : next task ≡ null)
    (chain : Chain next blocked.tasks (erase task (lists m)))
    (same : (a : Ptr)
      → (task == a) ≡ false
      → has a (lists m) ≡ false
      → next a ≡ s.task.nblocked a) where
  gone-Free : Free (gone s task m blocked next) task
  gone-Free = record {
    mutex = rw ==_refl refl;
    nblocked = cleared;
    queue = b.queue;
    semaphore = b.semaphore;
    rwlock = b.rwlock;
  }

  Distinct-list : Distinct (lists m)
  Distinct-list = Chain-Distinct s.task.nblocked _ (lists m) (l.chains m here)

  gone-Locks :
      Locks (gone s task m blocked next) tasks mutexes (update lists m (erase task (lists m)))
  unfolding erase
  gone-Locks =
      Change-Locks s (gone s task m blocked next) tasks mutexes lists l task m
        (erase task (lists m)) here
        (record {
          chain = rw ==_refl chain;
          short = omega (arith, length-erase-le task (lists m), l.short m here);
          mutexes = λ k n. rw n refl;
          nblocked = same;
          flags = λ a n. rw n refl;
          mutex = λ a n. rw n refl;
          queue = refl;
          semaphore = refl;
          rwlock = refl;
          others = λ a n. has-erase_apart a task (lists m) (==_sym a task ∙ n);
          joins = λ h. absurd (ground (arith, h, has-erase_self task (lists m) Distinct-list));
          leaves = λ e. gone-Free;
          owner = inr (rw ==_refl refl);
          left = λ o e. cleared;
          held = λ e. rw (l.held m here (rw ==_refl at e)) refl;
        })
        (λ k i n. elsewhere s tasks mutexes lists l task m k i b.waits_for n)

module _ (s : Os) (tasks mutexes : List Ptr) (lists : Ptr → List Ptr) (task m : Ptr)
    (l : Locks s tasks mutexes lists) (here : has m mutexes ≡ true) (b : BlocksOn s task m)
    (live : (task == null) ≡ false) (known : has task tasks ≡ true) where
  live_m : (m == null) ≡ false
  live_m = l.live m here

  -- The task at the head of the list.
  head_off :
      (rest : List Ptr)
      → ((s.mutex m).blocked.tasks == task) ≡ true
      → lists m ≡ task ∷ rest
      → Comes s tasks mutexes lists task m
  unfolding detach detach_mutex erase
  head_off rest first split =
      let c : Chain s.task.nblocked (s.mutex m).blocked.tasks (task ∷ rest) =
        subst (Chain s.task.nblocked (s.mutex m).blocked.tasks) split (l.chains m here) in
      let out : has task rest ≡ false = (Chain-Distinct s.task.nblocked _ (task ∷ rest) c).0 in
      let shorter = with_tasks (s.mutex m).blocked (s.task.nblocked task) in
      let s1 : Os = record s {
        mutex = update s.mutex m (record (s.mutex m) { blocked = shorter });
        task = record (s.task) { nblocked = update s.task.nblocked task null };
      } in
      let r =
        blocked_remove-Removed s1 shorter task rest (omega (arith, l.short m here, ap length split))
          (Chain-update s.task.nblocked _ task null rest c.2 out) in
      let cleared : r.next task ≡ null = r.same task out ∙ rw ==_refl refl in
      let list : erase task (lists m) ≡ rest = rw (split, ==_refl) refl in
      let chain : Chain r.next r.after.tasks (erase task (lists m)) =
        rw list (subst (Chain r.next r.after.tasks) (erase_of_not_has task rest out) (r.chain)) in
      let same : (a : Ptr)
          → (task == a) ≡ false
          → has a (lists m) ≡ false
          → r.next a ≡ s.task.nblocked a =
        λ a n o. r.same a (let o' = rw split at o in ground (arith, o')) ∙ rw n refl in
      record {
        detaches = record {
          after = gone s task m r.after r.next;
          result = simp (
            b.flags, live, b.queue, b.waits_for, live_m, b.semaphore, b.rwlock, first, r.result,
            ==_refl, update-update,
          );
          running = refl;
          idle = refl;
          nrp = refl;
          status = refl;
          priority = refl;
          delay = refl;
          runqueue = refl;
          waitqueue = refl;
        };
        locks = gone-Locks s tasks mutexes lists task m l here b r.after r.next cleared chain same;
        free = gone-Free s tasks mutexes lists task m l here b r.after r.next cleared chain same;
        flags = rw ==_refl refl;
        kept = record {
          running = refl;
          idle = refl;
          state = refl;
          uptime = refl;
          memory = refl;
          priority = refl;
          stack = refl;
          sp = refl;
        };
        beside = record {
          flags = λ a n. rw n refl;
          mutex = λ a n. rw n refl;
          queue = refl;
          semaphore = refl;
          rwlock = refl;
        };
      }

  -- A task further back, or one that has left the list.
  further_off : ((s.mutex m).blocked.tasks == task) ≡ false → Comes s tasks mutexes lists task m
  unfolding detach detach_mutex
  further_off later =
      let r =
        blocked_remove-Removed s (s.mutex m).blocked task (lists m) (l.short m here)
          (l.chains m here) in
      let cleared : r.next task ≡ null = elim (Bool-cases (has task (lists m))) [
        | inl i ↦ r.cleared i
        | inr o ↦ r.same task o ∙ l.left m task here known b.waits_for o
      ] in
      record {
        detaches = record {
          after = gone s task m r.after r.next;
          result = simp (
            b.flags, live, b.queue, b.waits_for, live_m, b.semaphore, b.rwlock, later, r.result,
            ==_refl,
          );
          running = refl;
          idle = refl;
          nrp = refl;
          status = refl;
          priority = refl;
          delay = refl;
          runqueue = refl;
          waitqueue = refl;
        };
        locks =
            gone-Locks s tasks mutexes lists task m l here b r.after r.next cleared r.chain
              (λ a n o. r.same a o);
        free =
            gone-Free s tasks mutexes lists task m l here b r.after r.next cleared r.chain
              (λ a n o. r.same a o);
        flags = rw ==_refl refl;
        kept = record {
          running = refl;
          idle = refl;
          state = refl;
          uptime = refl;
          memory = refl;
          priority = refl;
          stack = refl;
          sp = refl;
        };
        beside = record {
          flags = λ a n. rw n refl;
          mutex = λ a n. rw n refl;
          queue = refl;
          semaphore = refl;
          rwlock = refl;
        };
      }

at_head :
    (next : Ptr → Ptr) (p task : Ptr) (xs : List Ptr)
    → Chain next p xs
    → (task == null) ≡ false
    → (p == task) ≡ true
    → (rest : List Ptr) × (xs ≡ task ∷ rest)
at_head next p task [] c live e = absurd (ground (arith, live, e, c))
at_head next p task (x ∷ rest) c live e =
    let same : x ≡ task = sym (c.0) ∙ ==→eq p task e in (rest, ap (λ y. y ∷ rest) same)

-- In a system where the lists of the mutexes and the fields of the tasks are in step, a task that blocks on a mutex comes
-- off it when it is dispatched, wherever it stands in the list of the mutex, or after it has left the
-- list. The other tasks stay in the list in their order, the lists and the fields are in step
-- again, and the task blocks on nothing. The run queue and the wait queue stay as they are.
pub detach-Comes :
    (s : Os) (tasks mutexes : List Ptr) (lists : Ptr → List Ptr) (task m : Ptr)
    → Locks s tasks mutexes lists
    → has m mutexes ≡ true
    → BlocksOn s task m
    → (task == null) ≡ false
    → has task tasks ≡ true
    → Comes s tasks mutexes lists task m
detach-Comes s tasks mutexes lists task m l here b live known =
    elim (Bool-cases ((s.mutex m).blocked.tasks == task)) [
      | inl first ↦
          let (rest, split) =
            at_head s.task.nblocked (s.mutex m).blocked.tasks task (lists m) (l.chains m here) live
              first in
          head_off s tasks mutexes lists task m l here b live known rest first split
      | inr later ↦ further_off s tasks mutexes lists task m l here b live known later
    ]
