-- ===== src/Rwlock/Readers.antt =====
-- How many waiting readers the release by a writer admits.
use arduino_osh.Base.{
  ℕ, suc, ◌+◌, ◌%◌, ◌≡◌, refl, ◌∙◌, true, false, List, ◌==◌, update, has, ==_refl, ◌∷◌,
}
use arduino_osh.Types.{Ptr, null, idle, Os, u16_mod, oss_success}
use arduino_osh.Machine.{M, ok, rounds, rounds_lem}
use arduino_osh.Chain.{Chain, Chain-Distinct, Chain-update, insert, erase}
use arduino_osh.RunQueue.Add.{ranks_below}
use arduino_osh.Stack.Return.{stacked}
use arduino_osh.Scheduler.Invariant.{Queues, StatusSet-idle, with_status}
use arduino_osh.Scheduler.Queues.{relink}
use arduino_osh.Scheduler.Switch.{Queues-same}
use arduino_osh.Rwlock.Defs.{
  desired_read, give_back, admit_reader, admit_readers, osi_rwlock_release,
}

-- A reader `x` at the head of the list of waiting tasks, with `rest` behind it.
module _ (s : Os) (rwlock x : Ptr) (run waiting : List Ptr) (q : Queues s run waiting)
    (rest : List Ptr) (live_lock : (rwlock == null) ≡ false) (waits : has x waiting ≡ true)
    (reads : s.task.c x ≡ desired_read)
    (c : Chain s.task.nblocked (s.rwlock rwlock).blocked.tasks (x ∷ rest)) where
  live : (x == null) ≡ false
  live = c.1

  -- What is left of it.
  record Admitted (r : M (Unit {0})) : Type 0 where
    after : Os
    result : r s ≡ ok tt after
    readers : (after.rwlock rwlock).readers ≡ ((s.rwlock rwlock).readers + 1) % u16_mod
    writers : (after.rwlock rwlock).writers ≡ (s.rwlock rwlock).writers
    head : (after.rwlock rwlock).blocked.tasks ≡ s.task.nblocked x
    alone : after.task.nblocked x ≡ null
    still : Chain after.task.nblocked (after.rwlock rwlock).blocked.tasks rest
    desired : (a : Ptr) → (x == a) ≡ false → after.task.c a ≡ s.task.c a
    queues : Queues after (insert (ranks_below s x) x run) (erase x waiting)

  admit_reader-Admitted : Admitted (admit_reader rwlock null x)
  unfolding admit_reader
  admit_reader-Admitted =
      let s' : Os = record s {
        rwlock = update s.rwlock rwlock (record (s.rwlock rwlock) {
          blocked = record ((s.rwlock rwlock).blocked) { tasks = s.task.nblocked x };
        });
        task = record (s.task) {
          nblocked = update s.task.nblocked x null;
          c = update s.task.c x 0;
        };
      } in
      let (memory, written) = stacked s' x oss_success live in
      let s'' : Os = record s' { memory = memory } in
      let set =
        StatusSet-idle s'' x run waiting
          (record {
            lists = record {
              run_chain = q.lists.run_chain;
              wait_chain = q.lists.wait_chain;
              apart = q.lists.apart;
              room = q.lists.room;
            };
            can_run = q.can_run;
            waits = q.waits;
            ranked = q.ranked;
            due = q.due;
          })
          live waits in
      let out : has x rest ≡ false = (Chain-Distinct s.task.nblocked _ (x ∷ rest) c).0 in
      let moved = relink (with_status s'' x idle) set.next set.run_head set.wait_head set.trace in
      let after : Os = record moved {
        rwlock =
            update s'.rwlock rwlock
              (record (s'.rwlock rwlock) { readers = ((s'.rwlock rwlock).readers + 1) % u16_mod });
      } in
      record {
        after = after;
        result = simp (live, live_lock, written, set.result);
        readers = rw ==_refl refl;
        writers = rw ==_refl refl;
        head = rw ==_refl refl;
        alone = rw ==_refl refl;
        still = rw ==_refl (Chain-update s.task.nblocked _ x null rest c.2 out);
        desired = λ a n. rw n refl;
        queues = Queues-same moved after _ _ refl refl refl set.queues;
      }

  admit_readers_once :
      (k : ℕ) (a : Admitted (admit_reader rwlock null x))
      → admit_readers (suc (suc k)) rwlock null x s ≡ ok tt a.after
  unfolding admit_readers
  admit_readers_once k a = simp (live, reads, a.result, a.alone)

-- What the release leaves: one reader and no writer, the other tasks in the list as they are, and
-- the reader in the run queue.
pub record OneReader (s : Os) (rwlock x : Ptr) (rest run waiting : List Ptr) : Type 0 where
  pub after : Os
  pub result : osi_rwlock_release rwlock s ≡ ok oss_success after
  pub readers : (after.rwlock rwlock).readers ≡ 1
  pub writers : (after.rwlock rwlock).writers ≡ 0
  pub still : Chain after.task.nblocked (after.rwlock rwlock).blocked.tasks rest
  pub desired : (a : Ptr) → (x == a) ≡ false → after.task.c a ≡ s.task.c a
  pub queues : Queues after (insert (ranks_below s x) x run) (erase x waiting)

-- Let the invariant of the queues hold. The writer releases the lock, no reader has it, and the first
-- task in the list of the lock is a reader `x` that stands in the wait queue. The release returns and leaves
-- one reader and no writer, however many readers stand behind `x`. They stay in the list in
-- their order, and want what they have wanted. `x` alone moves from the wait queue to its place in the run
-- queue, and the invariant of the queues holds.
pub osi_rwlock_release-OneReader :
    (s : Os) (rwlock x : Ptr) (rest run waiting : List Ptr)
    → Queues s run waiting
    → (rwlock == null) ≡ false
    → has x waiting ≡ true
    → s.task.c x ≡ desired_read
    → (s.rwlock rwlock).readers ≡ 0
    → (s.rwlock rwlock).writers ≡ 1
    → (s.rwlock rwlock).writer ≡ s.running
    → Chain s.task.nblocked (s.rwlock rwlock).blocked.tasks (x ∷ rest)
    → OneReader s rwlock x rest run waiting
unfolding osi_rwlock_release give_back
osi_rwlock_release-OneReader s rwlock x rest run waiting q lock waits reads free one ours c =
    let s' : Os = record s {
      rwlock =
          update s.rwlock rwlock
            (record (s.rwlock rwlock) { readers = 0; writer = null; writers = 0 });
    } in
    let q' = Queues-same s s' run waiting refl refl refl q in
    let c' : Chain s'.task.nblocked (s'.rwlock rwlock).blocked.tasks (x ∷ rest) = rw ==_refl c in
    let a = admit_reader-Admitted s' rwlock x run waiting q' rest lock waits reads c' in
    let once : admit_readers rounds rwlock null x s' ≡ ok tt a.after =
      rw rounds_lem
        (admit_readers_once s' rwlock x run waiting q' rest lock waits reads c' 254 a) in
    record {
      after = a.after;
      result = simp (lock, free, one, ours, c.0, c.1, reads, ==_refl, once);
      readers = a.readers ∙ rw ==_refl refl;
      writers = a.writers ∙ rw ==_refl refl;
      still = a.still;
      desired = a.desired;
      queues = a.queues;
    }
