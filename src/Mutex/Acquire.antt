-- ===== src/Mutex/Acquire.antt =====
-- A call of `osi_mutex_acquire` that waits for the mutex.
use arduino_osh.Base.{
  ◌+◌, ◌<◌, ◌≡◌, refl, ◌∙◌, inl, Bool, true, false, ◌||◌, List, [], ◌∷◌, ◌++◌, arith, ◌==◌, length,
  length-append, update, has, has-append, ==_refl, ==_sym,
}
use arduino_osh.Types.{Ptr, null, Os, flag_mutex, oss_error_to}
use arduino_osh.Machine.{pure, rounds, ◌>>◌}
use arduino_osh.Blocked.Append.{blocked_append-Appended}
use arduino_osh.Service.{svc_delay, svc_block}
use arduino_osh.Mutex.Defs.{blocked_enq, osi_mutex_acquire}
use arduino_osh.Mutex.Handover.{BlocksOn}
use arduino_osh.Scheduler.Frame.{Kept}
use arduino_osh.Mutex.Detach.{Beside}
use arduino_osh.Mutex.Waiting.{Locks, Change-Locks, unlisted}

or_none : (b : Bool) → (b || false) ≡ b
or_none true = refl
or_none false = refl

-- The caller of `osi_mutex_acquire` at the end of the list, about to delay itself.
pub record Joins (s : Os) (tasks mutexes : List Ptr) (lists : Ptr → List Ptr) (m to : Ptr)
    : Type 0 where
  pub after : Os
  pub result : osi_mutex_acquire m to s ≡ (svc_delay to >> pure oss_error_to) after
  pub locks : Locks after tasks mutexes (update lists m (lists m ++ s.running ∷ []))
  pub blocks : BlocksOn after s.running m
  pub kept : Kept s after
  pub beside : Beside s after s.running
  pub scheduled : after.scheduled ≡ s.scheduled
  pub nrp : after.task.nrp ≡ s.task.nrp
  pub status : after.task.status ≡ s.task.status
  pub delay : after.task.delay ≡ s.task.delay
  pub runqueue : after.runqueue ≡ s.runqueue
  pub waitqueue : after.waitqueue ≡ s.waitqueue

-- A task that blocks on nothing and asks for a mutex of another owner, and gives it some time, comes to
-- stand at the end of the list of that mutex, behind the tasks that have asked before. The lists of the mutexes and
-- the fields of the tasks stay in step, and what is left to do is the delay.
pub osi_mutex_acquire-Joins :
    (s : Os) (tasks mutexes : List Ptr) (lists : Ptr → List Ptr) (m to : Ptr)
    → Locks s tasks mutexes lists
    → has m mutexes ≡ true
    → has s.running tasks ≡ true
    → (s.running == null) ≡ false
    → s.task.flags s.running ≡ 0
    → ((s.mutex m).level == 0) ≡ false
    → ((s.mutex m).owner == s.running) ≡ false
    → (to == 0) ≡ false
    → length (lists m) + 1 < rounds
    → Joins s tasks mutexes lists m to
unfolding osi_mutex_acquire blocked_enq svc_block
osi_mutex_acquire-Joins s tasks mutexes lists m to l here own live free taken other patient room =
    let f = l.loose s.running own free in
    let x = s.running in
    let live_m = l.live m here in
    let out = unlisted s tasks mutexes lists l x m here free in
    let a =
      blocked_append-Appended s (s.mutex m).blocked x (lists m) (l.short m here) live out
        (f.nblocked) (l.chains m here) in
    let after : Os = record s {
      mutex = update s.mutex m (record (s.mutex m) { blocked = a.after });
      task = record (s.task) {
        nblocked = a.next;
        mutex = update s.task.mutex x m;
        flags = update s.task.flags x flag_mutex;
      };
    } in
    let blocks : BlocksOn after x m = record {
      flags = rw ==_refl refl;
      waits_for = rw ==_refl refl;
      queue = f.queue;
      semaphore = f.semaphore;
      rwlock = f.rwlock;
    } in
    record {
      after = after;
      result = simp (live, f.mutex, live_m, taken, other, patient, a.result, free);
      locks =
          Change-Locks s after tasks mutexes lists l x m (lists m ++ x ∷ []) here
            (record {
              chain = rw ==_refl (a.chain);
              short = omega (arith, length-append (lists m) (x ∷ []), room);
              mutexes = λ k n. rw n refl;
              nblocked = λ b n o. a.same b o;
              flags = λ b n. rw n refl;
              mutex = λ b n. rw n refl;
              queue = refl;
              semaphore = refl;
              rwlock = refl;
              others = λ b n.
                  has-append b (lists m) (x ∷ []) ∙ rw (==_sym b x, n) (or_none (has b (lists m)));
              joins = λ h. (own, blocks);
              leaves = λ e. absurd (ground (arith, rw ==_refl at e));
              owner = inl (rw ==_refl refl);
              left = λ o e. absurd (ground (arith, o, has-append x (lists m) (x ∷ [])));
              held = λ e. let z = rw ==_refl at e in absurd (ground (arith, z, taken));
            })
            (λ k i n. unlisted s tasks mutexes lists l x k i free);
      blocks = blocks;
      kept = record {
        running = refl;
        idle = refl;
        state = refl;
        uptime = refl;
        memory = refl;
        priority = refl;
        stack = refl;
        sp = refl;
      };
      beside = record {
        flags = λ b n. rw n refl;
        mutex = λ b n. rw n refl;
        queue = refl;
        semaphore = refl;
        rwlock = refl;
      };
      scheduled = refl;
      nrp = refl;
      status = refl;
      delay = refl;
      runqueue = refl;
      waitqueue = refl;
    }
