-- ===== src/Mutex/Handover.antt =====
-- The release of a mutex for which tasks wait, in src/mutex.c: the first of them gets it and runs.
use arduino_osh.Base.{
  ◌%◌, ◌<◌, ◌≤◌, All, ◌≡◌, refl, ap, ◌∙◌, inr, true, false, List, [], ◌∷◌, arith, ◌==◌, length,
  update, has, ==_refl, ==_sym, subst, update-update,
}
use arduino_osh.Types.{
  u32_mod, Ptr, null, Os, active, os_task_status_is_running, flag_mutex, oss_success,
}
use arduino_osh.Machine.{ok, rounds, with_tasks, and_then, pure}
use arduino_osh.Chain.{Chain, Chain-Distinct, Chain-update, erase, insert}
use arduino_osh.Chain.Order.{erase_of_not_has, has-differ}
use arduino_osh.Blocked.Remove.{blocked_remove-Removed}
use arduino_osh.RunQueue.Add.{ranks_below}
use arduino_osh.Scheduler.{detach, detach_mutex, osi_dispatch_or_queue}
use arduino_osh.Scheduler.Invariant.{Queues}
use arduino_osh.Scheduler.Queues.{outside}
use arduino_osh.Scheduler.Now.{dispatch_now}
use arduino_osh.Scheduler.Switch.{Queues-frame}
use arduino_osh.Scheduler.Resume.{Detaches, osi_dispatch-Resumed}
use arduino_osh.Stack.{word, return_regs, osi_task_set_stacked_return, osi_task_return_regs}
use arduino_osh.Mutex.Defs.{blocked_deq, hand_over, osi_mutex_release}

-- The task blocks on the mutex alone.
pub record BlocksOn (s : Os) (task mutex : Ptr) : Type 0 where
  pub flags : s.task.flags task ≡ flag_mutex
  pub waits_for : s.task.mutex task ≡ mutex
  pub queue : s.task.queue task ≡ null
  pub semaphore : s.task.semaphore task ≡ null
  pub rwlock : s.task.rwlock task ≡ null

head_apart :
    (next : Ptr → Ptr) (p task : Ptr) (xs : List Ptr)
    → Chain next p xs
    → (task == null) ≡ false
    → has task xs ≡ false
    → (p == task) ≡ false
head_apart next p task [] c live out = rw c (==_sym null task ∙ live)
head_apart next p task (x ∷ xs) c live out = rw (c.0, ==_sym x task) (ground (arith, out))

-- A task that is no longer in the list of the mutex comes off it all the same.
pub detach-Detaches :
    (s : Os) (task mutex : Ptr) (xs : List Ptr)
    → BlocksOn s task mutex
    → (task == null) ≡ false
    → (mutex == null) ≡ false
    → Chain s.task.nblocked (s.mutex mutex).blocked.tasks xs
    → has task xs ≡ false
    → length xs < rounds
    → (d : Detaches s task) × ((d.after.mutex mutex).owner ≡ (s.mutex mutex).owner)
      × ((d.after.mutex mutex).level ≡ (s.mutex mutex).level)
      × Chain d.after.task.nblocked (d.after.mutex mutex).blocked.tasks xs
      × (d.after.memory ≡ s.memory)
unfolding detach detach_mutex
detach-Detaches s task mutex xs b live live_mutex c out fuel =
    let r = blocked_remove-Removed s (s.mutex mutex).blocked task xs fuel c in
    let apart = head_apart s.task.nblocked (s.mutex mutex).blocked.tasks task xs c live out in
    let after : Os = record s {
      mutex = update s.mutex mutex (record (s.mutex mutex) { blocked = r.after });
      task = record (s.task) {
        nblocked = r.next;
        mutex = update s.task.mutex task null;
        flags = update s.task.flags task 0;
      };
    } in
    (
      record {
        after = after;
        result = simp (
          b.flags, live, b.queue, b.waits_for, live_mutex, b.semaphore, b.rwlock, apart, r.result,
          ==_refl,
        );
        running = refl;
        idle = refl;
        nrp = refl;
        status = refl;
        priority = refl;
        delay = refl;
        runqueue = refl;
        waitqueue = refl;
      },
      rw ==_refl refl,
      rw ==_refl refl,
      rw ==_refl (subst (Chain r.next r.after.tasks) (erase_of_not_has task xs out) r.chain),
      refl,
    )

-- The lock of the mutex, with the first of its tasks as its owner.
abbrev handed : Os → Ptr → Ptr → Os
handed s mutex task = record s {
  mutex =
      update
        (update s.mutex mutex (record (s.mutex mutex) {
          blocked = with_tasks (s.mutex mutex).blocked (s.task.nblocked task);
        }))
        mutex
        (record (s.mutex mutex) {
          blocked = with_tasks (s.mutex mutex).blocked (s.task.nblocked task);
          owner = task;
          level = 1;
        });
  task = record (s.task) { nblocked = update s.task.nblocked task null };
  memory =
      update s.memory (word (return_regs s.arch (s.task.sp task) (s.task.stack_kind task)) 0)
        (oss_success % u32_mod);
}

hand_over_steps :
    (s after : Os) (mutex task : Ptr)
    → (s.mutex mutex).blocked.tasks ≡ task
    → (task == null) ≡ false
    → (mutex == null) ≡ false
    → s.task.mutex task ≡ mutex
    → osi_dispatch_or_queue task (handed s mutex task) ≡ ok oss_success after
    → hand_over mutex s ≡ ok oss_success after
unfolding hand_over blocked_deq osi_task_set_stacked_return osi_task_return_regs
hand_over_steps s after mutex task head live live_mutex waits h =
    simp (head, live, live_mutex, waits, ==_refl) (ap (λ r. and_then r (λ _. pure oss_success)) h)

-- The mutex with no owner.
abbrev freed : Os → Ptr → Os
freed s mutex = record s {
  mutex = update s.mutex mutex (record (s.mutex mutex) { owner = null; level = 0 });
}

release_steps :
    (s after : Os) (mutex : Ptr)
    → (mutex == null) ≡ false
    → (s.running == null) ≡ false
    → (s.mutex mutex).level ≡ 1
    → (s.mutex mutex).owner ≡ s.running
    → s.task.mutex s.running ≡ null
    → hand_over mutex (freed s mutex) ≡ ok oss_success after
    → osi_mutex_release mutex s ≡ ok oss_success after
unfolding osi_mutex_release
release_steps s after mutex live_mutex live once ours none h =
    simp (live_mutex, once, ours, live, none, ==_refl, update-update) h

-- The first of the waiting tasks has the mutex, and is about to run.
pub record Handed (s : Os) (mutex task : Ptr) (run waiting blocked : List Ptr) : Type 0 where
  pub after : Os
  pub result : osi_mutex_release mutex s ≡ ok oss_success after
  pub owner : (after.mutex mutex).owner ≡ task
  pub level : (after.mutex mutex).level ≡ 1
  pub answer :
      after.memory (word (return_regs s.arch (s.task.sp task) (s.task.stack_kind task)) 0)
      ≡ oss_success
  pub scheduled : after.scheduled ≡ task
  pub now_active : after.task.status task ≡ active
  pub still : Chain after.task.nblocked (after.mutex mutex).blocked.tasks blocked
  pub queues : Queues after run waiting

-- Let the invariant of the queues hold. The running task, which stands in the run queue and waits for
-- no mutex, holds the mutex once. The first task of the mutex's list waits in the wait queue and
-- blocks on the mutex alone, is not the idle task, and no task of the run queue outranks it. The
-- running task's release returns. Then the first task holds the mutex once, will find success for
-- the result of its call in its saved registers, is scheduled and active, and has moved from the
-- wait queue to its place in the run queue. The list of the mutex has the other tasks still, and the
-- invariant of the queues holds.
pub osi_mutex_release-Handed :
    (s : Os) (mutex task : Ptr) (run waiting blocked : List Ptr)
    → Queues s run waiting
    → (mutex == null) ≡ false
    → (s.running == null) ≡ false
    → (s.mutex mutex).level ≡ 1
    → (s.mutex mutex).owner ≡ s.running
    → s.task.mutex s.running ≡ null
    → os_task_status_is_running (s.task.status s.running) ≡ true
    → has s.running run ≡ true
    → Chain s.task.nblocked (s.mutex mutex).blocked.tasks (task ∷ blocked)
    → length (task ∷ blocked) < rounds
    → BlocksOn s task mutex
    → has task waiting ≡ true
    → (task == s.idle) ≡ false
    → All (λ a. s.task.priority a ≤ s.task.priority task) run
    → Handed s mutex task (insert (ranks_below s task) task run) (erase task waiting) blocked
osi_mutex_release-Handed s mutex task run waiting blocked q live_mutex live_running once ours none
      runs here c fuel b asleep not_idle low =
    let live : (task == null) ≡ false = c.1 in
    let out : has task blocked ≡ false = (Chain-Distinct s.task.nblocked _ (task ∷ blocked) c).0 in
    let t = handed (freed s mutex) mutex task in
    let other : (s.running == task) ≡ false =
      has-differ s.running task run here (outside s task run waiting q.lists live task asleep) in
    let bt : BlocksOn t task mutex = record {
      flags = b.flags;
      waits_for = b.waits_for;
      queue = b.queue;
      semaphore = b.semaphore;
      rwlock = b.rwlock;
    } in
    let chain : Chain t.task.nblocked (t.mutex mutex).blocked.tasks blocked =
      rw ==_refl (Chain-update s.task.nblocked _ task null blocked c.2 out) in
    let (d, owner, level, rest, memory) =
      detach-Detaches t task mutex blocked bt live live_mutex chain out (omega (arith, fuel)) in
    let qt : Queues t run waiting = Queues-frame s t run waiting refl refl refl refl refl refl q in
    let r =
      osi_dispatch-Resumed t task run waiting qt live live_running other asleep (inr runs) not_idle
        d in
    let now =
      dispatch_now t task run _ (omega (arith, q.lists.room)) live q.lists.run_chain low r.result in
    let head : ((freed s mutex).mutex mutex).blocked.tasks ≡ task = rw ==_refl (c.0) in
    let given =
      hand_over_steps (freed s mutex) r.after mutex task head live live_mutex b.waits_for now in
    let slot = word (return_regs s.arch (s.task.sp task) (s.task.stack_kind task)) 0 in
    let written : t.memory slot ≡ oss_success = rw ==_refl refl in
    record {
      after = r.after;
      still = rw (r.nblocked, r.mutexes) rest;
      result = release_steps s r.after mutex live_mutex live_running once ours none given;
      owner = ap (λ m. (m mutex).owner) r.mutexes ∙ owner ∙ rw ==_refl refl;
      level = ap (λ m. (m mutex).level) r.mutexes ∙ level ∙ rw ==_refl refl;
      answer = ap (λ m. m slot) r.memory ∙ ap (λ m. m slot) memory ∙ written;
      scheduled = r.scheduled;
      now_active = r.now_active;
      queues = r.queues;
    }
