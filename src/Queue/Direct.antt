-- ===== src/Queue/Direct.antt =====
-- The message that goes to a waiting receiver directly, in src/queue.c.
use arduino_osh.Base.{
  ℕ, ◌%◌, ◌<◌, ◌≤◌, ◌≡◌, refl, ap, ◌∙◌, inr, true, false, List, ◌∷◌, arith, ◌==◌, length, update,
  update-update, has, All, ==_refl, subst,
}
use arduino_osh.Types.{
  u32_mod, Ptr, null, Os, active, os_task_status_is_running, flag_queue, oss_success,
}
use arduino_osh.Machine.{ok, rounds, with_tasks, and_then, pure}
use arduino_osh.Chain.{Chain, Chain-Distinct, Chain-update, erase, insert}
use arduino_osh.Chain.Order.{erase_of_not_has, has-differ}
use arduino_osh.Blocked.Remove.{blocked_remove-Removed}
use arduino_osh.RunQueue.Add.{ranks_below}
use arduino_osh.Scheduler.{detach, detach_queue, osi_dispatch_or_queue}
use arduino_osh.Scheduler.Invariant.{Queues}
use arduino_osh.Scheduler.Queues.{outside}
use arduino_osh.Scheduler.Switch.{Queues-frame}
use arduino_osh.Scheduler.Now.{dispatch_now}
use arduino_osh.Scheduler.Resume.{Detaches, osi_dispatch-Resumed}
use arduino_osh.Stack.{word, return_regs, set_stacked_return_tuple, osi_task_return_regs}
use arduino_osh.Queue.Defs.{blocked_deq, receiver_waits, send_directly, osi_queue_enqueue}

-- The task blocks on the queue alone.
pub record BlocksOn (s : Os) (task queue : Ptr) : Type 0 where
  pub flags : s.task.flags task ≡ flag_queue
  pub waits_for : s.task.queue task ≡ queue
  pub mutex : s.task.mutex task ≡ null
  pub semaphore : s.task.semaphore task ≡ null
  pub rwlock : s.task.rwlock task ≡ null

-- A task that is no longer in the list of the queue comes off it all the same.
detach-Detaches :
    (s : Os) (task queue : Ptr) (xs : List Ptr)
    → BlocksOn s task queue
    → (task == null) ≡ false
    → (queue == null) ≡ false
    → Chain s.task.nblocked (s.queue queue).blocked.tasks xs
    → has task xs ≡ false
    → length xs < rounds
    → (d : Detaches s task) × (d.after.queue
        ≡ update s.queue queue (record (s.queue queue) { blocked = (d.after.queue queue).blocked }))
      × Chain d.after.task.nblocked (d.after.queue queue).blocked.tasks xs
      × (d.after.memory ≡ s.memory)
unfolding detach detach_queue
detach-Detaches s task queue xs b live live_queue c out fuel =
    let r = blocked_remove-Removed s (s.queue queue).blocked task xs fuel c in
    let after : Os = record s {
      queue = update s.queue queue (record (s.queue queue) { blocked = r.after });
      task = record (s.task) {
        nblocked = r.next;
        queue = update s.task.queue task null;
        flags = update s.task.flags task 0;
      };
    } in
    (
      record {
        after = after;
        result = simp (
          b.flags, live, b.waits_for, b.mutex, live_queue, b.semaphore, b.rwlock, r.result, ==_refl,
        );
        running = refl;
        idle = refl;
        nrp = refl;
        status = refl;
        priority = refl;
        delay = refl;
        runqueue = refl;
        waitqueue = refl;
      },
      rw ==_refl refl,
      rw ==_refl (subst (Chain r.next r.after.tasks) (erase_of_not_has task xs out) r.chain),
      refl,
    )

-- The queue with its first task taken off, and that task's registers with the message.
abbrev sent : Os → Ptr → Ptr → Ptr → Os
sent s queue task message = record s {
  queue = update s.queue queue (record (s.queue queue) {
    blocked = with_tasks (s.queue queue).blocked (s.task.nblocked task);
  });
  task = record (s.task) { nblocked = update s.task.nblocked task null };
  memory =
      update
        (update s.memory (word (return_regs s.arch (s.task.sp task) (s.task.stack_kind task)) 0)
          (oss_success % u32_mod))
        (word (return_regs s.arch (s.task.sp task) (s.task.stack_kind task)) 1) (message % u32_mod);
}

-- Two words, one behind the other.
two_words-first :
    (memory : ℕ → ℕ) (p : Ptr) (v w : ℕ)
    → update (update memory (word p 0) v) (word p 1) w (word p 0) ≡ v
two_words-first memory p v w =
    let apart : (word p 1 == word p 0) ≡ false = ground arith in simp (apart, ==_refl)

two_words-second :
    (memory : ℕ → ℕ) (p : Ptr) (v w : ℕ)
    → update (update memory (word p 0) v) (word p 1) w (word p 1) ≡ w
two_words-second memory p v w = simp ==_refl

enqueue_steps :
    (s after : Os) (queue task message : Ptr) (to : ℕ)
    → (s.running == null) ≡ false
    → s.task.nblocked s.running ≡ null
    → receiver_waits (s.queue queue) ≡ true
    → (s.queue queue).blocked.tasks ≡ task
    → (task == null) ≡ false
    → (queue == null) ≡ false
    → s.task.queue task ≡ queue
    → osi_dispatch_or_queue task (sent s queue task message) ≡ ok oss_success after
    → osi_queue_enqueue queue message to s ≡ ok oss_success after
unfolding osi_queue_enqueue send_directly blocked_deq set_stacked_return_tuple osi_task_return_regs
enqueue_steps s after queue task message to here none waits head live live_queue theirs h =
    simp (here, none, waits, head, live, live_queue, theirs, ==_refl)
      (ap (λ r. and_then (and_then r (λ _. pure tt)) (λ _. pure oss_success)) h)

-- The first waiting receiver has the message, and is about to run.
pub record Sent (s : Os) (queue task message : Ptr) (to : ℕ) (run waiting blocked : List Ptr)
    : Type 0 where
  pub after : Os
  pub result : osi_queue_enqueue queue message to s ≡ ok oss_success after
  pub status :
      after.memory (word (return_regs s.arch (s.task.sp task) (s.task.stack_kind task)) 0)
      ≡ oss_success
  pub value :
      after.memory (word (return_regs s.arch (s.task.sp task) (s.task.stack_kind task)) 1) ≡ message
  pub rings :
      after.queue
      ≡ update s.queue queue (record (s.queue queue) { blocked = (after.queue queue).blocked })
  pub still : Chain after.task.nblocked (after.queue queue).blocked.tasks blocked
  pub scheduled : after.scheduled ≡ task
  pub now_active : after.task.status task ≡ active
  pub queues : Queues after run waiting

-- Let the invariant of the queues hold. The running task stands in the run queue and blocks on
-- nothing. A receiver waits for the queue, and the first task of the queue's list waits in the wait
-- queue and blocks on the queue alone, is not the idle task, and no task of the run queue outranks
-- it. The running task sends a 32-bit message. The call succeeds whatever the time to wait. Then the
-- receiver will find success and the message for the result of its call in its saved registers, is
-- scheduled and active, and has moved from the wait queue to its place in the run queue. The ring
-- is as it was, and so are the other queues, the list of the queue has the other tasks still, and the invariant of the queues
-- holds.
pub osi_queue_enqueue-Sent :
    (s : Os) (queue task message : Ptr) (to : ℕ) (run waiting blocked : List Ptr)
    → Queues s run waiting
    → (queue == null) ≡ false
    → (s.running == null) ≡ false
    → s.task.nblocked s.running ≡ null
    → receiver_waits (s.queue queue) ≡ true
    → os_task_status_is_running (s.task.status s.running) ≡ true
    → has s.running run ≡ true
    → Chain s.task.nblocked (s.queue queue).blocked.tasks (task ∷ blocked)
    → length (task ∷ blocked) < rounds
    → BlocksOn s task queue
    → has task waiting ≡ true
    → (task == s.idle) ≡ false
    → All (λ a. s.task.priority a ≤ s.task.priority task) run
    → message < 4294967296
    → Sent s queue task message to
        (insert (ranks_below s task) task run)
        (erase task waiting)
        blocked
osi_queue_enqueue-Sent s queue task message to run waiting blocked q live_queue live_running none
      waits runs here c fuel b asleep not_idle low small =
    let live : (task == null) ≡ false = c.1 in
    let out : has task blocked ≡ false = (Chain-Distinct s.task.nblocked _ (task ∷ blocked) c).0 in
    let t = sent s queue task message in
    let other : (s.running == task) ≡ false =
      has-differ s.running task run here (outside s task run waiting q.lists live task asleep) in
    let bt : BlocksOn t task queue = record {
      flags = b.flags;
      waits_for = b.waits_for;
      mutex = b.mutex;
      semaphore = b.semaphore;
      rwlock = b.rwlock;
    } in
    let chain : Chain t.task.nblocked (t.queue queue).blocked.tasks blocked =
      rw ==_refl (Chain-update s.task.nblocked _ task null blocked c.2 out) in
    let (d, rings, rest, memory) =
      detach-Detaches t task queue blocked bt live live_queue chain out (omega (arith, fuel)) in
    let qt : Queues t run waiting = Queues-frame s t run waiting refl refl refl refl refl refl q in
    let r =
      osi_dispatch-Resumed t task run waiting qt live live_running other asleep (inr runs) not_idle
        d in
    let now =
      dispatch_now t task run _ (omega (arith, q.lists.room)) live q.lists.run_chain low r.result in
    let regs = return_regs s.arch (s.task.sp task) (s.task.stack_kind task) in
    let fits : message % u32_mod ≡ message = omega (arith, small) in
    let first : t.memory (word regs 0) ≡ oss_success = two_words-first s.memory regs _ _ in
    let second : t.memory (word regs 1) ≡ message = two_words-second s.memory regs _ _ ∙ fits in
    record {
      after = r.after;
      result =
          enqueue_steps s r.after queue task message to live_running none waits c.0 live live_queue
            b.waits_for now;
      status = ap (λ m. m (word regs 0)) r.memory ∙ ap (λ m. m (word regs 0)) memory ∙ first;
      value = ap (λ m. m (word regs 1)) r.memory ∙ ap (λ m. m (word regs 1)) memory ∙ second;
      rings = rw (r.rings) (rings ∙ simp (==_refl, update-update));
      still = rw (r.nblocked, r.rings) rest;
      scheduled = r.scheduled;
      now_active = r.now_active;
      queues = r.queues;
    }
