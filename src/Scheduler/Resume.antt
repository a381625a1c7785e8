-- ===== src/Scheduler/Resume.antt =====
-- `osi_dispatch` of src/os.c, to a task that waits: it leaves what it blocks on and the wait queue, and
-- takes its place in the run queue.
use arduino_osh.Base.{
  ◌<◌, ◌≡◌, refl, sym, ap, ◌∙◌, ◌⊎◌, inl, inr, true, false, List, arith, ◌==◌, ltb, subst,
  if◌then◌else◌, length, All, All-has, update, has, Bool-cases, ==_sym, ==→eq, ==_refl,
}
use arduino_osh.Types.{
  Ptr, null, active, wait, status_eq, os_task_status_is_running, Os, oss_success, is_mcu,
}
use arduino_osh.Machine.{ok, rounds, ◌>>◌}
use arduino_osh.Chain.{Chain-Distinct, erase, insert}
use arduino_osh.Chain.Order.{
  Falling-insert, Rising-erase, Rising-frame, All-map, All-insert, All-erase, has-differ,
  has-insert, not-has-erase, has-erase_self, length-erase, length-insert,
}
use arduino_osh.RunQueue.Add.{ranks_below}
use arduino_osh.RunQueue.Check.{osi_priority_check-Traces}
use arduino_osh.RunQueue.{runqueue_add}
use arduino_osh.WaitQueue.{waitqueue_remove}
use arduino_osh.Scheduler.Dispatch.{detach, osi_dispatch, switch_to}
use arduino_osh.Scheduler.Invariant.{Queues}
use arduino_osh.Scheduler.Queues.{Lists, Requeued, relink, move_to_run, outside}
use arduino_osh.Scheduler.Accounts.{
  Left, leave_status-Left, account-Accounted, idle_check_ok, demoted,
}
use arduino_osh.Scheduler.Switch.{is_running-demoted, Queues-frame}

-- The task comes off what it blocks on, and the queues stay as they are.
pub record Detaches (s : Os) (task : Ptr) : Type 0 where
  pub after : Os
  pub result : detach task s ≡ ok tt after
  pub running : after.running ≡ s.running
  pub idle : after.idle ≡ s.idle
  pub nrp : after.task.nrp ≡ s.task.nrp
  pub status : after.task.status ≡ s.task.status
  pub priority : after.task.priority ≡ s.task.priority
  pub delay : after.task.delay ≡ s.task.delay
  pub runqueue : after.runqueue ≡ s.runqueue
  pub waitqueue : after.waitqueue ≡ s.waitqueue

pub record Resumed (s : Os) (task : Ptr) (d : Detaches s task) (run waiting : List Ptr)
    : Type 0 where
  pub after : Os
  pub result : osi_dispatch task s ≡ ok oss_success after
  pub queues : Queues after run waiting
  pub scheduled : after.scheduled ≡ task
  pub now_active : after.task.status task ≡ active
  pub left : after.task.status s.running ≡ demoted (s.task.status s.running)
  pub mutexes : after.mutex ≡ d.after.mutex
  pub rings : after.queue ≡ d.after.queue
  pub memory : after.memory ≡ d.after.memory
  pub nblocked : after.task.nblocked ≡ d.after.task.nblocked

-- Behind `detach`.
module _ (s : Os) (r task : Ptr) (run waiting : List Ptr) (q : Queues s run waiting)
    (live : (task == null) ≡ false) (live_running : (r == null) ≡ false)
    (other : (r == task) ≡ false) (asleep : has task waiting ≡ true)
    (l : Left s r (s.task.status r)) where
  away : (task == r) ≡ false
  away = ==_sym task r ∙ other

  abbrev woken : Os
  woken = record s {
    task = record (s.task) {
      status = update l.statuses task active;
      delay = update s.task.delay task 0;
      flags = update s.task.flags task 0;
    };
  }

  woken-Lists : Lists woken run waiting
  woken-Lists = record {
    run_chain = q.lists.run_chain;
    wait_chain = q.lists.wait_chain;
    apart = q.lists.apart;
    room = q.lists.room;
  }

  abbrev run1 : List Ptr
  run1 = insert (ranks_below s task) task run

  abbrev wait1 : List Ptr
  wait1 = erase task waiting

  alone : has task wait1 ≡ false
  alone = has-erase_self task waiting (Chain-Distinct _ _ waiting q.lists.wait_chain)

  out : has task run ≡ false
  out = outside s task run waiting q.lists live task asleep

  moved : Requeued woken run1 wait1 (do waitqueue_remove task; runqueue_add task)
  moved = move_to_run woken task run waiting woken-Lists live asleep (rw ==_refl refl)

  abbrev relinked :
      (m : Requeued woken run1 wait1 (do waitqueue_remove task; runqueue_add task)) → Os
  relinked m = relink woken m.next m.run_head m.wait_head m.trace

  can_run : All (λ a. os_task_status_is_running (woken.task.status a) ≡ true) run1
  can_run = All-insert _ _ task run (rw ==_refl refl) (
      All-map (λ a. os_task_status_is_running (s.task.status a) ≡ true) _ run
        (λ a i p. rw (==_sym task a ∙ has-differ a task run i out) (elim (Bool-cases (a == r)) [
          | inl is ↦
              let same : a ≡ r = ==→eq a r is in
              rw (ap l.statuses same ∙ l.own)
                (is_running-demoted (s.task.status r) (rw (ap s.task.status same) at p))
          | inr d ↦ rw (l.same a d) p
        ]))
        q.can_run)

  waits : All (λ a. woken.task.status a ≡ wait) wait1
  waits =
      All-map (λ a. s.task.status a ≡ wait) _ wait1
        (λ a i p. rw (==_sym task a ∙ has-differ a task wait1 i alone) (elim (Bool-cases (a == r)) [
          | inl is ↦
              let same : a ≡ r = ==→eq a r is in
              ap l.statuses same ∙ l.own ∙ ap demoted (sym (ap s.task.status same) ∙ p)
          | inr d ↦ l.same a d ∙ p
        ]))
        (All-erase _ task waiting q.waits)

  moved-Queues :
      (m : Requeued woken run1 wait1 (do waitqueue_remove task; runqueue_add task))
      → Queues (relinked m) run1 wait1
  moved-Queues m = record {
    lists = record {
      run_chain = m.run_chain;
      wait_chain = m.wait_chain;
      apart = λ a j. elim (Bool-cases (a == task)) [
        | inl e ↦ rw (==→eq a task e) alone
        | inr n ↦
            not-has-erase a task waiting
              (q.lists.apart a (rw (has-insert (ranks_below s task) a task run, n) at j))
      ];
      room = omega (
        arith,
        q.lists.room,
        length-erase task waiting asleep,
        length-insert (ranks_below s task) task run,
      );
    };
    can_run = can_run;
    waits = waits;
    ranked = Falling-insert s.task.priority task run q.ranked;
    due =
        Rising-frame s.task.delay _ wait1
          (λ a i. rw (==_sym task a ∙ has-differ a task wait1 i alone) refl)
          (Rising-erase s.task.delay task waiting q.due);
  }

-- Let the invariant of the queues hold. The running task can run or waits. It switches to a task
-- that waits, which is not the idle task, and which comes off what it blocks on. `osi_dispatch`
-- returns. Then the task is scheduled and active, and has moved from the wait queue to its place in
-- the run queue, the running task is idle or still waits, and the invariant of the queues holds.
pub osi_dispatch-Resumed :
    (s : Os) (task : Ptr) (run waiting : List Ptr)
    → Queues s run waiting
    → (task == null) ≡ false
    → (s.running == null) ≡ false
    → (s.running == task) ≡ false
    → has task waiting ≡ true
    → (s.task.status s.running ≡ wait)
      ⊎ (os_task_status_is_running (s.task.status s.running) ≡ true)
    → (task == s.idle) ≡ false
    → (d : Detaches s task)
    → Resumed s task d (insert (ranks_below s task) task run) (erase task waiting)
unfolding osi_dispatch switch_to
osi_dispatch-Resumed s task run waiting q live live_running other asleep status not_idle d =
    let r = s.running in
    let s1 = d.after in
    let q1 =
      Queues-frame s s1 run waiting d.nrp d.status d.priority d.delay d.runqueue d.waitqueue q in
    let same : s1.task.status r ≡ s.task.status r = ap (λ f. f r) d.status in
    let l = leave_status-Left s1 r (s1.task.status r) live_running refl (rw same status) in
    let m = moved s1 r task run waiting q1 live live_running other asleep l in
    let s2 = relinked s1 r task run waiting q1 live live_running other asleep l m in
    let a = account-Accounted s2 r task live_running live in
    let s3 : Os = record s2 {
      task = record (s2.task) { runtime = a.runtime; scheduled = a.scheduled };
    } in
    let queues2 = moved-Queues s1 r task run waiting q1 live live_running other asleep l m in
    let fuel : length (insert (ranks_below s1 task) task run) < rounds =
      omega (arith, queues2.lists.room) in
    let checked =
      idle_check_ok s3 task _ fuel queues2.lists.run_chain (inl (rw (d.idle) not_idle)) in
    let s4 : Os = record s3 { scheduled = task } in
    let check = osi_priority_check-Traces s4 task _ fuel queues2.lists.run_chain in
    let waits : status_eq (l.statuses task) wait ≡ true =
      rw
        (
          l.same task (==_sym task r ∙ other),
          d.status,
          All-has (λ b. s.task.status b ≡ wait) task waiting q.waits asleep,
        )
        refl in
    let after : Os = record s4 {
      trace = check.trace;
      pendsv = if is_mcu s4.arch then true else s4.pendsv;
    } in
    let resumed : Resumed s task d (insert (ranks_below s1 task) task run) (erase task waiting) =
      record {
        after = after;
        result = elim (Bool-cases (is_mcu s1.arch)) [
          | inl u ↦ simp (
            live, live_running, other, d.result, l.result, waits, m.result, a.result, checked,
            check.result, u,
          )
          | inr u ↦ simp (
            live, live_running, other, d.result, l.result, waits, m.result, a.result, checked,
            check.result, u,
          )
        ];
        queues = Queues-frame s2 after _ _ refl refl refl refl refl refl queues2;
        scheduled = refl;
        now_active = rw ==_refl refl;
        left = rw (==_sym task r ∙ other) (l.own ∙ ap demoted same);
        mutexes = refl;
        rings = refl;
        memory = refl;
        nblocked = refl;
      } in
    subst (λ f. Resumed s task d (insert (λ x. ltb (f x) (f task)) task run) (erase task waiting))
      d.priority resumed
