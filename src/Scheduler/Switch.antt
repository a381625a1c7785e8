-- ===== src/Scheduler/Switch.antt =====
-- `osi_dispatch` of src/os.c, to a task of the run queue that blocks on nothing.
use arduino_osh.Base.{
  ◌<◌, ◌≡◌, refl, sym, ap, ◌∙◌, ◌⊎◌, inl, inr, true, false, List, [], ◌∷◌, arith, ◌==◌,
  if◌then◌else◌, length, All-has, update, has, Bool-cases, ==_sym, ==→eq, ==_refl,
}
use arduino_osh.Types.{
  Ptr, null, TaskStatus, active, wait, status_eq, os_task_status_is_running, Os, oss_success,
  is_mcu,
}
use arduino_osh.Machine.{ok, rounds}
use arduino_osh.Chain.Order.{All-map, has-differ, Rising-frame}
use arduino_osh.RunQueue.Check.{osi_priority_check-Traces}
use arduino_osh.Scheduler.Dispatch.{detach, switch_to, osi_dispatch}
use arduino_osh.Scheduler.Frame.{Kept, Untouched}
use arduino_osh.Scheduler.Invariant.{Queues}
use arduino_osh.Scheduler.Accounts.{
  Accounted, Left, account-Accounted, demoted, idle_check_ok, leave_status-Left,
}

-- A switch from the running task to `task`.
pub record Dispatched (s : Os) (task : Ptr) (run waiting : List Ptr) : Type 0 where
  pub after : Os
  pub result : osi_dispatch task s ≡ ok oss_success after
  pub queues : Queues after run waiting
  pub scheduled : after.scheduled ≡ task
  pub kept : Kept s after
  pub untouched : Untouched s after
  pub delays : (a : Ptr) → (a == task) ≡ false → after.task.delay a ≡ s.task.delay a
  pub now_active : after.task.status task ≡ active
  pub left : after.task.status s.running ≡ demoted (s.task.status s.running)
  pub others :
      (a : Ptr)
      → (a == task) ≡ false
      → (a == s.running) ≡ false
      → after.task.status a ≡ s.task.status a

-- The invariant reads these parts of the state only.
pub Queues-frame :
    (s s' : Os) (run waiting : List Ptr)
    → s'.task.nrp ≡ s.task.nrp
    → s'.task.status ≡ s.task.status
    → s'.task.priority ≡ s.task.priority
    → s'.task.delay ≡ s.task.delay
    → s'.runqueue ≡ s.runqueue
    → s'.waitqueue ≡ s.waitqueue
    → Queues s run waiting
    → Queues s' run waiting
Queues-frame s s' run waiting next status priority delay e f q = record {
  lists = record {
    run_chain = rw (next, e) (q.lists.run_chain);
    wait_chain = rw (next, f) (q.lists.wait_chain);
    apart = q.lists.apart;
    room = q.lists.room;
  };
  can_run = rw status (q.can_run);
  waits = rw status (q.waits);
  ranked = rw priority (q.ranked);
  due = rw delay (q.due);
}

pub Queues-same :
    (s s' : Os) (run waiting : List Ptr)
    → s'.task ≡ s.task
    → s'.runqueue ≡ s.runqueue
    → s'.waitqueue ≡ s.waitqueue
    → Queues s run waiting
    → Queues s' run waiting
Queues-same s s' run waiting e =
    Queues-frame s s' run waiting (ap (λ t. t.nrp) e) (ap (λ t. t.status) e)
      (ap (λ t. t.priority) e) (ap (λ t. t.delay) e)

is_running_not_wait :
    (t : TaskStatus) → os_task_status_is_running t ≡ true → status_eq t wait ≡ false
is_running_not_wait t h = ground (arith, h)

pub is_running-demoted :
    (t : TaskStatus)
    → os_task_status_is_running t ≡ true
    → os_task_status_is_running (demoted t) ≡ true
is_running-demoted t h = ground (arith, h)

module _ (s : Os) (task : Ptr) (run waiting : List Ptr) (q : Queues s run waiting)
    (live : (task == null) ≡ false) (live_running : (s.running == null) ≡ false)
    (other : (s.running == task) ≡ false) (ready : has task run ≡ true) where
  -- The state after the changes to the two tasks.
  abbrev switched : Left s s.running (s.task.status s.running) → Os
  switched l = record s {
    task = record (s.task) {
      status = update l.statuses task active;
      delay = update s.task.delay task 0;
      flags = update s.task.flags task 0;
    };
  }

  abbrev settled :
      (l : Left s s.running (s.task.status s.running)) → Accounted (switched l) s.running task → Os
  settled l a = record (switched l) {
    task = record ((switched l).task) { runtime = a.runtime; scheduled = a.scheduled };
    scheduled = task;
  }

  settled-Queues :
      (l : Left s s.running (s.task.status s.running)) (a : Accounted (switched l) s.running task)
      → Queues (settled l a) run waiting
  settled-Queues l a = record {
    lists = record {
      run_chain = q.lists.run_chain;
      wait_chain = q.lists.wait_chain;
      apart = q.lists.apart;
      room = q.lists.room;
    };
    can_run =
        All-map (λ a. os_task_status_is_running (s.task.status a) ≡ true) _ run
          (λ a i p. elim (Bool-cases (task == a)) [
            | inl e ↦ rw e refl
            | inr n ↦ rw n (elim (Bool-cases (a == s.running)) [
              | inl r ↦
                  let same : a ≡ s.running = ==→eq a s.running r in
                  rw (ap l.statuses same ∙ l.own)
                    (is_running-demoted (s.task.status s.running) (rw (ap s.task.status same) at p))
              | inr d ↦ rw (l.same a d) p
            ])
          ])
          q.can_run;
    waits =
        All-map (λ a. s.task.status a ≡ wait) _ waiting
          (λ a i p.
            rw (==_sym task a ∙ has-differ a task waiting i (q.lists.apart task ready))
              (elim (Bool-cases (a == s.running)) [
                | inl r ↦
                    let same : a ≡ s.running = ==→eq a s.running r in
                    ap l.statuses same ∙ l.own ∙ ap demoted (sym (ap s.task.status same) ∙ p)
                | inr d ↦ l.same a d ∙ p
              ]))
          q.waits;
    ranked = q.ranked;
    due =
        Rising-frame s.task.delay _ waiting
          (λ a i. rw (==_sym task a ∙ has-differ a task waiting i (q.lists.apart task ready)) refl)
          q.due;
  }

  -- Let the invariant of the queues hold. The running task is active, has been made idle already, or waits. It switches to another task
  -- of the run queue, which blocks on nothing, and which is the idle task only if it is alone there.
  -- `osi_dispatch` returns. Then the other task is scheduled and active, the running task is idle or
  -- still waits, no other task changes its status, and the invariant of the queues holds, with the
  -- same queues.
  pub osi_dispatch-Dispatched :
      s.task.flags task ≡ 0
      → (s.task.status s.running ≡ wait)
        ⊎ (os_task_status_is_running (s.task.status s.running) ≡ true)
      → ((task == s.idle) ≡ false) ⊎ (run ≡ task ∷ [])
      → Dispatched s task run waiting
  unfolding osi_dispatch switch_to detach
  osi_dispatch-Dispatched free status not_idle =
      let l = leave_status-Left s s.running (s.task.status s.running) live_running refl status in
      let a = account-Accounted (switched l) s.running task live_running live in
      let fuel : length run < rounds = omega (arith, q.lists.room) in
      let checked =
        idle_check_ok
          (record (switched l) {
            task = record ((switched l).task) { runtime = a.runtime; scheduled = a.scheduled };
          })
          task run fuel q.lists.run_chain not_idle in
      let check = osi_priority_check-Traces (settled l a) task run fuel q.lists.run_chain in
      let away : (task == s.running) ≡ false = ==_sym task s.running ∙ other in
      let old : status_eq (l.statuses task) wait ≡ false =
        rw (l.same task away) (is_running_not_wait _ (All-has _ task run q.can_run ready)) in
      let end : Os = record (settled l a) { trace = check.trace } in
      let pended = record end { pendsv = if is_mcu s.arch then true else s.pendsv } in
      record {
        after = pended;
        result = elim (Bool-cases (is_mcu s.arch)) [
          | inl m ↦
              simp
                (live, live_running, other, free, l.result, old, a.result, checked, check.result, m)
          | inr m ↦
              simp
                (live, live_running, other, free, l.result, old, a.result, checked, check.result, m)
        ];
        queues = Queues-same (settled l a) pended run waiting refl refl refl (settled-Queues l a);
        scheduled = refl;
        kept = record {
          running = refl;
          idle = refl;
          state = refl;
          uptime = refl;
          memory = refl;
          priority = refl;
          stack = refl;
          sp = refl;
        };
        untouched = record {
          flags = λ b. elim (Bool-cases (task == b)) [
            | inl e ↦ rw e (sym (ap s.task.flags (sym (==→eq task b e)) ∙ free))
            | inr n ↦ rw n refl
          ];
          nblocked = refl;
          mutex = refl;
          queue = refl;
          semaphore = refl;
          rwlock = refl;
          mutexes = refl;
        };
        delays = λ b n. rw (==_sym task b ∙ n) refl;
        now_active = rw ==_refl refl;
        left = rw (==_sym task s.running ∙ other) (l.own);
        others = λ b n m. rw (==_sym task b ∙ n) (l.same b m);
      }
