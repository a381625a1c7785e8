-- ===== src/Kernel/Chosen.antt =====
-- The schedule of a tick, `osi_schedule` of src/os.c: it wakes a task and chooses the one to run.
use arduino_osh.Base.{
  ◌≤◌, ◌≡◌, refl, sym, ap, ◌∙◌, ◌⊎◌, inl, inr, true, false, List, ◌∷◌, arith, ◌==◌, if◌then◌else◌,
  length, All, All-has, has, has-append, Bool-cases, subst, ==_sym, ==→eq, ==_refl,
}
use arduino_osh.Types.{Ptr, null, active, Os, Event, os_task_status_is_running, oss_success, is_mcu}
use arduino_osh.Machine.{ok}
use arduino_osh.Chain.{Chain}
use arduino_osh.Chain.Order.{Falling, has-differ}
use arduino_osh.Scheduler.{choose_and_dispatch, find_new_task}
use arduino_osh.Scheduler.Frame.{Kept, Kept-trans}
use arduino_osh.Scheduler.Invariant.{Queues}
use arduino_osh.Scheduler.Ready.{
  Woken, wake_loop-Woken, first_due, first_due-has, has-At, run_after, wait_after,
}
use arduino_osh.Scheduler.Turn.{Chain-live, find_new_task-Turn}
use arduino_osh.Scheduler.Switch.{Queues-same}
use arduino_osh.Kernel.Objects.{Objects, Objects-same, Objects-Untouched}
use arduino_osh.Kernel.Settled.{In, Fit, Begun, Settled, Pending}
use arduino_osh.Kernel.Dispatch.{Fit-Kept, Kept-same, Kept-pend, Ready, osi_dispatch-Pending}
use arduino_osh.Kernel.Choose.{choose_steps_stay, choose_steps_switch, pend-Pending}
use arduino_osh.Kernel.After.{All-around, after-In, has-around, run_after-has}

-- A schedule that leaves the system settled, or about to be.
pub record Chosen (mutexes : List Ptr) (s : Os) (run waiting : List Ptr) : Type 0 where
  pub after : Os
  pub result : choose_and_dispatch s.running s ≡ ok oss_success after
  pub outcome : Settled mutexes after run waiting ⊎ Pending mutexes after run waiting
  pub kept : Kept s after
  pub delays : (a : Ptr) → has a waiting ≡ true → after.task.delay a ≡ s.task.delay a

-- The task that the walk chooses once the task whose time has come is woken.
record Best (mutexes : List Ptr) (s : Os) (run waiting : List Ptr) : Type 0 where
  woken : Woken s run waiting
  task : Ptr
  trace : List Event
  result : find_new_task s.running woken.after ≡ ok task (record (woken.after) { trace = trace })
  found : has task (run_after s run waiting) ≡ true
  top :
      All
        (λ a. woken.after.task.priority a ≤ woken.after.task.priority task)
        (run_after s run waiting)

module _ (mutexes : List Ptr) (s : Os) (run waiting : List Ptr) (d : Begun mutexes s run waiting)
    (free : s.task.flags s.running ≡ 0) where
  abbrev run1 : List Ptr
  run1 = run_after s run waiting

  abbrev wait1 : List Ptr
  wait1 = wait_after s waiting

  pub live : (s.running == null) ≡ false
  live =
      All-has (λ a. (a == null) ≡ false) s.running run
        (Chain-live s.task.nrp s.runqueue run d.queues.lists.run_chain) d.here

  awake : (s.running == first_due s waiting) ≡ false
  awake = elim (Bool-cases (first_due s waiting == null)) [
    | inl none ↦ rw (==→eq (first_due s waiting) null none) live
    | inr some ↦
        ==_sym s.running (first_due s waiting)
        ∙ has-differ (first_due s waiting) s.running waiting (first_due-has s waiting some)
            (d.queues.lists.apart s.running d.here)
  ]

  best : Best mutexes s run waiting
  best =
      let w = wake_loop-Woken s run waiting d.queues in
      let s1 = w.after in
      let at = has-At s.running run1 (run_after-has s run waiting s.running d.here) in
      let turn =
        find_new_task-Turn s1 s.running at.front at.back
          (omega (arith, w.queues.lists.room, ap length at.split))
          (subst (λ l. Chain s1.task.nrp s1.runqueue l) at.split w.queues.lists.run_chain)
          (subst (All (λ a. os_task_status_is_running (s1.task.status a) ≡ true)) at.split
            w.queues.can_run)
          (subst (Falling s1.task.priority) at.split w.queues.ranked) in
      record {
        woken = w;
        task = turn.task;
        trace = turn.trace;
        result = turn.result;
        top =
            subst (All (λ a. s1.task.priority a ≤ s1.task.priority turn.task)) (sym at.split)
              (All-around _ s.running at.front at.back turn.choice.top);
        found =
            subst (λ l. has turn.task l ≡ true) (sym at.split)
              (has-around turn.task s.running at.front at.back (
                rw
                  (
                    turn.choice.split,
                    has-append turn.task turn.choice.before (turn.task ∷ turn.choice.after),
                    ==_refl,
                  )
                  (ground arith)));
      }

  woken-Fit :
      (w : Woken s run waiting) (trace : List Event) (a : Ptr)
      → In a run1 wait1
      → Fit (record (w.after) { trace = trace }) a
  woken-Fit w trace a i =
      let f = Fit-Kept s w.after a w.kept (d.fit a (after-In s run waiting a i)) in
      record { above = f.above; bounded = f.bounded; magic = f.magic }

  woken-Objects :
      (w : Woken s run waiting) (trace : List Event)
      → Objects mutexes (record (w.after) { trace = trace }) run1 wait1
  woken-Objects w trace =
      Objects-same mutexes w.after (record (w.after) { trace = trace }) run1 wait1 refl refl refl
        refl refl refl refl
        (Objects-Untouched mutexes s w.after run waiting run1 wait1 w.untouched
          (λ a i. after-In s run waiting a i) d.objects)

  module _ (b : Best mutexes s run waiting) where
    abbrev s2 : Os
    s2 = record (b.woken.after) { trace = b.trace }

    queues2 : Queues s2 run1 wait1
    queues2 = Queues-same b.woken.after s2 run1 wait1 refl refl refl b.woken.queues

    kept2 : Kept s s2
    kept2 = Kept-same s b.woken.after b.trace b.woken.kept

    active2 : s2.task.status s.running ≡ active
    active2 = b.woken.others s.running awake ∙ d.now_active

    stay : (b.task ≡ s.running) → Chosen mutexes s run1 wait1
    stay e = record {
      after = s2;
      result =
          choose_steps_stay s b.woken.after s2 s.running b.woken.result
            (subst (λ x. find_new_task s.running b.woken.after ≡ ok x s2) e b.result)
            (b.woken.scheduled ∙ d.none) live;
      outcome = inl (record {
        queues = queues2;
        none = b.woken.scheduled ∙ d.none;
        begun = kept2.state ∙ d.begun;
        here = rw (kept2.running) (run_after-has s run waiting s.running d.here);
        now_active = rw (kept2.running) active2;
        top = rw (kept2.running, ← e) (b.top);
        idle_here = rw (kept2.idle) (run_after-has s run waiting s.idle d.idle_here);
        fit = woken-Fit b.woken b.trace;
        objects = woken-Objects b.woken b.trace;
        free = rw (kept2.running) (b.woken.untouched.flags s.running ∙ free);
      });
      kept = kept2;
      delays = λ a i. ap (λ g. g a) b.woken.delay;
    }

    ready : (s.running == b.task) ≡ false → Ready mutexes s2 run1 wait1 b.task
    ready other = record {
      begun = kept2.state ∙ d.begun;
      live = rw (kept2.running) live;
      other = rw (kept2.running) other;
      left = rw (kept2.running) (ground (arith, run_after-has s run waiting s.running d.here));
      status = rw (kept2.running, active2) (inr refl);
      here = b.found;
      top = b.top;
      idle_here = rw (kept2.idle) (run_after-has s run waiting s.idle d.idle_here);
      fit = woken-Fit b.woken b.trace;
      objects = woken-Objects b.woken b.trace;
    }

    live_task : (b.task == null) ≡ false
    live_task =
        All-has (λ a. (a == null) ≡ false) b.task run1
          (Chain-live s2.task.nrp s2.runqueue run1 queues2.lists.run_chain) b.found

    switch : (s.running == b.task) ≡ false → Chosen mutexes s run1 wait1
    switch other =
        let dis = osi_dispatch-Pending mutexes s2 run1 wait1 b.task queues2 (ready other) in
        let after = dis.after in
        let pended = if is_mcu after.arch then true else after.pendsv in
        record {
          after = record after { pendsv = pended };
          result =
              choose_steps_switch s b.woken.after s2 after s.running b.task b.woken.result b.result
                live_task other dis.result (dis.pending.live_next);
          outcome = inr (pend-Pending mutexes after run1 wait1 pended dis.pending);
          kept = Kept-pend s after pended (Kept-trans s s2 after kept2 dis.kept);
          delays = λ a i.
              dis.delays a (has-differ a b.task wait1 i (queues2.lists.apart b.task b.found))
              ∙ ap (λ g. g a) b.woken.delay;
        }

  pub choose-Chosen : Chosen mutexes s run1 wait1
  choose-Chosen =
      let b = best in
      elim (Bool-cases (s.running == b.task)) [
        | inl e ↦ stay b (sym (==→eq s.running b.task e))
        | inr n ↦ switch b n
      ]
