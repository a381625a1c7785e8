-- ===== src/Kernel/Reschedule.antt =====
-- `svc_delay` chooses another task for the one that it has put into the wait queue (src/service.c).
use arduino_osh.Base.{
  ℕ, ◌<◌, ◌≡◌, refl, ap, ◌∙◌, inl, inr, true, false, List, arith, ◌==◌, if◌then◌else◌, All-has, has,
  Bool-cases, ==_sym, ==→eq, ==→ne, ==_refl,
}
use arduino_osh.Types.{Ptr, null, wait, Os, is_mcu}
use arduino_osh.Machine.{ok}
use arduino_osh.Chain.Order.{has-insert, has-erase, has-erase_other, has-differ, Rising-frame}
use arduino_osh.WaitQueue.Add.{due_after}
use arduino_osh.Scheduler.Queues.{relink}
use arduino_osh.Scheduler.Turn.{Chain-live}
use arduino_osh.Scheduler.Frame.{Kept, Kept-trans, Untouched, Untouched-trans}
use arduino_osh.Scheduler.Invariant.{Queues, StatusSet, StatusSet-wait, with_status}
use arduino_osh.Scheduler.Ready.{Woken, wake_loop-Woken, first_due, run_after, wait_after}
use arduino_osh.Scheduler.Switch.{Queues-same}
use arduino_osh.Service.{reschedule}
use arduino_osh.Service.Delay.{osi_schedule_steps, reschedule_steps}
use arduino_osh.Kernel.Objects.{Objects-same, Objects-Untouched}
use arduino_osh.Kernel.Settled.{In, Begun, Pending}
use arduino_osh.Kernel.Dispatch.{Fit-Kept, Kept-same, Kept-pend, Ready, osi_dispatch-Pending}
use arduino_osh.Kernel.Choose.{Picked, find_new_task-Picked, choose_steps_switch, pend-Pending}
use arduino_osh.Kernel.After.{run_after-has, after-In}
use arduino_osh.Kernel.Asleep.{InTime, asleep, first_due-due, is_due-asleep, run_without, wait_with}

-- The common end of the calls, with a switch under way.
pub record SchedulesFrom (mutexes : List Ptr) (s s1 : Os) (run waiting : List Ptr) : Type 0 where
  pub after : Os
  pub result : reschedule s1 ≡ ok tt after
  pub pending : Pending mutexes after run waiting
  pub kept : Kept s after
  pub delay : after.task.delay s.running ≡ s1.task.delay s.running

module _ (mutexes : List Ptr) (s : Os) (ms : ℕ) (run waiting : List Ptr)
    (d : Begun mutexes s run waiting) (busy : (s.running == s.idle) ≡ false)
    (time : InTime s ms) where
  abbrev run1 : List Ptr
  run1 = run_without s run

  abbrev wait1 : List Ptr
  wait1 = wait_with s ms waiting

  pub live : (s.running == null) ≡ false
  live =
      All-has (λ a. (a == null) ≡ false) s.running run
        (Chain-live s.task.nrp s.runqueue run d.queues.lists.run_chain) d.here

  asleep-Queues : Queues (asleep s ms) run waiting
  asleep-Queues = record {
    lists = record {
      run_chain = d.queues.lists.run_chain;
      wait_chain = d.queues.lists.wait_chain;
      apart = d.queues.lists.apart;
      room = d.queues.lists.room;
    };
    can_run = d.queues.can_run;
    waits = d.queues.waits;
    ranked = d.queues.ranked;
    due =
        Rising-frame s.task.delay _ waiting
          (λ a i.
            rw
              (==_sym s.running a
                ∙ has-differ a s.running waiting i (d.queues.lists.apart s.running d.here))
              refl)
          d.queues.due;
  }

  pub put_asleep : StatusSet (asleep s ms) s.running wait run1 wait1
  put_asleep = StatusSet-wait (asleep s ms) s.running run waiting asleep-Queues live d.here

  pub moved-In : (a : Ptr) → In a run1 wait1 → In a run waiting
  moved-In a i = elim (Bool-cases (a == s.running)) [
    | inl e ↦ let own : has a run ≡ true = rw (==→eq a s.running e) (d.here) in ground (arith, own)
    | inr n ↦ elim (Bool-cases (has a run1)) [
      | inl r ↦ let own : has a run ≡ true = has-erase a s.running run r in ground (arith, own)
      | inr o ↦
          let j =
            rw (o, has-insert (due_after (asleep s ms) s.running) a s.running waiting, n) at i in
          ground (arith, j)
    ]
  ]

  idle_left : has s.idle run1 ≡ true
  idle_left = has-erase_other s.idle s.running run (==_sym s.idle s.running ∙ busy) d.idle_here

  module _ (set : StatusSet (asleep s ms) s.running wait run1 wait1) where
    abbrev pub s1 : Os
    s1 =
        relink (with_status (asleep s ms) s.running wait) set.next set.run_head set.wait_head
          set.trace

    kept1 : Kept s s1
    kept1 = record {
      running = refl;
      idle = refl;
      state = refl;
      uptime = refl;
      memory = refl;
      priority = refl;
      stack = refl;
      sp = refl;
    }

    untouched1 : Untouched s s1
    untouched1 = record {
      flags = λ a. refl;
      nblocked = refl;
      mutex = refl;
      queue = refl;
      semaphore = refl;
      rwlock = refl;
      mutexes = refl;
    }

    -- The schedule behind it wakes at most a task that is due, which the caller is not.
    pub woken : Woken s1 run1 wait1
    woken = wake_loop-Woken s1 run1 wait1 set.queues

    abbrev pub run2 : List Ptr
    run2 = run_after s1 run1 wait1

    abbrev pub wait2 : List Ptr
    wait2 = wait_after s1 wait1

    pub still_waits : has s.running wait2 ≡ true
    still_waits = elim (Bool-cases (first_due s1 wait1 == null)) [
      | inl none ↦ rw none joined
      | inr some ↦ rw some (
          has-erase_other s.running (first_due s1 wait1) wait1
            (first_due-due s1 s.running wait1 (is_due-asleep s ms time) live) joined)
    ]
      where
        joined : has s.running wait1 ≡ true
        joined =
            rw (has-insert (due_after (asleep s ms) s.running) s.running s.running waiting, ==_refl)
              refl

    outranks : s.task.priority s.idle < s.task.priority s.running
    outranks = elim ((d.fit s.running (ground (arith, d.here))).above) [
      | inl e ↦ absurd (==→ne s.running s.idle busy e)
      | inr lt ↦ lt
    ]

    woken-Kept : Kept s woken.after
    woken-Kept = Kept-trans s s1 woken.after kept1 woken.kept

    idle_ready : has s.idle run2 ≡ true
    idle_ready = run_after-has s1 run1 wait1 s.idle idle_left

    pub picked : Picked woken.after s.running run2
    picked =
        find_new_task-Picked woken.after s.running s.idle run2 wait2 woken.queues still_waits
          idle_ready (rw (woken-Kept.priority) outranks)

    module _ (p : Picked woken.after s.running run2) where
      abbrev s2 : Os
      s2 = record (woken.after) { trace = p.trace }

      kept2 : Kept s s2
      kept2 = Kept-same s woken.after p.trace woken-Kept

      queues2 : Queues s2 run2 wait2
      queues2 = Queues-same woken.after s2 run2 wait2 refl refl refl woken.queues

      other : (s.running == p.task) ≡ false
      other = has-differ s.running p.task wait2 still_waits (queues2.lists.apart p.task p.found)

      ready : Ready mutexes s2 run2 wait2 p.task
      ready = record {
        begun = kept2.state ∙ d.begun;
        live = rw (kept2.running) live;
        other = rw (kept2.running) other;
        left = rw (kept2.running) (ground (arith, still_waits));
        status = inl (
            rw (kept2.running)
              (All-has (λ a. s2.task.status a ≡ wait) s.running wait2 queues2.waits still_waits));
        here = p.found;
        top = p.top;
        idle_here = rw (kept2.idle) idle_ready;
        fit = λ a i. Fit-Kept s s2 a kept2 (d.fit a (moved-In a (after-In s1 run1 wait1 a i)));
        objects =
            Objects-same mutexes woken.after s2 run2 wait2 refl refl refl refl refl refl refl (
              Objects-Untouched mutexes s woken.after run waiting run2 wait2
                (Untouched-trans s s1 woken.after untouched1 woken.untouched)
                (λ a i. moved-In a (after-In s1 run1 wait1 a i)) d.objects);
      }

      live_task : (p.task == null) ≡ false
      live_task =
          All-has (λ a. (a == null) ≡ false) p.task run2
            (Chain-live s2.task.nrp s2.runqueue run2 queues2.lists.run_chain) p.found

      pub scheduled_pending : SchedulesFrom mutexes s s1 run2 wait2
      scheduled_pending =
          let dis = osi_dispatch-Pending mutexes s2 run2 wait2 p.task queues2 ready in
          let pended = if is_mcu (dis.after.arch) then true else dis.after.pendsv in
          let after : Os = record (dis.after) { pendsv = pended } in
          let pending = pend-Pending mutexes dis.after run2 wait2 pended dis.pending in
          let kept = Kept-pend s dis.after pended (Kept-trans s s2 dis.after kept2 dis.kept) in
          let sch = osi_schedule_steps s1 _ live (rw ==_refl refl) d.none (
            choose_steps_switch s1 woken.after s2 dis.after s.running p.task woken.result p.result
              live_task other dis.result pending.live_next) in
          record {
            after = after;
            result =
                reschedule_steps s1 after d.none sch pending.live_next
                  (==_sym after.scheduled after.running ∙ pending.other);
            pending = pending;
            kept = kept;
            delay = dis.delays s.running other ∙ ap (λ g. g s.running) woken.delay;
          }
