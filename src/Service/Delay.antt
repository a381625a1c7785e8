-- ===== src/Service/Delay.antt =====
-- `svc_delay` of src/service.c, from the call to the switch.
use arduino_osh.Base.{
  ℕ, zero, suc, ◌+◌, ◌%◌, ◌<◌, ◌≡◌, refl, ◌∙◌, ◌⊎◌, inl, inr, true, false, not, ◌&&◌, List, [], ◌∷◌,
  arith, ◌==◌, leb, if◌then◌else◌, subst, length, All, update, has, ==_refl, ==_sym, Bool-cases,
}
use arduino_osh.Types.{
  Ptr, null, active, wait, Os, u32_mod, u32_max, oss_error_to, oss_success, is_mcu,
}
use arduino_osh.Machine.{Run, ok, rounds}
use arduino_osh.Chain.{Chain, erase, insert}
use arduino_osh.Scheduler.{
  osi_task_status_set, osi_schedule, choose_and_dispatch, wake_loop, osi_dispatch, find_new_task,
}
use arduino_osh.Scheduler.Invariant.{Queues, StatusSet-wait, with_status}
use arduino_osh.Scheduler.Queues.{relink}
use arduino_osh.Scheduler.Next.{find_new_task_head}
use arduino_osh.Scheduler.Switch.{osi_dispatch-Dispatched, Queues-same}
use arduino_osh.Service.{svc_delay, set_wake_time, reschedule}

-- With no task due, no task is woken.
wake_loop_none :
    (k : ℕ) (s : Os) (now : ℕ) (head : Ptr) (xs : List Ptr)
    → length xs < k
    → Chain s.task.nrp head xs
    → All (λ a. (not (s.task.delay a == u32_max) && leb (s.task.delay a) now) ≡ false) xs
    → wake_loop k now head s ≡ ok tt s
unfolding wake_loop
wake_loop_none zero s now head xs fuel c late = absurd (omega arith)
wake_loop_none (suc k) s now head [] fuel c late = simp c
wake_loop_none (suc k) s now head (x ∷ xs) fuel (e, live, c) late =
    simp (e, live, late.0) (wake_loop_none k s now (s.task.nrp x) xs (omega arith) c late.1)

-- A schedule without early return, from the results of its steps.
choose_and_dispatch_steps :
    (s s' after : Os) (running x : Ptr)
    → wake_loop rounds s.uptime s.waitqueue s ≡ ok tt s
    → find_new_task running s ≡ ok x s'
    → (x == null) ≡ false
    → (running == x) ≡ false
    → osi_dispatch x s' ≡ ok oss_success after
    → (after.scheduled == null) ≡ false
    → choose_and_dispatch running s
      ≡ ok oss_success (record after { pendsv = if is_mcu after.arch then true else after.pendsv })
unfolding choose_and_dispatch
choose_and_dispatch_steps s s' after running x woken found live away switched set =
    elim (Bool-cases (is_mcu after.arch)) [
      | inl m ↦ simp (woken, found, live, away, switched, set, m)
      | inr m ↦ simp (woken, found, live, away, switched, set, m)
    ]

pub osi_schedule_steps :
    (s : Os) (r : Run ℕ)
    → (s.running == null) ≡ false
    → s.task.status s.running ≡ wait
    → s.scheduled ≡ null
    → choose_and_dispatch s.running s ≡ r
    → osi_schedule s ≡ r
unfolding osi_schedule
osi_schedule_steps s r live waits none h = simp (live, waits, none) h

-- A schedule that leads to `x`, with the running task waiting.
record Scheduled (s : Os) (x : Ptr) (xs : List Ptr) : Type 0 where
  after : Os
  result : osi_schedule s ≡ ok 0 after
  queues : Queues after (x ∷ xs) (s.running ∷ [])
  scheduled : after.scheduled ≡ x
  now_active : after.task.status x ≡ active
  running : after.running ≡ s.running
  delay : after.task.delay s.running ≡ s.task.delay s.running

-- The running task waits, alone, until after now, and `x` is the head of the run queue.
osi_schedule-Scheduled :
    (s : Os) (x : Ptr) (xs : List Ptr)
    → Queues s (x ∷ xs) (s.running ∷ [])
    → s.scheduled ≡ null
    → (not (s.task.delay s.running == u32_max) && leb (s.task.delay s.running) s.uptime) ≡ false
    → s.task.flags x ≡ 0
    → ((x == s.idle) ≡ false) ⊎ (x ∷ xs ≡ x ∷ [])
    → Scheduled s x xs
osi_schedule-Scheduled s x xs q none late free not_idle =
    let live : (s.running == null) ≡ false = q.lists.wait_chain.1 in
    let live_x : (x == null) ≡ false = q.lists.run_chain.1 in
    let waits : s.task.status s.running ≡ wait = q.waits.0 in
    let away : (s.running == x) ≡ false =
      ==_sym s.running x ∙ ground (arith, q.lists.apart x (rw ==_refl refl)) in
    let still =
      wake_loop_none rounds s s.uptime s.waitqueue (s.running ∷ []) (omega (arith, q.lists.room))
        q.lists.wait_chain (late, tt) in
    let (trace, found) =
      find_new_task_head s s.running x xs live (rw waits refl) (q.lists.wait_chain.2)
        (omega (arith, q.lists.room)) q.lists.run_chain q.can_run q.ranked in
    let d =
      osi_dispatch-Dispatched (record s { trace = trace }) x (x ∷ xs) (s.running ∷ [])
        (Queues-same s (record s { trace = trace }) _ _ refl refl refl q) live_x live away
        (rw ==_refl refl) free (inl waits) not_idle in
    record {
      after = record (d.after) { pendsv = if is_mcu (d.after.arch) then true else d.after.pendsv };
      result = osi_schedule_steps s _ live waits none (
          choose_and_dispatch_steps s _ d.after s.running x still found live_x away d.result
            (rw (d.scheduled) live_x));
      queues = Queues-same d.after _ _ _ refl refl refl d.queues;
      scheduled = d.scheduled;
      now_active = d.now_active;
      delay = d.delays s.running away;
      running = d.kept.running;
    }

pub reschedule_steps :
    (s after : Os)
    → s.scheduled ≡ null
    → osi_schedule s ≡ ok oss_success after
    → (after.scheduled == null) ≡ false
    → (after.scheduled == after.running) ≡ false
    → reschedule s ≡ ok tt after
unfolding reschedule
reschedule_steps s after none h set away = simp (none, h, set, away)

pub svc_delay_steps :
    (s s' s'' after : Os) (ms c : ℕ)
    → (s.running == null) ≡ false
    → (s.scheduled == s.running) ≡ false
    → set_wake_time s.running ms s ≡ ok tt s'
    → osi_task_status_set s.running wait s' ≡ ok c s''
    → reschedule s'' ≡ ok tt after
    → svc_delay ms s ≡ ok oss_error_to after
unfolding svc_delay
svc_delay_steps s s' s'' after ms c live idle_slot woken set h =
    simp (live, idle_slot, woken, set, h)

-- A delay that leads to `x`.
pub record Delayed (s : Os) (ms : ℕ) (x : Ptr) (xs : List Ptr) : Type 0 where
  pub after : Os
  pub result : svc_delay ms s ≡ ok oss_error_to after
  pub queues : Queues after (x ∷ xs) (s.running ∷ [])
  pub scheduled : after.scheduled ≡ x
  pub now_active : after.task.status x ≡ active
  pub delay : after.task.delay s.running ≡ s.uptime + ms

-- Let the invariant of the queues hold. The running task stands in the run queue, no other task waits, and nothing is scheduled. It asks
-- for a delay of at least one millisecond, whose end is below the largest 32-bit number. Without the
-- running task the run queue begins with `x`, which blocks on nothing, and which is the idle task
-- only if it is then alone. `svc_delay` returns the status of a timeout. Then `x` is scheduled and
-- active, the running task waits for the time it asked for, and the invariant of the queues holds.
pub svc_delay-Delayed :
    (s : Os) (ms : ℕ) (run : List Ptr) (x : Ptr) (xs : List Ptr)
    → Queues s run []
    → (s.running == null) ≡ false
    → s.scheduled ≡ null
    → has s.running run ≡ true
    → erase s.running run ≡ x ∷ xs
    → 0 < ms
    → s.uptime + ms < 4294967295
    → s.task.flags x ≡ 0
    → ((x == s.idle) ≡ false) ⊎ (x ∷ xs ≡ x ∷ [])
    → Delayed s ms x xs
unfolding set_wake_time insert
svc_delay-Delayed s ms run x xs q live none i rest some small free not_idle =
    let s' : Os = record s {
      task = record (s.task) { delay = update s.task.delay s.running (s.uptime + ms) };
    } in
    let q' : Queues s' run [] = record {
      lists = record {
        run_chain = q.lists.run_chain;
        wait_chain = q.lists.wait_chain;
        apart = q.lists.apart;
        room = q.lists.room;
      };
      can_run = q.can_run;
      waits = tt;
      ranked = q.ranked;
      due = tt;
    } in
    let fits : (s.uptime + ms) % u32_mod ≡ s.uptime + ms = omega arith in
    let finite : (ms == u32_max) ≡ false = ground (arith, small) in
    let finite_end : (s.uptime + ms == u32_max) ≡ false = ground (arith, small) in
    let woken : set_wake_time s.running ms s ≡ ok tt s' = simp (finite, live, fits, finite_end) in
    let set = StatusSet-wait s' s.running run [] q' live i in
    let s'' : Os =
      relink (with_status s' s.running wait) set.next set.run_head set.wait_head set.trace in
    let queues = subst (λ l. Queues s'' l (s.running ∷ [])) rest set.queues in
    let late : (not (s'.task.delay s.running == u32_max) && leb (s'.task.delay s.running) s.uptime)
        ≡ false =
      rw ==_refl (ground (arith, some, small)) in
    let sch = osi_schedule-Scheduled s'' x xs queues none late free not_idle in
    let away : (x == s.running) ≡ false = ground (arith, queues.lists.apart x (rw ==_refl refl)) in
    let moved =
      reschedule_steps s'' sch.after none sch.result (rw (sch.scheduled) (queues.lists.run_chain.1))
        (rw (sch.scheduled, sch.running) away) in
    record {
      after = sch.after;
      result =
          svc_delay_steps s s' s'' sch.after ms _ live (rw none (==_sym null s.running ∙ live))
            woken set.result moved;
      queues = sch.queues;
      scheduled = sch.scheduled;
      now_active = sch.now_active;
      delay = sch.delay ∙ rw ==_refl refl;
    }
