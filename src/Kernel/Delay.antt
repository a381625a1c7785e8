-- ===== src/Kernel/Delay.antt =====
-- A delay, `svc_delay` of src/service.c, from a settled system to a settled system.
use arduino_osh.Base.{ℕ, ◌≡◌, refl, ap, ◌∙◌, true, false, List, ◌==◌, has, subst, ==_sym, ==_refl}
use arduino_osh.Types.{Ptr, null, Os, oss_error_to}
use arduino_osh.Machine.{ok}
use arduino_osh.Scheduler.Frame.{Kept}
use arduino_osh.Scheduler.Ready.{run_after, wait_after}
use arduino_osh.Service.{svc_delay}
use arduino_osh.Service.Delay.{svc_delay_steps}
use arduino_osh.Kernel.{Registers, one_word, svc_handler, perform, delay}
use arduino_osh.Kernel.After.{after-In}
use arduino_osh.Kernel.Settled.{In, Fits, Settled, Begun, Settled-Begun, Pending, Fits-Kept}
use arduino_osh.Kernel.Switch.{pendsv_handler_none, svc_handler-Served}
use arduino_osh.Kernel.Asleep.{
  InTime, asleep, first_due-same, run_without, set_wake_time-asleep, wait_with, wake_time,
}
use arduino_osh.Kernel.Reschedule.{
  moved-In, live, put_asleep, picked, scheduled_pending, s1, run2, wait2, still_waits,
}

-- The function of a delay's service call, with a switch under way.
pub record Delayed (mutexes : List Ptr) (s : Os) (ms : ℕ) (run waiting : List Ptr) : Type 0 where
  pub after : Os
  pub result : svc_delay ms s ≡ ok oss_error_to after
  pub pending : Pending mutexes after run waiting
  pub kept : Kept s after
  pub sleeps : has s.running waiting ≡ true
  pub until : after.task.delay s.running ≡ wake_time s ms

-- The queues behind a delay: the caller moves, and then the first task that is due.
abbrev pub run_behind : Os → ℕ → List Ptr → List Ptr → List Ptr
run_behind s ms run waiting = run_after (asleep s ms) (run_without s run) (wait_with s ms waiting)

abbrev pub wait_behind : Os → ℕ → List Ptr → List Ptr
wait_behind s ms waiting = wait_after (asleep s ms) (wait_with s ms waiting)

pub svc_delay-Delayed :
    (mutexes : List Ptr) (s : Os) (ms : ℕ) (run waiting : List Ptr)
    → Begun mutexes s run waiting
    → (s.running == s.idle) ≡ false
    → InTime s ms
    → Delayed mutexes s ms (run_behind s ms run waiting) (wait_behind s ms waiting)
svc_delay-Delayed mutexes s ms run waiting d busy time =
    let set = put_asleep mutexes s ms run waiting d busy time in
    let here = live mutexes s ms run waiting d busy time in
    let p = picked mutexes s ms run waiting d busy time set in
    let sch = scheduled_pending mutexes s ms run waiting d busy time set p in
    let set_time = set_wake_time-asleep s ms time here in
    let same =
      first_due-same (asleep s ms) (s1 mutexes s ms run waiting d busy time set)
        (wait_with s ms waiting) refl refl in
    let delayed : Delayed mutexes s ms (run2 mutexes s ms run waiting d busy time set)
        (wait2 mutexes s ms run waiting d busy time set) =
      record {
        after = sch.after;
        result =
            svc_delay_steps s (asleep s ms) _ sch.after ms _ here
              (rw (d.none) (==_sym null s.running ∙ here)) set_time set.result sch.result;
        pending = sch.pending;
        kept = sch.kept;
        sleeps = still_waits mutexes s ms run waiting d busy time set;
        until = sch.delay ∙ rw ==_refl refl;
      } in
    subst (λ r. Delayed mutexes s ms r (wait_behind s ms waiting)) (rw same refl)
      (subst (Delayed mutexes s ms (run2 mutexes s ms run waiting d busy time set)) (rw same refl)
        delayed)

-- No task comes to the queues.
pub behind-In :
    (mutexes : List Ptr) (s : Os) (ms : ℕ) (run waiting : List Ptr)
    → Begun mutexes s run waiting
    → (s.running == s.idle) ≡ false
    → InTime s ms
    → (a : Ptr) → In a (run_behind s ms run waiting) (wait_behind s ms waiting)
    → In a run waiting
behind-In mutexes s ms run waiting d busy time a i =
    moved-In mutexes s ms run waiting d busy time a
      (after-In (asleep s ms) (run_without s run) (wait_with s ms waiting) a i)

-- A delay that leaves the system settled.
pub record Slept (mutexes : List Ptr) (s : Os) (ms : ℕ) (cpu : Registers) (run waiting : List Ptr)
    : Type 0 where
  pub after : Os
  pub service : svc_handler (one_word cpu (svc_delay ms)) cpu s ≡ ok tt after
  pub result : perform (delay ms cpu) s ≡ ok tt after
  pub settled : Settled mutexes after run waiting
  pub sleeps : has s.running waiting ≡ true
  pub until : after.task.delay s.running ≡ wake_time s ms
  pub answer : after.memory cpu.psp ≡ oss_error_to
  pub priority : after.task.priority ≡ s.task.priority
  pub stack : after.task.stack ≡ s.task.stack

-- Let the system be settled, with the registers' place in the running task's stack. The running task,
-- which is not the idle task, delays itself for ever or for some time that ends before the clock is
-- at its largest number. The service call returns, with the switch to another task. Then the caller has moved
-- to its place in the wait queue, until the time it asked for, and behind it the first waiting task
-- whose time has come, if there is one, to its place in the run queue, the system is settled, and the
-- status of a timeout is in the word of the caller's R0.
pub delay-Slept :
    (mutexes : List Ptr) (s : Os) (ms : ℕ) (cpu : Registers) (run waiting : List Ptr)
    → Settled mutexes s run waiting
    → (s.running == s.idle) ≡ false
    → InTime s ms
    → Fits s cpu
    → Slept mutexes s ms cpu (run_behind s ms run waiting) (wait_behind s ms waiting)
unfolding perform
delay-Slept mutexes s ms cpu run waiting d busy time fits =
    let k =
      svc_delay-Delayed mutexes s ms run waiting (Settled-Begun mutexes s run waiting d) busy
        time in
    let called = k.result in
    let sw =
      svc_handler-Served mutexes s k.after (one_word cpu (svc_delay ms))
        (record { status = oss_error_to; value = cpu.r 1 }) cpu _ _ (simp called) k.pending
        (Fits-Kept s k.after cpu k.kept fits) in
    record {
      after = sw.after;
      service = sw.result;
      result = simp (sw.result) (pendsv_handler_none cpu sw.after sw.settled.none);
      settled = sw.settled;
      sleeps = k.sleeps;
      until = ap (λ g. g s.running) sw.delays ∙ k.until;
      answer = sw.answer;
      priority = sw.priority ∙ k.kept.priority;
      stack = sw.stack ∙ k.kept.stack;
    }
