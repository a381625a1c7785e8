-- ===== src/Kernel/Tick.antt =====
-- The tick of the clock, `osi_irs_systick` of src/os.c, from a settled system to a settled system.
use arduino_osh.Base.{◌≤◌, ◌<◌, ◌⊎◌, ◌+◌, ℕ, ◌≡◌, refl, ap, ◌∙◌, inl, inr, true, List, has}
use arduino_osh.Types.{Ptr, Os}
use arduino_osh.Machine.{ok}
use arduino_osh.Scheduler.{choose_and_dispatch, osi_schedule, osi_irs_systick}
use arduino_osh.Scheduler.Ready.{run_after, wait_after}
use arduino_osh.Scheduler.Switch.{Queues-same}
use arduino_osh.Kernel.{Registers, perform, tick}
use arduino_osh.Kernel.Objects.{Objects-same}
use arduino_osh.Kernel.Settled.{Fits, Begun, Settled, Fits-Kept}
use arduino_osh.Kernel.Switch.{pendsv_handler_none, pendsv_handler-Switched}
use arduino_osh.Kernel.Chosen.{choose-Chosen, live}

-- The parts of the state that the clock moves are in no invariant.
abbrev pub at_time : Os → ℕ → ℕ → Os
at_time s uptime micros = record s { uptime = uptime; micros = micros }

at_time-Begun :
    (mutexes : List Ptr) (s : Os) (run waiting : List Ptr) (uptime micros : ℕ)
    → Begun mutexes s run waiting
    → Begun mutexes (at_time s uptime micros) run waiting
at_time-Begun mutexes s run waiting uptime micros d = record {
  queues = Queues-same s (at_time s uptime micros) run waiting refl refl refl d.queues;
  none = d.none;
  begun = d.begun;
  here = d.here;
  now_active = d.now_active;
  idle_here = d.idle_here;
  fit =
      λ a i. let f = d.fit a i in record { above = f.above; bounded = f.bounded; magic = f.magic };
  objects =
      Objects-same mutexes s (at_time s uptime micros) run waiting refl refl refl refl refl refl
        refl d.objects;
}

systick_steps :
    (mutexes : List Ptr) (s : Os) (run waiting : List Ptr)
    → Begun mutexes s run waiting
    → s.task.flags s.running ≡ 0
    → osi_irs_systick s ≡ choose_and_dispatch s.running s
unfolding osi_irs_systick osi_schedule
systick_steps mutexes s run waiting d free =
    let here = live mutexes s run waiting d free in simp (d.begun, d.none, here, d.now_active)

-- A tick that leaves the system settled.
pub record Ticked (mutexes : List Ptr) (s : Os) (uptime micros : ℕ) (cpu : Registers)
    (run waiting : List Ptr) : Type 0 where
  pub after : Os
  pub result : perform (tick uptime micros cpu) s ≡ ok tt after
  pub settled : Settled mutexes after run waiting
  pub delays : (a : Ptr) → has a waiting ≡ true → after.task.delay a ≡ s.task.delay a
  pub priority : after.task.priority ≡ s.task.priority
  pub same : (a : ℕ) → (a + 32 < cpu.psp) ⊎ (cpu.psp ≤ a) → after.memory a ≡ s.memory a

-- Let the system have begun, with the registers' place in the running task's stack, and let the running
-- task block on nothing. A tick and the context switch behind it return. Then the first of the waiting tasks whose time has come, if there
-- is one, has moved to its place in the run queue, the tasks that still wait have kept their wake-up
-- times, and the system is settled: the task that runs is active, and no task that can run outranks it.
pub tick-Ticked :
    (mutexes : List Ptr) (s : Os) (uptime micros : ℕ) (cpu : Registers) (run waiting : List Ptr)
    → Begun mutexes s run waiting
    → s.task.flags s.running ≡ 0
    → Fits s cpu
    → Ticked mutexes s uptime micros cpu
        (run_after (at_time s uptime micros) run waiting)
        (wait_after (at_time s uptime micros) waiting)
unfolding perform
tick-Ticked mutexes s uptime micros cpu run waiting d free fits =
    let s1 = at_time s uptime micros in
    let d1 = at_time-Begun mutexes s run waiting uptime micros d in
    let c = choose-Chosen mutexes s1 run waiting d1 free in
    let handled = systick_steps mutexes s1 run waiting d1 free ∙ c.result in
    let fits1 : Fits s1 cpu = record {
      deep = fits.deep;
      bounded = fits.bounded;
      clear = fits.clear;
    } in
    elim (c.outcome) [
      | inl settled ↦ record {
        after = c.after;
        result = simp handled (pendsv_handler_none cpu c.after settled.none);
        settled = settled;
        delays = c.delays;
        priority = c.kept.priority;
        same = λ a o. ap (λ m. m a) c.kept.memory;
      }
      | inr pending ↦
          let sw =
            pendsv_handler-Switched mutexes c.after cpu _ _ pending
              (Fits-Kept s1 c.after cpu c.kept fits1) in
          record {
            after = sw.after;
            result = simp handled sw.result;
            settled = sw.settled;
            delays = λ a i. ap (λ g. g a) sw.delay ∙ c.delays a i;
            priority = sw.priority ∙ c.kept.priority;
            same = λ a o. sw.same a o ∙ ap (λ m. m a) c.kept.memory;
          }
    ]
