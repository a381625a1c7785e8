-- ===== src/Kernel/Boot.antt =====
-- The start of an application's system, from `os_initialize` to the first tick.
use arduino_osh.Base.{
  ℕ, ◌+◌, ◌<◌, ◌≡◌, refl, ◌∙◌, true, false, not, ◌||◌, List, [], ◌∷◌, arith, ◌==◌, length, All, has,
  ==→eq,
}
use arduino_osh.Types.{
  Ptr, null, StartStatus, OsState, os_state_eq, Os, u32_mod, oss_success, is_mcu,
}
use arduino_osh.Machine.{ok, rounds}
use arduino_osh.Tasks.{os_initialize}
use arduino_osh.Kernel.{Registers, tick}
use arduino_osh.Kernel.Settled.{Begun, Fits}
use arduino_osh.Kernel.Tick.{tick-Ticked}
use arduino_osh.Kernel.Runs.{Performs}
use arduino_osh.Kernel.Start.{os_start-Starts}
use arduino_osh.Kernel.Filled.{Takes}
use arduino_osh.Kernel.First.{first-Opened}
use arduino_osh.Kernel.Application.{NewTask, boot, IsSound, Separate, begins_in}
use arduino_osh.Kernel.Grow.{All-both, or_assoc, initialize_all-Grown}

-- The system before `os_initialize`: as the loader leaves it, or `os_teardown`.
pub record IsOff (s : Os) : Type 0 where
  pub ready : s.state ≡ OsState.unset
  pub nobody : s.idle ≡ null
  pub none_runs : s.runqueue ≡ null
  pub none_waits : s.waitqueue ≡ null
  pub none : s.scheduled ≡ null
  pub mcu : is_mcu s.arch ≡ true
  pub finished_fits : s.task_finished < u32_mod

pub record Boots (s : Os) (first : NewTask) (others : List NewTask) : Type 0 where
  pub after : Os
  pub run : List Ptr
  pub result : boot first others s ≡ ok oss_success after
  pub begun : Begun [] after run []
  pub free : after.task.flags after.running ≡ 0
  pub running : after.running ≡ first.task
  pub idle : after.idle ≡ first.task
  pub members : (a : Ptr) → has a run ≡ ((a == first.task) || begins_in a others)
  pub first_tick :
      (uptime micros : ℕ) (cpu : Registers)
      → Fits after cpu
      → Performs [] after (tick uptime micros cpu)

-- On a microcontroller, an application turns the system on with an idle task that starts at once and
-- fewer than 255 other tasks, of priorities over 0. If the tasks have different addresses, handlers and parameters
-- of 32 bits, and stacks that are made of words and of the least size, of which none covers the lowest word of an earlier task's, the system starts: the idle task runs, and the run queue holds it and the
-- other tasks that are to start at once. With the registers' place in the idle task's stack, the
-- first tick returns and leaves the system settled.
pub boot-Boots :
    (s : Os) (first : NewTask) (others : List NewTask)
    → IsOff s
    → Takes s first.task first.options
    → first.options.status ≡ StartStatus.running
    → All IsSound others
    → Separate (first ∷ others)
    → length others + 1 < rounds
    → Boots s first others
unfolding boot os_initialize
boot-Boots s first others off takes start sound separate room =
    let on : Os = record s {
      state = OsState.initialized;
      status_hook = null;
      logging_hook = null;
    } in
    let opened =
      first-Opened on first.task first.options
        (record {
          ready = refl;
          nobody = off.nobody;
          none_runs = off.none_runs;
          none_waits = off.none_waits;
          none = off.none;
          mcu = off.mcu;
        })
        (record {
          live = takes.live;
          size = takes.size;
          handler_fits = takes.handler_fits;
          params_fits = takes.params_fits;
          finished_fits = takes.finished_fits;
        })
        start in
    let rest =
      initialize_all-Grown opened.after others (first.task ∷ []) opened.initialized
        (rw (opened.idle) (opened.priority)) (rw (opened.task_finished) (takes.finished_fits)) sound
        (All-both others
          (λ n apart sound. record {
            out = ground (arith, apart.other);
            clear = λ a h. rw (==→eq a first.task (ground (arith, h)), opened.stack) (apart.clear);
          })
          separate.0 sound)
        separate.1 (omega (arith, room)) in
    let started = os_start-Starts rest.after rest.queue rest.initialized in
    let off_state : not (os_state_eq s.state OsState.unset) ≡ false = rw (off.ready) refl in
    record {
      after = started.after;
      run = rest.queue;
      result = simp (off_state, opened.result, rest.result, started.result);
      begun = started.begun;
      free = started.free;
      running = started.running ∙ rest.idle ∙ opened.idle;
      idle = started.idle ∙ rest.idle ∙ opened.idle;
      members =
          λ a. rest.members a ∙ rw (or_assoc (a == first.task) false (begins_in a others)) refl;
      first_tick = λ uptime micros cpu fits.
          let t =
            tick-Ticked [] started.after uptime micros cpu rest.queue [] started.begun started.free
              fits in
          record {
            after = t.after;
            result = t.result;
            settled = record { run = _; waiting = _; settled = t.settled };
          };
    }
