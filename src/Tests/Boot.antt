-- ===== src/Tests/Boot.antt =====
-- An application of an idle task and three others.
use arduino_osh.Base.{◌*◌, ◌≡◌, refl, false, ◌==◌, inl, [], ◌∷◌, arith}
use arduino_osh.Types.{Ptr, null, StartStatus, OsState, Os}
use arduino_osh.Machine.{rounds_lem}
use arduino_osh.Stack.Prepared.{Prepared, initialize_stack-Prepared}
use arduino_osh.Stack.Highwater.{Marked, os_task_highwater-initialize_stack}
use arduino_osh.Kernel.Application.{NewTask, IsSound}
use arduino_osh.Kernel.Boot.{Boots, boot-Boots}
use arduino_osh.Tests.State.{system, tasks}

abbrev off : Os
off = record system {
  running = null;
  state = OsState.unset;
  idle = null;
  runqueue = null;
  waitqueue = null;
  task_finished = 700;
}

-- Task `n` has its stack of 1024 bytes at `1024 * n`.
abbrev new_task : StartStatus → Ptr → NewTask
new_task status n = record {
  task = n;
  options = record {
    name = 0;
    status = status;
    handler = 501;
    params = 9;
    stack = 1024 * n;
    stack_size = 1024;
    priority = 16;
  };
}

new_task-IsSound :
    (status : StartStatus) (n : Ptr) → ((n == null) ≡ false) → IsSound (new_task status n)
new_task-IsSound status n live = record {
  live = live;
  size = (refl, omega arith);
  handler_fits = omega arith;
  params_fits = omega arith;
  above = omega arith;
}

abbrev idle : NewTask
idle = new_task StartStatus.running 1

abbrev first : NewTask
first = new_task StartStatus.running 2

abbrev second : NewTask
second = new_task StartStatus.suspended 3

boot-Boots_example : Boots off idle (first ∷ second ∷ [])
boot-Boots_example =
    boot-Boots off idle (first ∷ second ∷ [])
      (record {
        ready = refl;
        nobody = refl;
        none_runs = refl;
        none_waits = refl;
        none = refl;
        mcu = refl;
        finished_fits = omega arith;
      })
      (record {
        live = refl;
        size = (refl, omega arith);
        handler_fits = omega arith;
        params_fits = omega arith;
        finished_fits = omega arith;
      })
      refl
      (
        new_task-IsSound StartStatus.running 2 refl,
        (new_task-IsSound StartStatus.suspended 3 refl, tt),
      )
      (
        (
          record { other = refl; clear = inl (omega arith) },
          (record { other = refl; clear = inl (omega arith) }, tt),
        ),
        ((record { other = refl; clear = inl (omega arith) }, tt), (tt, tt)),
      )
      (omega (arith, rounds_lem))

-- Task 2 with a stack of 1024 bytes.
abbrev unprepared : Os
unprepared = record off {
  task = record tasks {
    stack = λ a. 1024 * a;
    stack_size = λ _. 1024;
    handler = λ _. 501;
    params = λ _. 9;
  };
}

initialize_stack-Prepared_example : Prepared unprepared 2 2048 1024
initialize_stack-Prepared_example =
    initialize_stack-Prepared unprepared 2 2048 1024 refl (refl, omega arith) (omega arith)
      (omega arith) (omega arith)

os_task_highwater-initialize_stack_example : Marked unprepared 2
os_task_highwater-initialize_stack_example =
    os_task_highwater-initialize_stack unprepared 2 refl refl (refl, omega arith) (omega arith)
      (omega arith) (omega arith)
