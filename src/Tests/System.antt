-- ===== src/Tests/System.antt =====
-- The theorems on the running system, at the system with stacks of 1024 bytes.
use arduino_osh.Base.{◌+◌, ◌≡◌, refl, inr, List, [], ◌∷◌, arith, update, ◌<◌, length}
use arduino_osh.Types.{Ptr, Os, TaskStatus, Event}
use arduino_osh.Machine.{ok, rounds_lem}
use arduino_osh.Scheduler.{find_new_task}
use arduino_osh.Scheduler.Ready.{find_new_task_waiting}
use arduino_osh.Kernel.{tick}
use arduino_osh.Chain.{insert, erase}
use arduino_osh.Kernel.Objects.{Objects-same}
use arduino_osh.Kernel.Asks.{Acquires}
use arduino_osh.Kernel.Acquire.{acquire-Acquires}
use arduino_osh.Kernel.Settled.{Fits, Pending, Settled-Begun}
use arduino_osh.Kernel.Switch.{Switched, pendsv_handler-Switched, Served, svc_handler-Served}
use arduino_osh.Kernel.Answer.{Answered, set_stacked_return-pendsv_handler}
use arduino_osh.Kernel.Delay.{Slept, delay-Slept}
use arduino_osh.Kernel.Runs.{IsSettled, Performs, perform-Settled, then, done, Reaches-Settled}
use arduino_osh.Kernel.Wakes.{CanRun, one_more, none, Ticks-wake}
use arduino_osh.Kernel.Tick.{Ticked, tick-Ticked}
use arduino_osh.Tests.State.{system, tasks}
use arduino_osh.Tests.Statuses.{queues}
use arduino_osh.Chain.{Chain}
use arduino_osh.Machine.{rounds}
use arduino_osh.Tests.Stacked.{cpu, settled, stacked, stacked-Fit, stacked-Fits, stacked-Objects}

-- At time 50 the tick wakes task 4.
tick-Ticked_example : Ticked (30 ∷ []) stacked 50 0 cpu (2 ∷ 3 ∷ 4 ∷ 1 ∷ []) []
unfolding insert erase
tick-Ticked_example =
    tick-Ticked (30 ∷ []) stacked 50 0 cpu (2 ∷ 3 ∷ 1 ∷ []) (4 ∷ [])
      (Settled-Begun (30 ∷ []) stacked (2 ∷ 3 ∷ 1 ∷ []) (4 ∷ []) settled) refl stacked-Fits

-- Task 2 delays itself until time 25.
delay-Slept_example : Slept (30 ∷ []) stacked 5 cpu (3 ∷ 1 ∷ []) (2 ∷ 4 ∷ [])
unfolding insert erase
delay-Slept_example =
    delay-Slept (30 ∷ []) stacked 5 cpu (2 ∷ 3 ∷ 1 ∷ []) (4 ∷ []) settled refl
      (inr (omega arith, omega arith)) stacked-Fits

-- One task at most is in a list that starts with task 4.
short_room : (xs : List Ptr) → Chain stacked.task.nblocked 4 xs → length xs + 1 < rounds
short_room [] c = omega (arith, rounds_lem)
short_room (a ∷ []) c = omega (arith, rounds_lem)
short_room (a ∷ b ∷ xs) (e, n, (e', n', c)) = absurd (ground (arith, e', n'))

-- Task 2 asks for the mutex of task 3.
acquire-Acquires_example : Acquires (30 ∷ []) stacked 30 10 cpu (2 ∷ 3 ∷ 1 ∷ []) (4 ∷ [])
acquire-Acquires_example =
    acquire-Acquires (30 ∷ []) stacked 30 10 cpu (2 ∷ 3 ∷ 1 ∷ []) (4 ∷ []) settled (record {
      known = refl;
      busy = refl;
      fits_level = omega arith;
      room = short_room;
      time = inr (inr (omega arith, omega arith));
      fits = stacked-Fits;
    })

is_settled : IsSettled (30 ∷ []) stacked
is_settled = record { run = 2 ∷ 3 ∷ 1 ∷ []; waiting = 4 ∷ []; settled = settled }

perform-Settled_example : Performs (30 ∷ []) stacked (tick 50 0 cpu)
perform-Settled_example = perform-Settled (30 ∷ []) stacked (tick 50 0 cpu) is_settled stacked-Fits

after_tick : Performs (30 ∷ []) stacked (tick 50 0 cpu)
after_tick = perform-Settled (30 ∷ []) stacked (tick 50 0 cpu) is_settled stacked-Fits

Reaches-Settled_example : IsSettled (30 ∷ []) after_tick.after
Reaches-Settled_example =
    Reaches-Settled (30 ∷ []) stacked after_tick.after
      (then stacked after_tick.after after_tick.after (tick 50 0 cpu) stacked-Fits after_tick.result
        (done after_tick.after))
      is_settled

Ticks-wake_example : CanRun (30 ∷ []) after_tick.after 4
Ticks-wake_example =
    Ticks-wake (30 ∷ []) 50 1 stacked after_tick.after 4 (2 ∷ 3 ∷ 1 ∷ []) (4 ∷ [])
      (one_more 0 stacked after_tick.after after_tick.after 50 0 cpu (omega arith) stacked-Fits
        after_tick.result (none after_tick.after))
      settled refl refl (omega arith) (omega arith)

-- Task 3 is scheduled.
abbrev switching : Os
switching = record stacked {
  scheduled = 3;
  task = record (stacked.task) { status = update tasks.status 3 TaskStatus.active };
}

switching-Pending : Pending (30 ∷ []) switching (2 ∷ 3 ∷ 1 ∷ []) (4 ∷ [])
switching-Pending = (record {
  queues = record {
    lists = record {
      run_chain = queues.lists.run_chain;
      wait_chain = queues.lists.wait_chain;
      apart = queues.lists.apart;
      room = queues.lists.room;
    };
    can_run = (refl, (refl, (refl, tt)));
    waits = (refl, tt);
    ranked = queues.ranked;
    due = queues.due;
  };
  begun = refl;
  live = refl;
  live_next = refl;
  other = refl;
  left = refl;
  here = refl;
  now_active = refl;
  top = (omega arith, (omega arith, (omega arith, tt)));
  idle_here = refl;
  fit = λ a i.
      let f = stacked-Fit a in record { above = f.above; bounded = f.bounded; magic = f.magic };
  objects =
      Objects-same (30 ∷ []) stacked switching (2 ∷ 3 ∷ 1 ∷ []) (4 ∷ []) refl refl refl refl refl
        refl refl stacked-Objects;
  free = refl;
})

switching-Fits : Fits switching cpu
switching-Fits = (record {
  deep = stacked-Fits.deep;
  bounded = stacked-Fits.bounded;
  clear = stacked-Fits.clear;
})

pendsv_handler-Switched_example : Switched (30 ∷ []) switching cpu (2 ∷ 3 ∷ 1 ∷ []) (4 ∷ [])
pendsv_handler-Switched_example =
    pendsv_handler-Switched (30 ∷ []) switching cpu (2 ∷ 3 ∷ 1 ∷ []) (4 ∷ []) switching-Pending
      switching-Fits

-- Task 2 is given 7 once task 3 runs.
set_stacked_return-pendsv_handler_example : Answered switching cpu 7
set_stacked_return-pendsv_handler_example =
    set_stacked_return-pendsv_handler (30 ∷ []) switching cpu (2 ∷ 3 ∷ 1 ∷ []) (4 ∷ []) 7
      switching-Pending switching-Fits refl (omega arith)

-- A service call whose function has scheduled task 3.
svc_handler-Served_example :
    Served
      (30 ∷ [])
      switching
      (λ s. ok (record { status = 7; value = 0 }) s)
      cpu
      (2 ∷ 3 ∷ 1 ∷ [])
      (4 ∷ [])
      switching
      7
svc_handler-Served_example =
    svc_handler-Served (30 ∷ []) switching switching (λ s. ok (record { status = 7; value = 0 }) s)
      (record { status = 7; value = 0 }) cpu (2 ∷ 3 ∷ 1 ∷ []) (4 ∷ []) refl switching-Pending
      switching-Fits

-- Task 4, with task 5 behind it in the wait queue, is put aside for the head of the run queue.
abbrev two_wait : Os
two_wait = record system {
  task = record tasks {
    status = update tasks.status 5 TaskStatus.wait;
    nrp = update tasks.nrp 4 5;
    delay = update tasks.delay 5 60;
  };
}

find_new_task_waiting_example :
    (trace : List Event) × (find_new_task 4 two_wait ≡ ok 2 (record two_wait { trace = trace }))
find_new_task_waiting_example =
    find_new_task_waiting two_wait 4 2 (3 ∷ 1 ∷ []) (4 ∷ 5 ∷ []) 1
      (record {
        lists = record {
          run_chain = (refl, refl, (refl, refl, (refl, refl, refl)));
          wait_chain = (refl, refl, (refl, refl, refl));
          apart = λ a i. ground (arith, i);
          room = omega (arith, rounds_lem);
        };
        can_run = (refl, (refl, (refl, tt)));
        waits = (refl, (refl, tt));
        ranked = queues.ranked;
        due = ((omega arith, tt), (tt, tt));
      })
      refl refl (omega arith)
