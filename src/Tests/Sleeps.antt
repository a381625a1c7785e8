-- ===== src/Tests/Sleeps.antt =====
-- The theorem on `os_delay`, at the system with stacks of 1024 bytes.
use arduino_osh.Base.{
  ◌≤◌, ◌≡◌, refl, inl, inr, true, [], ◌∷◌, arith, leb, has, update, Bool-cases, ◌==◌,
}
use arduino_osh.Types.{Ptr, null, Os}
use arduino_osh.Machine.{ok, rounds_lem}
use arduino_osh.Chain.{insert, erase}
use arduino_osh.Scheduler.Invariant.{Queues}
use arduino_osh.Kernel.{Registers}
use arduino_osh.Kernel.Objects.{Objects, Objects-same}
use arduino_osh.Kernel.Settled.{Fits, Settled}
use arduino_osh.Kernel.Delay.{Slept, delay-Slept}
use arduino_osh.Syscalls.Sleep.{RunsOn, until_tick, os_delay-RunsOn}
use arduino_osh.Tests.State.{tasks}
use arduino_osh.Tests.Stacked.{stacked, stacked-Fit, stacked-Fits, stacked-Objects, cpu}

-- Task 2 outranks tasks 3 and 1, and none waits.
abbrev lone : Os
lone = record stacked {
  waitqueue = null;
  task = record (stacked.task) { priority = update tasks.priority 3 8 };
}

lone-Queues : Queues lone (2 ∷ 3 ∷ 1 ∷ []) []
lone-Queues = record {
  lists = record {
    run_chain = (refl, refl, (refl, refl, (refl, refl, refl)));
    wait_chain = refl;
    apart = λ a i. refl;
    room = omega (arith, rounds_lem);
  };
  can_run = (refl, (refl, (refl, tt)));
  waits = tt;
  ranked = ((omega arith, (omega arith, tt)), ((omega arith, tt), (tt, tt)));
  due = tt;
}

lone-Objects : Objects (30 ∷ []) lone (2 ∷ 3 ∷ 1 ∷ []) []
lone-Objects =
    let o =
      Objects-same (30 ∷ []) stacked lone (2 ∷ 3 ∷ 1 ∷ []) (4 ∷ []) refl refl refl refl refl refl
        refl stacked-Objects in
    record {
      tasks = o.tasks;
      lists = o.lists;
      locks = o.locks;
      covers = λ a i. o.covers a (ground (arith, i));
      blocks = λ a i. o.blocks a (ground (arith, i));
    }

lone-Settled : Settled (30 ∷ []) lone (2 ∷ 3 ∷ 1 ∷ []) []
lone-Settled = record {
  queues = lone-Queues;
  none = refl;
  begun = refl;
  here = refl;
  now_active = refl;
  top = (omega arith, (omega arith, (omega arith, tt)));
  idle_here = refl;
  fit = λ a i.
      let f = stacked-Fit a in
      record {
        above = elim (Bool-cases (3 == a)) [
          | inl e ↦ inr (rw e (omega arith))
          | inr n ↦ elim (f.above) [ inl e ↦ inl e | inr l ↦ inr (rw n l) ]
        ];
        bounded = f.bounded;
        magic = f.magic;
      };
  objects = lone-Objects;
  free = refl;
}

lone-Fits : Fits lone cpu
lone-Fits = record {
  deep = stacked-Fits.deep;
  bounded = stacked-Fits.bounded;
  clear = stacked-Fits.clear;
}

-- Task 2 sleeps until time 25.
lone-Slept : Slept (30 ∷ []) lone 5 cpu (3 ∷ 1 ∷ []) (2 ∷ [])
unfolding insert erase
lone-Slept =
    delay-Slept (30 ∷ []) lone 5 cpu (2 ∷ 3 ∷ 1 ∷ []) [] lone-Settled refl
      (inr (omega arith, omega arith)) lone-Fits

-- In the stack of task 3.
abbrev cpu' : Registers
cpu' = record { psp = 3500; r = λ i. i }

low_task : (a : Ptr) → has a (3 ∷ 1 ∷ []) ≡ true → a ≤ 3
low_task a h = ground (arith, h)

slept-Fits : Fits lone-Slept.after cpu'
slept-Fits = record {
  deep = omega arith;
  bounded =
      rw (lone-Slept.stack)
        (omega (arith, low_task lone-Slept.after.running lone-Slept.settled.here));
  clear = λ a. elim (Bool-cases (leb a 3)) [
    | inl le ↦ inl (rw (lone-Slept.stack) (ground (arith, le)))
    | inr gt ↦ inr (rw (lone-Slept.stack) (ground (arith, gt)))
  ];
}

os_delay-RunsOn_example : RunsOn (30 ∷ []) lone (λ ms s. ok tt s) (until_tick cpu 30 0 cpu') 5
os_delay-RunsOn_example =
    os_delay-RunsOn (30 ∷ []) lone lone-Slept.after (λ ms s. ok tt s) 5 30 0 cpu cpu'
      (2 ∷ 3 ∷ 1 ∷ []) lone-Settled refl refl refl (λ a h n. ground (arith, h, n)) (omega arith)
      (omega arith) lone-Fits lone-Slept.result (omega arith) slept-Fits (inl (omega arith))
