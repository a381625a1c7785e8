-- ===== src/Tests/Stacked.antt =====
-- The running system with stacks of 1024 bytes, in which task 4 waits for mutex 30 of task 3.
use arduino_osh.Base.{
  ◌*◌, ◌+◌, refl, inl, inr, [], ◌∷◌, arith, ◌==◌, leb, Bool-cases, ==→eq, sym, subst,
}
use arduino_osh.Types.{Ptr, Os, stack_magic_word}
use arduino_osh.Scheduler.Invariant.{Queues}
use arduino_osh.Kernel.{Registers}
use arduino_osh.Kernel.Objects.{Objects, Objects-same, Blocks, nothing, one}
use arduino_osh.Kernel.Settled.{Fit, Fits, Settled}
use arduino_osh.Tests.Statuses.{queues}
use arduino_osh.Tests.Handover.{contended, blocks_on}
use arduino_osh.Tests.Waiters.{five, lists, held_by, held_by-Locks}

abbrev pub stacked : Os
stacked = record (held_by 3) {
  memory = λ _. stack_magic_word;
  task = record (contended.task) { stack = λ a. 1024 * a; sp = λ a. 1024 * a + 512 };
}

abbrev pub cpu : Registers
cpu = record { psp = 2500; r = λ i. i }

stacked-Queues : Queues stacked (2 ∷ 3 ∷ 1 ∷ []) (4 ∷ [])
stacked-Queues = record {
  lists = record {
    run_chain = queues.lists.run_chain;
    wait_chain = queues.lists.wait_chain;
    apart = queues.lists.apart;
    room = queues.lists.room;
  };
  can_run = queues.can_run;
  waits = queues.waits;
  ranked = queues.ranked;
  due = queues.due;
}

pub stacked-Fit : (a : Ptr) → Fit stacked a
stacked-Fit a = record {
  above = elim (Bool-cases (1 == a)) [
    | inl e ↦ inl (sym (==→eq 1 a e))
    | inr n ↦ inr (rw n (omega arith))
  ];
  bounded = omega arith;
  magic = refl;
}

pub stacked-Fits : Fits stacked cpu
stacked-Fits = record {
  deep = omega arith;
  bounded = omega arith;
  clear = λ a. elim (Bool-cases (leb a 2)) [
    | inl le ↦ inl (ground (arith, le))
    | inr gt ↦ inr (ground (arith, gt))
  ];
}

pub stacked-Objects : Objects (30 ∷ []) stacked (2 ∷ 3 ∷ 1 ∷ []) (4 ∷ [])
stacked-Objects =
    Objects-same (30 ∷ []) (held_by 3) stacked (2 ∷ 3 ∷ 1 ∷ []) (4 ∷ []) refl refl refl refl refl
      refl refl
      (record {
        tasks = five;
        lists = lists;
        locks = held_by-Locks 3;
        covers = λ a i. ground (arith, i);
        blocks = λ a i. elim (Bool-cases (4 == a)) [
          | inl e ↦ subst (Blocks (30 ∷ []) (held_by 3)) (==→eq 4 a e) (
              one 30 refl (record {
                flags = blocks_on.flags;
                waits_for = blocks_on.waits_for;
                queue = blocks_on.queue;
                semaphore = blocks_on.semaphore;
                rwlock = blocks_on.rwlock;
              }))
          | inr n ↦ nothing (rw n refl)
        ];
      })

pub settled : Settled (30 ∷ []) stacked (2 ∷ 3 ∷ 1 ∷ []) (4 ∷ [])
settled = record {
  queues = stacked-Queues;
  none = refl;
  begun = refl;
  here = refl;
  now_active = refl;
  top = (omega arith, (omega arith, (omega arith, tt)));
  idle_here = refl;
  fit = λ a i. stacked-Fit a;
  objects = stacked-Objects;
  free = refl;
}
