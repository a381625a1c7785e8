-- ===== src/Tests/Waits.antt =====
-- The theorems on tasks that wait, at the system.
use arduino_osh.Base.{◌≡◌, refl, inr, [], ◌∷◌, arith, update}
use arduino_osh.Types.{TaskStatus, Os, Blocked}
use arduino_osh.Machine.{ok, rounds_lem}
use arduino_osh.Scheduler.Invariant.{Queues}
use arduino_osh.RunQueue.{osi_priority_check}
use arduino_osh.RunQueue.Silent.{osi_priority_check_silent}
use arduino_osh.Rwlock.{desired_read}
use arduino_osh.Rwlock.Readers.{OneReader, osi_rwlock_release-OneReader}
use arduino_osh.Tests.State.{system, tasks, rwlock}

osi_priority_check_silent_example : osi_priority_check 3 system ≡ ok tt system
osi_priority_check_silent_example =
    osi_priority_check_silent system 3 (2 ∷ 3 ∷ 1 ∷ []) (omega (arith, rounds_lem))
      (refl, refl, (refl, refl, (refl, refl, refl))) (refl, (refl, (refl, tt)))
      ((omega arith, (omega arith, tt)), ((omega arith, tt), (tt, tt)))
      (omega arith, (omega arith, (omega arith, tt)))
      (inr ((omega arith, (omega arith, (omega arith, tt))), omega arith))

-- A list of tasks 4 and 5.
abbrev blocked : Blocked
blocked = record { type = 0; tasks = 4 }

abbrev blocking : Os
blocking = record system { task = record tasks { nblocked = update tasks.nblocked 4 5 } }

-- Task 2 writes, and tasks 4 and 5 wait to read, in this order.
abbrev reading : Os
reading = record system {
  rwlock = λ _. record rwlock { writers = 1; writer = 2; blocked = record { type = 0; tasks = 4 } };
  task = record tasks {
    c = update (update tasks.c 4 desired_read) 5 desired_read;
    nblocked = update tasks.nblocked 4 5;
    status = update tasks.status 5 TaskStatus.wait;
    nrp = update tasks.nrp 4 5;
    delay = update tasks.delay 5 60;
  };
}

reading-Queues : Queues reading (2 ∷ 3 ∷ 1 ∷ []) (4 ∷ 5 ∷ [])
reading-Queues = record {
  lists = record {
    run_chain = (refl, refl, (refl, refl, (refl, refl, refl)));
    wait_chain = (refl, refl, (refl, refl, refl));
    apart = λ a i. ground (arith, i);
    room = omega (arith, rounds_lem);
  };
  can_run = (refl, (refl, (refl, tt)));
  waits = (refl, (refl, tt));
  ranked = ((omega arith, (omega arith, tt)), ((omega arith, tt), (tt, tt)));
  due = ((omega arith, tt), (tt, tt));
}

osi_rwlock_release-OneReader_example : OneReader reading 40 4 (5 ∷ []) (2 ∷ 3 ∷ 1 ∷ []) (4 ∷ 5 ∷ [])
osi_rwlock_release-OneReader_example =
    osi_rwlock_release-OneReader reading 40 4 (5 ∷ []) (2 ∷ 3 ∷ 1 ∷ []) (4 ∷ 5 ∷ []) reading-Queues
      refl refl refl refl refl refl (refl, refl, (refl, refl, refl))
