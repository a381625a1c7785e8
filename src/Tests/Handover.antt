-- ===== src/Tests/Handover.antt =====
-- The theorems on tasks that are given what they wait for, at the system.
use arduino_osh.Base.{refl, inr, [], ◌∷◌, arith, update}
use arduino_osh.Types.{Os, QueueStatus}
use arduino_osh.Machine.{rounds_lem}
use arduino_osh.Scheduler.Invariant.{Queues}
use arduino_osh.Mutex.Handover.{BlocksOn, Handed, detach-Detaches, osi_mutex_release-Handed}
use arduino_osh.Queue.{receiver_waits}
use arduino_osh.Queue.Direct.{Sent, osi_queue_enqueue-Sent}
use arduino_osh.Scheduler.Resume.{Detaches, Resumed, osi_dispatch-Resumed}
use arduino_osh.Scheduler.Switch.{Queues-same}
use arduino_osh.Chain.{insert, erase}
use arduino_osh.Tests.State.{system, tasks, queue, mutex}
use arduino_osh.Tests.Statuses.{queues}

-- Task 2 holds mutex 30, for which task 4 waits.
abbrev pub contended : Os
contended = record system {
  mutex = λ _. record mutex { level = 1; blocked = record { type = 0; tasks = 4 } };
  task = record tasks { flags = update tasks.flags 4 1; mutex = update tasks.mutex 4 30 };
}

contended-Queues : Queues contended (2 ∷ 3 ∷ 1 ∷ []) (4 ∷ [])
contended-Queues = record {
  lists = record {
    run_chain = queues.lists.run_chain;
    wait_chain = queues.lists.wait_chain;
    apart = queues.lists.apart;
    room = queues.lists.room;
  };
  can_run = queues.can_run;
  waits = queues.waits;
  ranked = queues.ranked;
  due = queues.due;
}

pub blocks_on : BlocksOn contended 4 30
blocks_on = record { flags = refl; waits_for = refl; queue = refl; semaphore = refl; rwlock = refl }

osi_mutex_release-Handed_example : Handed contended 30 4 (2 ∷ 3 ∷ 4 ∷ 1 ∷ []) [] []
unfolding insert erase
osi_mutex_release-Handed_example =
    osi_mutex_release-Handed contended 30 4 (2 ∷ 3 ∷ 1 ∷ []) (4 ∷ []) [] contended-Queues refl refl
      refl refl refl refl refl (refl, refl, refl) (omega (arith, rounds_lem)) blocks_on refl refl
      (omega arith, (omega arith, (omega arith, tt)))

-- The same, once task 4 has been taken off the list.
abbrev given : Os
given = record contended { mutex = λ _. record mutex { owner = 4; level = 1 } }

given-Queues : Queues given (2 ∷ 3 ∷ 1 ∷ []) (4 ∷ [])
given-Queues = Queues-same contended given _ _ refl refl refl contended-Queues

given-Detaches : Detaches given 4
given-Detaches =
    (detach-Detaches given 4 30 []
      (record { flags = refl; waits_for = refl; queue = refl; semaphore = refl; rwlock = refl })
      refl refl refl refl (omega (arith, rounds_lem))).0

osi_dispatch-Resumed_example : Resumed given 4 given-Detaches (2 ∷ 3 ∷ 4 ∷ 1 ∷ []) []
unfolding insert erase
osi_dispatch-Resumed_example =
    osi_dispatch-Resumed given 4 (2 ∷ 3 ∷ 1 ∷ []) (4 ∷ []) given-Queues refl refl refl refl
      (inr refl) refl given-Detaches

-- Task 4 waits to receive from queue 20, which is empty.
abbrev receiving : Os
receiving = record system {
  queue = λ _. record queue {
    number = 0;
    last = 1;
    first = 1;
    status = QueueStatus.blocked_receive;
    blocked = record { type = 0; tasks = 4 };
  };
  task = record tasks { flags = update tasks.flags 4 2; queue = update tasks.queue 4 20 };
}

osi_queue_enqueue-Sent_example : Sent receiving 20 4 88 0 (2 ∷ 3 ∷ 4 ∷ 1 ∷ []) [] []
unfolding insert erase receiver_waits
osi_queue_enqueue-Sent_example =
    osi_queue_enqueue-Sent receiving 20 4 88 0 (2 ∷ 3 ∷ 1 ∷ []) (4 ∷ []) []
      (record {
        lists = record {
          run_chain = queues.lists.run_chain;
          wait_chain = queues.lists.wait_chain;
          apart = queues.lists.apart;
          room = queues.lists.room;
        };
        can_run = queues.can_run;
        waits = queues.waits;
        ranked = queues.ranked;
        due = queues.due;
      })
      refl refl refl refl refl refl (refl, refl, refl) (omega (arith, rounds_lem))
      (record { flags = refl; waits_for = refl; mutex = refl; semaphore = refl; rwlock = refl })
      refl refl (omega arith, (omega arith, (omega arith, tt))) (omega arith)
