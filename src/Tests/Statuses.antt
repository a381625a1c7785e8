-- ===== src/Tests/Statuses.antt =====
-- The theorems on changes of status, at the system.
use arduino_osh.Base.{refl, [], ◌∷◌, arith}
use arduino_osh.Chain.{erase, insert}
use arduino_osh.Types.{wait, idle, suspended}
use arduino_osh.Machine.{rounds_lem}
use arduino_osh.Scheduler.Invariant.{
  Queues, StatusSet, StatusSet-wait, StatusSet-suspended, StatusSet-idle,
}
use arduino_osh.Tests.State.{system}

pub queues : Queues system (2 ∷ 3 ∷ 1 ∷ []) (4 ∷ [])
queues = record {
  lists = record {
    run_chain = (refl, refl, (refl, refl, (refl, refl, refl)));
    wait_chain = (refl, refl, refl);
    apart = λ a i. ground (arith, i);
    room = omega (arith, rounds_lem);
  };
  can_run = (refl, (refl, (refl, tt)));
  waits = (refl, tt);
  ranked = ((omega arith, (omega arith, tt)), ((omega arith, tt), (tt, tt)));
  due = (tt, tt);
}

StatusSet-wait_example : StatusSet system 2 wait (3 ∷ 1 ∷ []) (2 ∷ 4 ∷ [])
unfolding erase insert
StatusSet-wait_example = StatusSet-wait system 2 (2 ∷ 3 ∷ 1 ∷ []) (4 ∷ []) queues refl refl

StatusSet-suspended_example : StatusSet system 3 suspended (2 ∷ 1 ∷ []) (4 ∷ [])
unfolding erase
StatusSet-suspended_example = StatusSet-suspended system 3 (2 ∷ 3 ∷ 1 ∷ []) (4 ∷ []) queues refl

StatusSet-idle_example : StatusSet system 4 idle (2 ∷ 3 ∷ 4 ∷ 1 ∷ []) []
unfolding erase insert
StatusSet-idle_example = StatusSet-idle system 4 (2 ∷ 3 ∷ 1 ∷ []) (4 ∷ []) queues refl refl
