-- ===== src/Tests/Choice.antt =====
-- The theorems on the choice of the next task and on the switch to it, at the system.
use arduino_osh.Base.{refl, inl, inr, [], ◌∷◌, arith}
use arduino_osh.Machine.{rounds_lem}
use arduino_osh.Scheduler.Turn.{Turn, find_new_task-Turn}
use arduino_osh.Scheduler.Switch.{Dispatched, osi_dispatch-Dispatched}
use arduino_osh.Tests.State.{system}
use arduino_osh.Tests.Statuses.{queues}

find_new_task-Turn_example : Turn system 2 (3 ∷ 1 ∷ 2 ∷ [])
find_new_task-Turn_example =
    find_new_task-Turn system 2 [] (3 ∷ 1 ∷ []) (omega (arith, rounds_lem))
      (refl, refl, (refl, refl, (refl, refl, refl))) (refl, (refl, (refl, tt)))
      ((omega arith, (omega arith, tt)), ((omega arith, tt), (tt, tt)))

osi_dispatch-Dispatched_example : Dispatched system 3 (2 ∷ 3 ∷ 1 ∷ []) (4 ∷ [])
osi_dispatch-Dispatched_example =
    osi_dispatch-Dispatched system 3 (2 ∷ 3 ∷ 1 ∷ []) (4 ∷ []) queues refl refl refl refl refl
      (inr refl) (inl refl)
