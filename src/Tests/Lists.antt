-- ===== src/Tests/Lists.antt =====
-- The theorems on the two queues, at the system.
use arduino_osh.Base.{◌≡◌, refl, true, [], ◌∷◌, arith}
use arduino_osh.Machine.{ok, rounds_lem}
use arduino_osh.RunQueue.{runqueue_add, runqueue_has_higher_priority}
use arduino_osh.RunQueue.Add.{Added, runqueue_add-Added}
use arduino_osh.RunQueue.Higher.{has_higher_priority-outranked}
use arduino_osh.WaitQueue.{waitqueue_add}
use arduino_osh.WaitQueue.Add
use arduino_osh.WaitQueue.Add.{waitqueue_add-Added}
use arduino_osh.Tests.State.{system}

runqueue_add-Added_example : Added system 5 (2 ∷ 3 ∷ 1 ∷ []) (runqueue_add 5)
runqueue_add-Added_example =
    runqueue_add-Added system 5 (2 ∷ 3 ∷ 1 ∷ []) (omega (arith, rounds_lem)) refl refl refl refl
      (refl, refl, (refl, refl, (refl, refl, refl)))

waitqueue_add-Added_example : Add.Added system 5 (4 ∷ []) (waitqueue_add 5)
waitqueue_add-Added_example =
    waitqueue_add-Added system 5 (4 ∷ []) (omega (arith, rounds_lem)) refl refl (refl, refl, refl)

has_higher_priority-outranked_example : runqueue_has_higher_priority 1 system ≡ ok true system
has_higher_priority-outranked_example =
    has_higher_priority-outranked system 1 (2 ∷ 3 ∷ 1 ∷ []) (omega (arith, rounds_lem)) refl
      (refl, refl, (refl, refl, (refl, refl, refl)))
