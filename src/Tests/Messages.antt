-- ===== src/Tests/Messages.antt =====
-- The theorems on queues of messages, at the system.
use arduino_osh.Base.{◌≡◌, inr, refl, [], ◌∷◌, arith}
use arduino_osh.Tests.State.{system}
use arduino_osh.Types.{Queue, oss_success}
use arduino_osh.Machine.{ok}
use arduino_osh.Queue.{receiver_waits, sender_waits, osi_queue_enqueue, osi_queue_dequeue}
use arduino_osh.Queue.Ring.{IsValid, contents}
use arduino_osh.Queue.Fifo.{CanCall, with_queue, enqueue-push, dequeue-pop}
use arduino_osh.Tests.State.{queue}

valid : IsValid queue
valid = record {
  some_room = omega arith;
  small = omega arith;
  first_in = omega arith;
  last_in = omega arith;
  number_in = omega arith;
  place = inr refl;
}

can : CanCall system 20
can = record { queue_live = refl; running_live = refl; unblocked = refl }

enqueue-push_example :
    (q : Queue) × (osi_queue_enqueue 20 88 0 system ≡ ok oss_success (with_queue system 20 q))
    × IsValid q
    × (contents q ≡ 77 ∷ 88 ∷ [])
unfolding receiver_waits
enqueue-push_example = enqueue-push system 20 88 can valid refl

dequeue-pop_example :
    (q : Queue) × (osi_queue_dequeue 20 0 0 system
      ≡ ok (record { status = oss_success; value = 77 }) (with_queue system 20 q))
    × IsValid q
    × (contents q ≡ [])
unfolding sender_waits
dequeue-pop_example = dequeue-pop system 20 0 can valid refl
