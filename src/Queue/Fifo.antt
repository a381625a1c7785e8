-- ===== src/Queue/Fifo.antt =====
-- With no task waiting, a queue is a bounded first-in first-out list of messages.
use arduino_osh.Base.{
  ℕ, ◌≡◌, ap, ◌≤◌, inl, inr, false, List, [], ◌∷◌, ◌++◌, arith, ◌==◌, ltb, if◌then◌else◌, length,
  update, Bool-cases, update_self, ==→ne, ltb→lt, ltb→le,
}
use mathlib.Core.Path.{fun_ext}
use arduino_osh.Types.{Ptr, null, Queue, QueueStatus, Os, oss_success, oss_error_mem}
use arduino_osh.Machine.{ok}
use arduino_osh.Queue.Defs.{
  put, take, receiver_waits, sender_waits, osi_queue_enqueue, osi_queue_enqueue_isr,
  osi_queue_dequeue,
}
use arduino_osh.Queue.Ring.{
  IsValid, window, contents, contents-put, put-IsValid, contents-take, take-IsValid, length-window,
}

-- What a client sees of a bounded FIFO: the status, the message and the messages left.
abbrev pub push : ℕ → List Ptr → Ptr → ℕ × List Ptr
push cap xs m = if length xs == cap then (oss_error_mem, xs) else (oss_success, xs ++ m ∷ [])

abbrev pub pop : List Ptr → Ptr → ℕ × Ptr × List Ptr
pop [] m = (oss_error_mem, m, [])
pop (x ∷ xs) m = (oss_success, x, xs)

-- The state with another value of the queue at `p`.
abbrev pub with_queue : Os → Ptr → Queue → Os
with_queue s p q = record s { queue = update s.queue p q }

-- A call from a running task that is in no list of blocked tasks.
pub record CanCall (s : Os) (queue : Ptr) : Type 0 where
  pub queue_live : (queue == null) ≡ false
  pub running_live : (s.running == null) ≡ false
  pub unblocked : s.task.nblocked s.running ≡ null

with_queue_self : (s : Os) (p : Ptr) → with_queue s p (s.queue p) ≡ s
with_queue_self s p i = record s { queue = fun_ext (update_self s.queue p) i }

length-contents : (q : Queue) → length (contents q) ≡ q.number
length-contents q = length-window q.messages q.size q.last q.number

module _ (s : Os) (queue message : Ptr) (can : CanCall s queue) (v : IsValid (s.queue queue)) where
  -- `osi_queue_enqueue` that must not wait, and finds no waiting receiver, changes nothing but the
  -- queue. It keeps the queue valid, and its status and the queue's messages are those of a push
  -- to the bounded FIFO.
  pub enqueue-push :
      receiver_waits (s.queue queue) ≡ false
      → (q : Queue) × (osi_queue_enqueue queue message 0 s
          ≡ ok
              (push (s.queue queue).size (contents (s.queue queue)) message).0
              (with_queue s queue q))
        × IsValid q
        × (contents q ≡ (push (s.queue queue).size (contents (s.queue queue)) message).1)
  unfolding osi_queue_enqueue
  enqueue-push none = elim (Bool-cases ((s.queue queue).number == (s.queue queue).size)) [
    | inl full ↦ (
      s.queue queue,
      simp (
        can.running_live, can.unblocked, can.queue_live, none, full, length-contents,
        with_queue_self,
      ),
      v,
      simp (length-contents, full),
    )
    | inr room ↦ (
      put (record (s.queue queue) { status = QueueStatus.fine }) message,
      simp (can.running_live, can.unblocked, can.queue_live, none, room, length-contents),
      put-IsValid _ message (omega (arith, v)) (omega (arith, v, ==→ne _ _ room)),
      simp (length-contents, room)
          (contents-put _ message (omega (arith, v)) (omega (arith, v, ==→ne _ _ room))),
    )
  ]

  -- From an interrupt handler `osi_queue_enqueue_isr` does the same to the queue and returns the
  -- same status, with no value.
  pub isr-push :
      receiver_waits (s.queue queue) ≡ false
      → (q : Queue) × (osi_queue_enqueue_isr queue message s
          ≡ ok
              (record {
                status = (push (s.queue queue).size (contents (s.queue queue)) message).0;
                value = 0;
              })
              (with_queue s queue q))
        × IsValid q
        × (contents q ≡ (push (s.queue queue).size (contents (s.queue queue)) message).1)
  unfolding osi_queue_enqueue_isr
  isr-push none = elim (Bool-cases ((s.queue queue).number == (s.queue queue).size)) [
    | inl full ↦ (
      s.queue queue,
      simp (can.queue_live, none, full, length-contents, with_queue_self),
      v,
      simp (length-contents, full),
    )
    | inr room ↦ (
      put (record (s.queue queue) { status = QueueStatus.fine }) message,
      simp (can.queue_live, none, room, length-contents),
      put-IsValid _ message (omega (arith, v)) (omega (arith, v, ==→ne _ _ room)),
      simp (length-contents, room)
          (contents-put _ message (omega (arith, v)) (omega (arith, v, ==→ne _ _ room))),
    )
  ]

  -- `osi_queue_dequeue` that must not wait, and finds no waiting sender, changes nothing but the
  -- queue. It keeps the queue valid, and its status, the message that it hands over (`message`
  -- is what the caller's variable held) and the messages left are those of the bounded FIFO.
  pub dequeue-pop :
      sender_waits (s.queue queue) ≡ false
      → (q : Queue) × (osi_queue_dequeue queue message 0 s
          ≡ ok
              (record {
                status = (pop (contents (s.queue queue)) message).0;
                value = (pop (contents (s.queue queue)) message).1;
              })
              (with_queue s queue q))
        × IsValid q
        × (contents q ≡ (pop (contents (s.queue queue)) message).2)
  unfolding osi_queue_dequeue
  dequeue-pop none = elim (Bool-cases (ltb 0 (s.queue queue).number)) [
    | inl some ↦ (
      (take (s.queue queue)).1,
      simp (
        can.running_live,
        can.unblocked,
        can.queue_live,
        none,
        some,
        contents-take (s.queue queue) (ltb→lt _ _ some),
      ),
      take-IsValid _ v (ltb→lt _ _ some),
      simp (contents-take (s.queue queue) (ltb→lt _ _ some)),
    )
    | inr empty ↦ (
      s.queue queue,
      simp (
        can.running_live,
        can.unblocked,
        can.queue_live,
        empty,
        none_left (ltb→le _ _ empty),
        with_queue_self,
      ),
      v,
      simp (none_left (ltb→le _ _ empty)),
    )
  ]
    where
      none_left : (s.queue queue).number ≤ 0 → contents (s.queue queue) ≡ []
      none_left h =
          let e : (s.queue queue).number ≡ 0 = omega arith in
          ap (window (s.queue queue).messages (s.queue queue).size (s.queue queue).last) e
