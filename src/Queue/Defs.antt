-- ===== src/Queue/Defs.antt =====
-- The operations of src/queue.c.
use Prim.Native.Nat.{bit_and}
use arduino_osh.Base.{ℕ, ◌+◌, ◌-◌, ◌%◌, Bool, not, ◌&&◌, ◌==◌, ltb, if◌then◌else◌, update}
use arduino_osh.Types.{
  Ptr, null, Queue, QueueDefinition, QueueStatus, queue_status_eq, queue_flags_queue_only, u16_mod,
  flag_queue, oss_success, oss_error_to, oss_error_mem, Tuple,
}
use arduino_osh.Machine.{
  M, pure, skip, get, os_assert, load, set_nblocked, set_queue, set_c, load_queue, store_queue,
  with_tasks, when, pend_sv, ◌>>=◌, ◌>>◌,
}
use arduino_osh.Blocked.{blocked_append}
use arduino_osh.Stack.{set_stacked_return_tuple}
use arduino_osh.Scheduler.{osi_dispatch_or_queue}
use arduino_osh.Service.{svc_block}

unfoldable pub blocked_enq : Ptr → Ptr → M (Unit {0})
blocked_enq queue task = do
  blocked ← load_queue queue (λ q. q.blocked)
  blocked ← blocked_append blocked task
  store_queue queue (λ q. record q { blocked = blocked })
  theirs ← load task (λ t. t.queue)
  os_assert (theirs == null)
  set_queue task queue

unfoldable pub blocked_deq : Ptr → M Ptr
blocked_deq queue = do
  task ← load_queue queue (λ q. q.blocked.tasks)
  if task == null then pure null else (do
    theirs ← load task (λ t. t.queue)
    os_assert (theirs == queue)
    next ← load task (λ t. t.nblocked)
    store_queue queue (λ q. record q { blocked = with_tasks q.blocked next })
    set_nblocked task null
    pure task)

-- The loop that sets every message to `NULL` is one assignment to the map.
unfoldable pub osi_queue_create : Ptr → QueueDefinition → M ℕ
osi_queue_create queue def = do
  store_queue queue (λ q. record {
    def = def;
    blocked = record { type = 0; tasks = null };
    size = def.size;
    number = 0;
    first = 0;
    last = 0;
    status = QueueStatus.fine;
    messages = λ i. if ltb i def.size then null else q.messages i;
  })
  pure oss_success

-- `if (++index == size) index = 0`.
abbrev pub advance : ℕ → ℕ → ℕ
advance index size = let next = (index + 1) % u16_mod in if next == size then 0 else next

-- The message goes behind the others: `messages[first] = message; number++; ++first …`.
unfoldable pub put : Queue → Ptr → Queue
put q message = record q {
  messages = update q.messages q.first message;
  number = (q.number + 1) % u16_mod;
  first = advance q.first q.size;
}

-- The oldest message is taken: `message = messages[last]; ++last …; number--`.
unfoldable pub take : Queue → Ptr × Queue
take q = (q.messages q.last, record q { last = advance q.last q.size; number = q.number - 1 })

-- A receiver waits, and the queue allows to hand it a message directly.
unfoldable pub receiver_waits : Queue → Bool
receiver_waits q =
    (bit_and q.def.flags queue_flags_queue_only == 0)
    && not (q.blocked.tasks == null)
    && queue_status_eq q.status QueueStatus.blocked_receive

unfoldable pub sender_waits : Queue → Bool
sender_waits q = not (q.blocked.tasks == null) && queue_status_eq q.status QueueStatus.blocked_send

-- The message goes through the saved registers of the first waiting receiver.
unfoldable pub send_directly : Ptr → Ptr → M (Unit {0})
send_directly queue message = do
  blocked_receiver ← blocked_deq queue
  set_stacked_return_tuple blocked_receiver (record { status = oss_success; value = message })
  osi_dispatch_or_queue blocked_receiver
  skip

unfoldable pub osi_queue_enqueue_isr : Ptr → Ptr → M Tuple
osi_queue_enqueue_isr queue message = do
  q ← load_queue queue (λ q. q)
  if receiver_waits q
      then (do
        send_directly queue message
        pend_sv
        pure (record { status = oss_success; value = 0 }))
      else if q.number == q.size
      then pure (record { status = oss_error_mem; value = 0 })
      else (do
        store_queue queue (λ q. put (record q { status = QueueStatus.fine }) message)
        pure (record { status = oss_success; value = 0 }))

unfoldable pub osi_queue_enqueue : Ptr → Ptr → ℕ → M ℕ
osi_queue_enqueue queue message to = do
  running ← get (λ s. s.running)
  os_assert (not (running == null))
  next ← load running (λ t. t.nblocked)
  os_assert (next == null)
  q ← load_queue queue (λ q. q)
  if receiver_waits q
      then (do send_directly queue message; pure oss_success)
      else if q.number == q.size
      then (if to == 0 then pure oss_error_mem else (do
        set_c running message
        store_queue queue (λ q. record q { status = QueueStatus.blocked_send })
        blocked_enq queue running
        svc_block to flag_queue
        pure oss_error_to))
      else (do
        store_queue queue (λ q. put (record q { status = QueueStatus.fine }) message)
        pure oss_success)

-- The first waiting sender's message goes into the room that has come free.
unfoldable pub admit_sender : Ptr → M (Unit {0})
admit_sender queue = do
  blocked_sender ← blocked_deq queue
  message ← load blocked_sender (λ t. t.c)
  store_queue queue (λ q. put q message)
  set_c blocked_sender null
  set_stacked_return_tuple blocked_sender (record { status = oss_success; value = null })
  osi_dispatch_or_queue blocked_sender
  skip

-- `message` is what `*message` holds before the call, and holds after it where nothing is
-- written.
unfoldable pub osi_queue_dequeue : Ptr → Ptr → ℕ → M Tuple
osi_queue_dequeue queue message to = do
  running ← get (λ s. s.running)
  os_assert (not (running == null))
  next ← load running (λ t. t.nblocked)
  os_assert (next == null)
  q ← load_queue queue (λ q. q)
  if ltb 0 q.number
      then (do
        let (oldest, rest) = take q
        store_queue queue (λ _. rest)
        when (sender_waits q) (admit_sender queue)
        pure (record { status = oss_success; value = oldest }))
      else if to == 0
      then pure (record { status = oss_error_mem; value = message })
      else (do
        store_queue queue (λ q. record q { status = QueueStatus.blocked_receive })
        blocked_enq queue running
        svc_block to flag_queue
        pure (record { status = oss_error_to; value = message }))
