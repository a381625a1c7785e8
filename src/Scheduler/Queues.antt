-- ===== src/Scheduler/Queues.antt =====
-- The invariant of the two queues, and `osi_task_status_set`'s moves between them.
use arduino_osh.Base.{
  suc, ◌+◌, ◌<◌, ◌≡◌, refl, inl, inr, true, false, List, arith, ◌==◌, length, has, Distinct,
  Bool-cases,
}
use arduino_osh.Types.{
  Ptr, null, TaskStatus, idle, wait, suspended, os_task_status_is_running, Os, Event,
}
use arduino_osh.Machine.{◌>>◌, M, ok, and_then, with_nrp, rounds}
use arduino_osh.Chain.{Chain, erase, insert, Chain-frame, Chain-Distinct}
use arduino_osh.Chain.Order.{
  has-differ, has-erase, not-has-erase, length-erase-le, length-erase, has-erase_self,
}
use arduino_osh.RunQueue.Add.{ranks_below, runqueue_add-Added}
use arduino_osh.RunQueue.Remove.{runqueue_remove-Removed}
use arduino_osh.WaitQueue.Add.{due_after, waitqueue_add-Added}
use arduino_osh.WaitQueue.Remove.{waitqueue_remove-Removed}
use arduino_osh.RunQueue.{runqueue_add, runqueue_remove}
use arduino_osh.WaitQueue.{waitqueue_add, waitqueue_remove}
use arduino_osh.Scheduler.Status.{requeue}

-- The state with other queues.
abbrev pub relink : Os → (Ptr → Ptr) → Ptr → Ptr → List Event → Os
relink s next run_head wait_head trace = record (with_nrp s next) {
  runqueue = run_head;
  waitqueue = wait_head;
  trace = trace;
}

-- Two lists that end and share no task.
pub record Lists (s : Os) (run waiting : List Ptr) : Type 0 where
  pub run_chain : Chain s.task.nrp s.runqueue run
  pub wait_chain : Chain s.task.nrp s.waitqueue waiting
  pub apart : (a : Ptr) → has a run ≡ true → has a waiting ≡ false
  pub room : length run + length waiting < rounds

-- A run that moves tasks between the queues.
pub record Requeued (s : Os) (run waiting : List Ptr) (r : M (Unit {0})) : Type 0 where
  pub next : Ptr → Ptr
  pub run_head : Ptr
  pub wait_head : Ptr
  pub trace : List Event
  pub result : r s ≡ ok tt (relink s next run_head wait_head trace)
  pub run_chain : Chain next run_head run
  pub wait_chain : Chain next wait_head waiting

module _ (s : Os) (task : Ptr) (run waiting : List Ptr) (l : Lists s run waiting)
    (live : (task == null) ≡ false) where
  pub outside : (a : Ptr) → has a waiting ≡ true → has a run ≡ false
  outside a i = elim (Bool-cases (has a run)) [ inl j ↦ ground (arith, l.apart a j) | inr j ↦ j ]

  pub leave_run : Requeued s (erase task run) waiting (runqueue_remove task)
  leave_run =
      let r = runqueue_remove-Removed s task run (omega (arith, l.room)) l.run_chain in
      record {
        next = r.next;
        run_head = r.head;
        wait_head = s.waitqueue;
        trace = s.trace;
        result = r.result;
        run_chain = r.chain;
        wait_chain = Chain-frame s.waitqueue waiting l.wait_chain (λ a i. r.same a (outside a i));
      }

  pub leave_wait : Requeued s run (erase task waiting) (waitqueue_remove task)
  leave_wait =
      let r = waitqueue_remove-Removed s task waiting (omega (arith, l.room)) l.wait_chain in
      record {
        next = r.next;
        run_head = s.runqueue;
        wait_head = r.head;
        trace = s.trace;
        result = r.result;
        run_chain = Chain-frame s.runqueue run l.run_chain (λ a i. r.same a (l.apart a i));
        wait_chain = r.chain;
      }

  pub enter_run :
      suc (length run) < rounds
      → has task run ≡ false
      → has task waiting ≡ false
      → os_task_status_is_running (s.task.status task) ≡ true
      → Requeued s (insert (ranks_below s task) task run) waiting (runqueue_add task)
  enter_run fuel new out can =
      let r =
        runqueue_add-Added s task run fuel live new (ground (arith, can)) (ground (arith, can))
          l.run_chain in
      record {
        next = r.next;
        run_head = r.head;
        wait_head = s.waitqueue;
        trace = r.trace;
        result = r.result;
        run_chain = r.chain;
        wait_chain =
            Chain-frame s.waitqueue waiting l.wait_chain
              (λ a i. r.same a (has-differ a task waiting i out) (outside a i));
      }

  pub enter_wait :
      suc (length waiting) < rounds
      → has task run ≡ false
      → has task waiting ≡ false
      → Requeued s run (insert (due_after s task) task waiting) (waitqueue_add task)
  enter_wait fuel new out =
      let r = waitqueue_add-Added s task waiting fuel live out l.wait_chain in
      record {
        next = r.next;
        run_head = s.runqueue;
        wait_head = r.head;
        trace = s.trace;
        result = r.result;
        run_chain =
            Chain-frame s.runqueue run l.run_chain
              (λ a i. r.same a (has-differ a task run i new) (l.apart a i));
        wait_chain = r.chain;
      }

-- The lists that two moves in turn leave.
in_turn :
    (s : Os) {run waiting run' waiting' : List Ptr} (r q : M (Unit {0}))
    (first : Requeued s run waiting r)
    → Requeued (relink s first.next first.run_head first.wait_head first.trace) run' waiting' q
    → Requeued s run' waiting' (λ s'. and_then (r s') (λ _. q))
in_turn s r q first second = record {
  next = second.next;
  run_head = second.run_head;
  wait_head = second.wait_head;
  trace = second.trace;
  result = rw first.result second.result;
  run_chain = second.run_chain;
  wait_chain = second.wait_chain;
}

module _ (s : Os) (task : Ptr) (run waiting : List Ptr) (l : Lists s run waiting)
    (live : (task == null) ≡ false) where
  Distinct-run : Distinct run
  Distinct-run = Chain-Distinct s.task.nrp s.runqueue run l.run_chain

  Distinct-wait : Distinct waiting
  Distinct-wait = Chain-Distinct s.task.nrp s.waitqueue waiting l.wait_chain

  -- A task of the run queue comes to wait.
  pub requeue-wait :
      (old : TaskStatus)
      → has task run ≡ true
      → Requeued s (erase task run) (insert (due_after s task) task waiting) (requeue task old wait)
  unfolding requeue
  requeue-wait old i =
      let first = leave_run s task run waiting l live in
      in_turn s _ _ first (
        enter_wait _ task (erase task run) waiting
          (record {
            run_chain = first.run_chain;
            wait_chain = first.wait_chain;
            apart = λ a j. l.apart a (has-erase a task run j);
            room = omega (arith, length-erase-le task run, l.room);
          })
          live (omega (arith, length-erase task run i, l.room))
          (has-erase_self task run Distinct-run) (l.apart task i))

  -- A task of the run queue ends or is suspended.
  pub requeue-suspended :
      (old : TaskStatus)
      → Requeued s (erase task run) (erase task waiting) (requeue task old suspended)
  unfolding requeue
  requeue-suspended old =
      let first = leave_wait s task run waiting l live in
      in_turn s _ _ first (
        leave_run _ task run (erase task waiting)
          (record {
            run_chain = first.run_chain;
            wait_chain = first.wait_chain;
            apart = λ a j. not-has-erase a task waiting (l.apart a j);
            room = omega (arith, length-erase-le task waiting, l.room);
          })
          live)

  -- A waiting task goes to the run queue.
  pub move_to_run :
      has task waiting ≡ true
      → os_task_status_is_running (s.task.status task) ≡ true
      → Requeued s
          (insert (ranks_below s task) task run)
          (erase task waiting)
          (do waitqueue_remove task; runqueue_add task)
  move_to_run i can =
      let first = leave_wait s task run waiting l live in
      in_turn s _ _ first (
        enter_run _ task run (erase task waiting)
          (record {
            run_chain = first.run_chain;
            wait_chain = first.wait_chain;
            apart = λ a j. not-has-erase a task waiting (l.apart a j);
            room = omega (arith, length-erase-le task waiting, l.room);
          })
          live (omega (arith, length-erase task waiting i, l.room))
          (outside s task run waiting l live task i) (has-erase_self task waiting Distinct-wait)
          can)

  -- A waiting task can run again.
  pub requeue-idle :
      has task waiting ≡ true
      → s.task.status task ≡ idle
      → Requeued s
          (insert (ranks_below s task) task run)
          (erase task waiting)
          (requeue task wait idle)
  unfolding requeue
  requeue-idle i can = move_to_run i (rw can refl)

  -- A task that is in no queue can run.
  pub requeue-resume :
      has task run ≡ false
      → has task waiting ≡ false
      → suc (length run + length waiting) < rounds
      → s.task.status task ≡ idle
      → Requeued s (insert (ranks_below s task) task run) waiting (requeue task suspended idle)
  unfolding requeue
  requeue-resume new out room can =
      enter_run s task run waiting l live (omega arith) new out (rw can refl)
