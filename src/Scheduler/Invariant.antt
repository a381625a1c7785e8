-- ===== src/Scheduler/Invariant.antt =====
-- The scheduler's invariant, and that `osi_task_status_set` keeps it.
use arduino_osh.Base.{
  suc, ◌+◌, ◌<◌, ◌≡◌, refl, sym, ◌∙◌, inl, inr, true, false, List, ◌∷◌, arith, ◌==◌, length, All,
  All-has, update, has, subst, Bool-cases, ==_sym, ==→eq, ==_refl,
}
use arduino_osh.Types.{
  Ptr, null, TaskStatus, idle, wait, suspended, status_code, os_task_status_is_running, Os, Event,
}
use arduino_osh.Machine.{ok, rounds}
use arduino_osh.Chain.{Chain-Distinct, erase, insert}
use arduino_osh.Chain.Order.{
  Falling, Rising, Falling-insert, Falling-erase, Rising-insert, Rising-erase, All-insert,
  All-erase, All-map, has-insert, has-erase, not-has-erase, has-erase_self, has-differ,
  length-insert, length-erase, length-erase-le,
}
use arduino_osh.RunQueue.Add.{ranks_below}
use arduino_osh.WaitQueue.Add.{due_after}
use arduino_osh.Scheduler.Status.{requeue, osi_task_status_set}
use arduino_osh.Scheduler.Queues.{
  Lists, Requeued, relink, requeue-wait, requeue-suspended, requeue-idle, requeue-resume, outside,
}

-- The run queue holds tasks that can run, by falling priority, and the wait queue tasks that wait,
-- by rising wake-up time. Both end, and share no task.
pub record Queues (s : Os) (run waiting : List Ptr) : Type 0 where
  pub lists : Lists s run waiting
  pub can_run : All (λ a. os_task_status_is_running (s.task.status a) ≡ true) run
  pub waits : All (λ a. s.task.status a ≡ wait) waiting
  pub ranked : Falling s.task.priority run
  pub due : Rising s.task.delay waiting

abbrev pub with_status : Os → Ptr → TaskStatus → Os
with_status s task new = record s {
  task = record (s.task) { status = update s.task.status task new };
}

-- `osi_task_status_set` returns, and changes nothing but the status, the two queues and the trace.
pub record StatusSet (s : Os) (task : Ptr) (new : TaskStatus) (run waiting : List Ptr)
    : Type 0 where
  pub next : Ptr → Ptr
  pub run_head : Ptr
  pub wait_head : Ptr
  pub trace : List Event
  pub result :
      osi_task_status_set task new s
      ≡ ok (status_code new) (relink (with_status s task new) next run_head wait_head trace)
  pub queues : Queues (relink (with_status s task new) next run_head wait_head trace) run waiting

module _ (s : Os) (task : Ptr) (new : TaskStatus) (run waiting : List Ptr)
    (live : (task == null) ≡ false) where
  set_status-result :
      (m : Requeued (with_status s task new) run waiting (requeue task (s.task.status task) new))
      → (trace : List Event) × (osi_task_status_set task new s
          ≡ ok
              (status_code new)
              (relink (with_status s task new) m.next m.run_head m.wait_head trace))
  unfolding osi_task_status_set
  set_status-result m = elim (Bool-cases (s.status_hook == null)) [
    | inl none ↦ (m.trace, simp (live, m.result, none))
    | inr some ↦ (Event.hook task (s.task.status task) ∷ m.trace, simp (live, m.result, some))
  ]

  set_status-StatusSet :
      Requeued (with_status s task new) run waiting (requeue task (s.task.status task) new)
      → ((a : Ptr) → has a run ≡ true → has a waiting ≡ false)
      → length run + length waiting < rounds
      → All (λ a. os_task_status_is_running ((with_status s task new).task.status a) ≡ true) run
      → All (λ a. (with_status s task new).task.status a ≡ wait) waiting
      → Falling s.task.priority run
      → Rising s.task.delay waiting
      → StatusSet s task new run waiting
  set_status-StatusSet m apart room can waits ranked due =
      let (trace, result) = set_status-result m in
      record {
        next = m.next;
        run_head = m.run_head;
        wait_head = m.wait_head;
        trace = trace;
        result = result;
        queues = record {
          lists = record {
            run_chain = m.run_chain;
            wait_chain = m.wait_chain;
            apart = apart;
            room = room;
          };
          can_run = can;
          waits = waits;
          ranked = ranked;
          due = due;
        };
      }

-- Members other than `task` keep their status.
All-status :
    (P : TaskStatus → Type 0) (s : Os) (task : Ptr) (new : TaskStatus) (xs : List Ptr)
    → has task xs ≡ false
    → All (λ a. P (s.task.status a)) xs
    → All (λ a. P ((with_status s task new).task.status a)) xs
All-status P s task new xs out h =
    All-map _ _ xs (λ a i p. rw (==_sym task a ∙ has-differ a task xs i out) p) h

module _ (s : Os) (task : Ptr) (run waiting : List Ptr) (q : Queues s run waiting)
    (live : (task == null) ≡ false) where
  set_status-Lists : (new : TaskStatus) → Lists (with_status s task new) run waiting
  set_status-Lists new = record {
    run_chain = q.lists.run_chain;
    wait_chain = q.lists.wait_chain;
    apart = q.lists.apart;
    room = q.lists.room;
  }

  not_in_erased_run : has task (erase task run) ≡ false
  not_in_erased_run = has-erase_self task run (Chain-Distinct _ _ run q.lists.run_chain)

  not_in_erased_wait : has task (erase task waiting) ≡ false
  not_in_erased_wait = has-erase_self task waiting (Chain-Distinct _ _ waiting q.lists.wait_chain)

  -- The run queue with `task` shares no task with a list that it is not in.
  joined :
      (xs : List Ptr)
      → has task xs ≡ false
      → ((a : Ptr) → has a run ≡ true → has a xs ≡ false)
      → (a : Ptr) → has a (insert (ranks_below s task) task run) ≡ true
      → has a xs ≡ false
  joined xs out rest a j = elim (Bool-cases (a == task)) [
    | inl e ↦ rw (==→eq a task e) out
    | inr n ↦ rest a (rw (has-insert (ranks_below s task) a task run, n) at j)
  ]

  -- Let the invariant of the queues hold. A task of the run queue that comes to wait leaves it for its place in the wait queue, and the
  -- invariant holds again.
  pub StatusSet-wait :
      has task run ≡ true
      → StatusSet s task wait (erase task run) (insert (due_after s task) task waiting)
  StatusSet-wait i =
      set_status-StatusSet s task wait _ _ live
        (requeue-wait _ task run waiting (set_status-Lists wait) live _ i)
        (λ a j.
          rw
            (
              has-insert (due_after s task) a task waiting,
              has-differ a task (erase task run) j not_in_erased_run,
            )
            (q.lists.apart a (has-erase a task run j)))
        (omega (
          arith,
          q.lists.room,
          length-erase task run i,
          length-insert (due_after s task) task waiting,
        ))
        (All-status (λ t. os_task_status_is_running t ≡ true) s task wait _ not_in_erased_run
          (All-erase _ task run q.can_run))
        (All-insert _ _ task waiting (rw ==_refl refl)
          (All-status (λ t. t ≡ wait) s task wait waiting (q.lists.apart task i) q.waits))
        (Falling-erase _ task run q.ranked) (Rising-insert s.task.delay task waiting q.due)

  -- Let the invariant of the queues hold. A task that is suspended, from whichever queue, leaves it, and the invariant holds again.
  pub StatusSet-suspended : StatusSet s task suspended (erase task run) (erase task waiting)
  StatusSet-suspended =
      set_status-StatusSet s task suspended _ _ live
        (requeue-suspended _ task run waiting (set_status-Lists suspended) live _)
        (λ a j. not-has-erase a task waiting (q.lists.apart a (has-erase a task run j)))
        (omega (arith, q.lists.room, length-erase-le task run, length-erase-le task waiting))
        (All-status (λ t. os_task_status_is_running t ≡ true) s task suspended _ not_in_erased_run
          (All-erase _ task run q.can_run))
        (All-status (λ t. t ≡ wait) s task suspended _ not_in_erased_wait
          (All-erase _ task waiting q.waits))
        (Falling-erase _ task run q.ranked) (Rising-erase _ task waiting q.due)

  -- Let the invariant of the queues hold. A waiting task that is woken leaves the wait queue for its place in the run queue, behind the
  -- tasks of at least its priority, and the invariant holds again.
  pub StatusSet-idle :
      has task waiting ≡ true
      → StatusSet s task idle (insert (ranks_below s task) task run) (erase task waiting)
  StatusSet-idle i =
      set_status-StatusSet s task idle _ _ live
        (subst
          (λ old.
            Requeued (with_status s task idle) (insert (ranks_below s task) task run)
              (erase task waiting) (requeue task old idle))
          (sym (All-has _ task waiting q.waits i))
          (requeue-idle _ task run waiting (set_status-Lists idle) live i (rw ==_refl refl)))
        (joined (erase task waiting) not_in_erased_wait
          (λ a j. not-has-erase a task waiting (q.lists.apart a j)))
        (omega (
          arith,
          q.lists.room,
          length-erase task waiting i,
          length-insert (ranks_below s task) task run,
        ))
        (All-insert _ _ task run (rw ==_refl refl) (
          All-status (λ t. os_task_status_is_running t ≡ true) s task idle run
            (outside s task run waiting q.lists live task i) q.can_run))
        (All-status (λ t. t ≡ wait) s task idle _ not_in_erased_wait
          (All-erase _ task waiting q.waits))
        (Falling-insert s.task.priority task run q.ranked) (Rising-erase _ task waiting q.due)

  -- Let the invariant of the queues hold, with fewer tasks than rounds by two or more. A suspended
  -- task in neither queue that is resumed takes its place in the run queue, behind the
  -- tasks of at least its priority, and the invariant holds again.
  pub StatusSet-resume :
      s.task.status task ≡ suspended
      → has task run ≡ false
      → has task waiting ≡ false
      → suc (length run + length waiting) < rounds
      → StatusSet s task idle (insert (ranks_below s task) task run) waiting
  StatusSet-resume asleep new out room =
      set_status-StatusSet s task idle _ _ live
        (rw asleep (
          requeue-resume _ task run waiting (set_status-Lists idle) live new out room
            (rw ==_refl refl)))
        (joined waiting out q.lists.apart)
        (omega (arith, room, length-insert (ranks_below s task) task run))
        (All-insert _ _ task run (rw ==_refl refl)
          (All-status (λ t. os_task_status_is_running t ≡ true) s task idle run new q.can_run))
        (All-status (λ t. t ≡ wait) s task idle waiting out q.waits)
        (Falling-insert s.task.priority task run q.ranked) q.due
