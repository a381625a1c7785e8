-- ===== src/Kernel/Prepare.antt =====
-- `os_task_initialize_options` of src/os.c builds the run queue of a system that is to start.
use arduino_osh.Base.{
  suc, ◌<◌, ◌≡◌, refl, ◌∙◌, inl, inr, true, false, not, ◌||◌, List, arith, ◌==◌, length, All,
  All-has, update, has, Bool-cases, ==→eq, ==_refl,
}
use arduino_osh.Types.{
  Ptr, null, StartStatus, TaskStatus, OsState, os_state_eq, status_eq, Os, TaskOptions, oss_success,
  os_task_status_is_running,
}
use arduino_osh.Machine.{ok, rounds, with_nrp}
use arduino_osh.Chain.{Chain, Chain-update}
use arduino_osh.Chain.Order.{Falling, All-map, has-differ}
use arduino_osh.Stack.Prepared.{Prepared}
use arduino_osh.Tasks.{fill_task, os_task_initialize_options, start_status}
use arduino_osh.Scheduler.Turn.{Chain-live}
use arduino_osh.Kernel.Objects.{Unblocked}
use arduino_osh.Kernel.Settled.{Fit}
use arduino_osh.Kernel.Start.{Initialized}
use arduino_osh.Kernel.Enter.{Entry, runqueue_add-Entered, finish_initialize-ok}
use arduino_osh.Kernel.Filled.{
  Falling-same, Joins, filled, filled-Unblocked, others-same, placed, prepared,
}

module _ (s : Os) (task : Ptr) (options : TaskOptions) (run : List Ptr) (i : Initialized s run)
    (j : Joins s task options run) (room : suc (length run) < rounds) where
  p :
      Prepared
        (record s { task = fill_task task options s.uptime s.task })
        task
        options.stack
        options.stack_size
  p = prepared s task options j.takes

  idle_other : (task == s.idle) ≡ false
  idle_other = ground (arith, has-differ s.idle task run i.idle_here j.out)

  kept-Fit : (a : Ptr) → has a run ≡ true → Fit (filled s task options p.memory) a
  unfolding fill_task
  kept-Fit a h =
      let f = i.fit a (rw h refl) in
      let other : (task == a) ≡ false = ground (arith, has-differ a task run h j.out) in
      record {
        above = rw (other, idle_other) f.above;
        bounded = rw other f.bounded;
        magic = rw other (p.outside (s.task.stack a) (j.apart a h) ∙ f.magic);
      }

  kept-Unblocked : (a : Ptr) → has a run ≡ true → Unblocked (filled s task options p.memory) a
  unfolding fill_task
  kept-Unblocked a h =
      let f = i.free a (rw h refl) in
      let other : (task == a) ≡ false = ground (arith, has-differ a task run h j.out) in
      record {
        flags = rw other f.flags;
        mutex = rw other f.mutex;
        nblocked = rw other f.nblocked;
        queue = rw other f.queue;
        semaphore = rw other f.semaphore;
        rwlock = rw other f.rwlock;
      }

  new-Fit : Fit (filled s task options p.memory) task
  unfolding fill_task
  new-Fit = record {
    above = inr (rw (==_refl, idle_other) (j.above));
    bounded = rw ==_refl (omega (arith, p.above));
    magic = rw ==_refl (p.magic);
  }

  Chain-kept : Chain (update s.task.nrp task null) s.runqueue run
  Chain-kept = Chain-update s.task.nrp s.runqueue task null run i.queues.lists.run_chain j.out

  can-kept :
      All
        (λ a.
          os_task_status_is_running (update s.task.status task (start_status options.status) a)
          ≡ true)
        run
  can-kept =
      All-map _ _ run
        (λ a h can.
          rw (others-same s.task.status task (start_status options.status) run a j.out h) can)
        i.queues.can_run

  ranked-kept : Falling (update s.task.priority task options.priority) run
  ranked-kept =
      Falling-same s.task.priority _ run
        (λ a h. others-same s.task.priority task options.priority run a j.out h) i.queues.ranked

  filled-Entry : Entry (filled s task options p.memory) task run
  unfolding fill_task
  filled-Entry = record {
    chain = Chain-kept;
    nobody = i.queues.lists.wait_chain;
    none = i.none;
    mcu = i.mcu;
    out = j.out;
    room = room;
    can_run = can-kept;
    ranked = ranked-kept;
    idle_here = ground (arith, i.idle_here);
    fit = λ a h. elim (Bool-cases (a == task)) [
      | inl e ↦ rw (==→eq a task e) new-Fit
      | inr n ↦ kept-Fit a (ground (arith, h, n))
    ];
    free = λ a h. elim (Bool-cases (a == task)) [
      | inl e ↦ rw (==→eq a task e) (filled-Unblocked s task options p.memory)
      | inr n ↦ kept-Unblocked a (ground (arith, h, n))
    ];
  }

  -- The system with the new task in its run queue.
  pub record Joined (placed : List Ptr) : Type 0 where
    pub after : Os
    pub result : os_task_initialize_options task options s ≡ ok oss_success after
    pub initialized : Initialized after placed
    pub idle : after.idle ≡ s.idle
    pub priority : after.task.priority ≡ update s.task.priority task options.priority
    pub stack : after.task.stack ≡ update s.task.stack task options.stack
    pub task_finished : after.task_finished ≡ s.task_finished

  idle_live : (s.idle == null) ≡ false
  idle_live =
      All-has (λ a. (a == null) ≡ false) s.idle run
        (Chain-live s.task.nrp s.runqueue run i.queues.lists.run_chain) i.idle_here

  pub running-Joined : options.status ≡ StartStatus.running → Joined (placed s task options run)
  unfolding fill_task os_task_initialize_options
  running-Joined start =
      let e =
        runqueue_add-Entered (filled s task options p.memory) task run j.takes.live filled-Entry
          (rw (==_refl, start) refl) in
      let ready : (not (
            os_state_eq s.state OsState.initialized
            || os_state_eq s.state OsState.tasks_initialized))
          ≡ false =
        rw (i.ready) refl in
      let can : status_eq (start_status options.status) TaskStatus.suspended ≡ false =
        rw start refl in
      record {
        after = record (with_nrp (filled s task options p.memory) e.next) {
          runqueue = e.head;
          trace = e.trace;
          state = OsState.tasks_initialized;
        };
        result = simp (ready, j.takes.live, p.result, idle_live, ==_refl) (simp can (e.result));
        initialized = e.initialized;
        idle = refl;
        priority = refl;
        stack = refl;
        task_finished = refl;
      }

  pub suspended-Joined : options.status ≡ StartStatus.suspended → Joined run
  unfolding fill_task os_task_initialize_options
  suspended-Joined start =
      let t = filled s task options p.memory in
      let (trace, done) = finish_initialize-ok t task in
      let ready : (not (
            os_state_eq s.state OsState.initialized
            || os_state_eq s.state OsState.tasks_initialized))
          ≡ false =
        rw (i.ready) refl in
      let cannot : status_eq (start_status options.status) TaskStatus.suspended ≡ true =
        rw start refl in
      record {
        after = record t { trace = trace; state = OsState.tasks_initialized };
        result = simp (ready, j.takes.live, p.result, idle_live, ==_refl) (simp cannot done);
        initialized = record {
          queues = record {
            lists = record {
              run_chain = Chain-kept;
              wait_chain = i.queues.lists.wait_chain;
              apart = λ a h. refl;
              room = i.queues.lists.room;
            };
            can_run = can-kept;
            waits = tt;
            ranked = ranked-kept;
            due = tt;
          };
          none = i.none;
          ready = refl;
          mcu = i.mcu;
          idle_here = i.idle_here;
          fit = λ a h.
              let f = kept-Fit a (ground (arith, h)) in
              record { above = f.above; bounded = f.bounded; magic = f.magic };
          free = λ a h.
              let f = kept-Unblocked a (ground (arith, h)) in
              record {
                flags = f.flags;
                mutex = f.mutex;
                nblocked = f.nblocked;
                queue = f.queue;
                semaphore = f.semaphore;
                rwlock = f.rwlock;
              };
        };
        idle = refl;
        priority = refl;
        stack = refl;
        task_finished = refl;
      }
