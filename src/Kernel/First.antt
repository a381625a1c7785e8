-- ===== src/Kernel/First.antt =====
-- The first task that `os_task_initialize_options` of src/os.c takes is the idle task.
use arduino_osh.Base.{
  ◌≡◌, refl, inl, true, false, not, ◌||◌, [], ◌∷◌, arith, ◌==◌, update, ==→eq, ==_refl,
}
use arduino_osh.Types.{
  Ptr, null, StartStatus, TaskStatus, OsState, os_state_eq, status_eq, Os, TaskOptions, oss_success,
  is_mcu, priority_idle,
}
use arduino_osh.Machine.{ok, rounds_lem, with_nrp}
use arduino_osh.Chain.{insert}
use arduino_osh.Stack.Prepared.{Prepared}
use arduino_osh.Tasks.{fill_task, os_task_initialize_options, start_status}
use arduino_osh.Kernel.Start.{Initialized}
use arduino_osh.Kernel.Enter.{Entry, runqueue_add-Entered}
use arduino_osh.Kernel.Filled.{filled, filled-Unblocked, Takes, prepared}

-- The system after `os_initialize`, before its first task.
pub record Empty (s : Os) : Type 0 where
  pub ready : s.state ≡ OsState.initialized
  pub nobody : s.idle ≡ null
  pub none_runs : s.runqueue ≡ null
  pub none_waits : s.waitqueue ≡ null
  pub none : s.scheduled ≡ null
  pub mcu : is_mcu s.arch ≡ true

-- The first task is the idle task.
pub record Opened (s : Os) (task : Ptr) (options : TaskOptions) : Type 0 where
  pub after : Os
  pub result : os_task_initialize_options task options s ≡ ok oss_success after
  pub initialized : Initialized after (task ∷ [])
  pub idle : after.idle ≡ task
  pub priority : after.task.priority task ≡ priority_idle
  pub stack : after.task.stack task ≡ options.stack
  pub task_finished : after.task_finished ≡ s.task_finished

module _ (s : Os) (task : Ptr) (options : TaskOptions) (e : Empty s) (k : Takes s task options)
    (start : options.status ≡ StartStatus.running) where
  q :
      Prepared
        (record s { task = fill_task task options s.uptime s.task })
        task
        options.stack
        options.stack_size
  q = prepared s task options k

  opened : Os
  opened =
      let t = filled s task options q.memory in
      record t {
        idle = task;
        task = record (t.task) { priority = update t.task.priority task priority_idle };
      }

  opened-Entry : Entry opened task []
  unfolding fill_task opened
  opened-Entry = record {
    chain = e.none_runs;
    nobody = e.none_waits;
    none = e.none;
    mcu = e.mcu;
    out = refl;
    room = omega (arith, rounds_lem);
    can_run = tt;
    ranked = tt;
    idle_here = ground arith;
    fit = λ a h. rw (==→eq a task (ground (arith, h))) (record {
      above = inl refl;
      bounded = rw ==_refl (omega (arith, q.above));
      magic = rw ==_refl (q.magic);
    });
    free = λ a h.
        let f = filled-Unblocked s task options q.memory in
        rw (==→eq a task (ground (arith, h))) (record {
          flags = f.flags;
          mutex = f.mutex;
          nblocked = f.nblocked;
          queue = f.queue;
          semaphore = f.semaphore;
          rwlock = f.rwlock;
        });
  }

  pub first-Opened : Opened s task options
  unfolding fill_task opened os_task_initialize_options insert
  first-Opened =
      let f = runqueue_add-Entered opened task [] k.live opened-Entry (rw (==_refl, start) refl) in
      let ready : (not (
            os_state_eq s.state OsState.initialized
            || os_state_eq s.state OsState.tasks_initialized))
          ≡ false =
        rw (e.ready) refl in
      let can : status_eq (start_status options.status) TaskStatus.suspended ≡ false =
        rw start refl in
      let nobody : (s.idle == null) ≡ true = rw (e.nobody) refl in
      record {
        after = record (with_nrp opened f.next) {
          runqueue = f.head;
          trace = f.trace;
          state = OsState.tasks_initialized;
        };
        result = simp (ready, k.live, q.result, nobody, ==_refl) (simp (can, k.live) (f.result));
        initialized = f.initialized;
        idle = refl;
        priority = rw ==_refl refl;
        stack = rw ==_refl refl;
        task_finished = refl;
      }
