-- ===== src/Kernel/Enter.antt =====
-- A task that `os_task_initialize_options` of src/os.c has filled in goes to the run queue.
use arduino_osh.Base.{
  ℕ, suc, ◌<◌, ◌≡◌, refl, ◌∙◌, inl, inr, true, false, ◌||◌, List, ◌∷◌, arith, ◌==◌, length, All,
  has, Bool-cases,
}
use arduino_osh.Types.{
  Ptr, null, TaskStatus, finished, OsState, Os, Event, oss_success, os_task_status_is_running,
  is_mcu,
}
use arduino_osh.Machine.{M, ok, rounds, ◌>>◌, modify, pure, with_nrp}
use arduino_osh.Chain.{Chain, insert}
use arduino_osh.Chain.Order.{Falling, Falling-insert, All-insert, has-insert, length-insert}
use arduino_osh.RunQueue.{runqueue_add}
use arduino_osh.RunQueue.Add.{ranks_below, runqueue_add-Added}
use arduino_osh.Scheduler.{call_hook}
use arduino_osh.Kernel.Objects.{Unblocked}
use arduino_osh.Kernel.Settled.{Fit}
use arduino_osh.Kernel.Start.{Initialized}

-- A state in which `task` is filled in, and stands in no queue; no task waits.
pub record Entry (t : Os) (task : Ptr) (run : List Ptr) : Type 0 where
  pub chain : Chain t.task.nrp t.runqueue run
  pub nobody : t.waitqueue ≡ null
  pub none : t.scheduled ≡ null
  pub mcu : is_mcu t.arch ≡ true
  pub out : has task run ≡ false
  pub room : suc (length run) < rounds
  pub can_run : All (λ a. os_task_status_is_running (t.task.status a) ≡ true) run
  pub ranked : Falling t.task.priority run
  pub idle_here : ((t.idle == task) || has t.idle run) ≡ true
  pub fit : (a : Ptr) → ((a == task) || has a run) ≡ true → Fit t a
  pub free : (a : Ptr) → ((a == task) || has a run) ≡ true → Unblocked t a

-- The end of `os_task_initialize_options`.
abbrev pub finish_initialize : Ptr → M ℕ
finish_initialize task = do
  modify (λ s. record s { state = OsState.tasks_initialized })
  call_hook task finished
  pure oss_success

pub record Entered (t : Os) (task : Ptr) (run : List Ptr) (r : M ℕ) : Type 0 where
  pub next : Ptr → Ptr
  pub head : Ptr
  pub trace : List Event
  pub result :
      r t
      ≡ ok oss_success (record (with_nrp t next) {
        runqueue = head;
        trace = trace;
        state = OsState.tasks_initialized;
      })
  pub initialized :
      Initialized
        (record (with_nrp t next) {
          runqueue = head;
          trace = trace;
          state = OsState.tasks_initialized;
        })
        run

pub finish_initialize-ok :
    (t : Os) (task : Ptr)
    → (trace : List Event) × (finish_initialize task t
        ≡ ok oss_success (record t { state = OsState.tasks_initialized; trace = trace }))
finish_initialize-ok t task = elim (Bool-cases (t.status_hook == null)) [
  | inl none ↦ (t.trace, simp none)
  | inr some ↦ (Event.hook task finished ∷ t.trace, simp some)
]

module _ (t : Os) (task : Ptr) (run : List Ptr) (live : (task == null) ≡ false)
    (e : Entry t task run) (can : t.task.status task ≡ TaskStatus.idle) where
  pub runqueue_add-Entered :
      Entered t task
        (insert (ranks_below t task) task run)
        (runqueue_add task >> finish_initialize task)
  runqueue_add-Entered =
      let a = runqueue_add-Added t task run e.room live e.out (rw can refl) (rw can refl) e.chain in
      let (trace, done) =
        finish_initialize-ok (record (with_nrp t a.next) { runqueue = a.head; trace = a.trace })
          task in
      let placed = insert (ranks_below t task) task run in
      record {
        next = a.next;
        head = a.head;
        trace = trace;
        result = rw a.result done;
        initialized = record {
          queues = record {
            lists = record {
              run_chain = a.chain;
              wait_chain = e.nobody;
              apart = λ b i. refl;
              room = omega (arith, length-insert (ranks_below t task) task run, e.room);
            };
            can_run = All-insert _ _ task run (rw can refl) e.can_run;
            waits = tt;
            ranked = Falling-insert t.task.priority task run e.ranked;
            due = tt;
          };
          none = e.none;
          ready = refl;
          mcu = e.mcu;
          idle_here = has-insert (ranks_below t task) t.idle task run ∙ e.idle_here;
          fit = λ b i.
              let f = e.fit b (ground (arith, i, has-insert (ranks_below t task) b task run)) in
              record { above = f.above; bounded = f.bounded; magic = f.magic };
          free = λ b i.
              let f = e.free b (ground (arith, i, has-insert (ranks_below t task) b task run)) in
              record {
                flags = f.flags;
                mutex = f.mutex;
                nblocked = f.nblocked;
                queue = f.queue;
                semaphore = f.semaphore;
                rwlock = f.rwlock;
              };
        };
      }
