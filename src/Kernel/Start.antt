-- ===== src/Kernel/Start.antt =====
-- The start of the system, `os_start` of src/os.c, from its initialised tasks to the first tick.
use arduino_osh.Base.{
  ◌≡◌, refl, inl, inr, true, false, List, [], ◌∷◌, arith, ◌==◌, update, All-has, has, Bool-cases,
  ==_refl,
}
use arduino_osh.Types.{
  Ptr, null, active, OsState, Os, os_task_status_is_running, oss_success, is_mcu,
}
use arduino_osh.Machine.{ok}
use arduino_osh.Chain.Order.{All-map}
use arduino_osh.Scheduler.Invariant.{Queues}
use arduino_osh.Scheduler.Turn.{Chain-live}
use arduino_osh.Tasks.{os_start}
use arduino_osh.Kernel.Objects.{Unblocked, none-Objects}
use arduino_osh.Kernel.Settled.{In, Fit, Begun}

-- The tasks stand in the run queue, the idle task among them.
pub record Initialized (s : Os) (run : List Ptr) : Type 0 where
  pub queues : Queues s run []
  pub none : s.scheduled ≡ null
  pub ready : s.state ≡ OsState.tasks_initialized
  pub mcu : is_mcu s.arch ≡ true
  pub idle_here : has s.idle run ≡ true
  pub fit : (a : Ptr) → In a run [] → Fit s a
  pub free : (a : Ptr) → In a run [] → Unblocked s a

pub record Starts (s : Os) (run : List Ptr) : Type 0 where
  pub after : Os
  pub result : os_start s ≡ ok oss_success after
  pub begun : Begun [] after run []
  pub running : after.running ≡ s.idle
  pub free : after.task.flags after.running ≡ 0
  pub idle : after.idle ≡ s.idle

-- On a microcontroller, with its tasks initialised, no task waiting and the idle task in the run queue,
-- `os_start` comes to the call of the idle task's handler. Then the idle task runs and is active, and the
-- system has begun, so that the first tick leaves it settled.
pub os_start-Starts : (s : Os) (run : List Ptr) → Initialized s run → Starts s run
unfolding os_start
os_start-Starts s [] i = absurd (let h = i.idle_here in cc)
os_start-Starts s (x ∷ xs) i =
    let run = x ∷ xs in
    let live : (s.idle == null) ≡ false =
      All-has (λ a. (a == null) ≡ false) s.idle run
        (Chain-live s.task.nrp s.runqueue run i.queues.lists.run_chain) i.idle_here in
    let head : (s.runqueue == null) ≡ false =
      rw (i.queues.lists.run_chain.0) (i.queues.lists.run_chain.1) in
    let after : Os = record s {
      running = s.idle;
      control = 2;
      state = OsState.started;
      task = record (s.task) { status = update s.task.status s.idle active };
    } in
    record {
      after = after;
      result = simp (i.ready, head, live, i.mcu);
      begun = record {
        queues = record {
          lists = record {
            run_chain = i.queues.lists.run_chain;
            wait_chain = i.queues.lists.wait_chain;
            apart = i.queues.lists.apart;
            room = i.queues.lists.room;
          };
          can_run =
              All-map (λ a. os_task_status_is_running (s.task.status a) ≡ true) _ run
                (λ a j h. elim (Bool-cases (s.idle == a)) [ inl e ↦ rw e refl | inr n ↦ rw n h ])
                i.queues.can_run;
          waits = tt;
          ranked = i.queues.ranked;
          due = tt;
        };
        none = i.none;
        begun = refl;
        here = i.idle_here;
        now_active = rw ==_refl refl;
        idle_here = i.idle_here;
        fit = λ a j.
            let f = i.fit a j in record { above = f.above; bounded = f.bounded; magic = f.magic };
        objects = none-Objects after run (λ a j.
            let f = i.free a j in
            record {
              flags = f.flags;
              mutex = f.mutex;
              nblocked = f.nblocked;
              queue = f.queue;
              semaphore = f.semaphore;
              rwlock = f.rwlock;
            });
      };
      running = refl;
      free = (i.free s.idle (let h = i.idle_here in ground (arith, h))).flags;
      idle = refl;
    }
