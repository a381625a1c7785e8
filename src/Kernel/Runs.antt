-- ===== src/Kernel/Runs.antt =====
-- What the system can come to by ticks, delays, calls for a mutex and the tasks' own work.
use arduino_osh.Base.{ℕ, ◌≡◌, refl, sym, ◌∙◌, ap, false, List, ◌==◌, subst}
use arduino_osh.Types.{Ptr, Os}
use arduino_osh.Machine.{Run, ok}
use arduino_osh.Scheduler.Switch.{Queues-same}
use arduino_osh.Kernel.{Registers, Call, tick, delay, acquire, work, perform}
use arduino_osh.Kernel.Objects.{Objects-same}
use arduino_osh.Kernel.Settled.{Fits, Settled, Settled-Begun}
use arduino_osh.Kernel.Tick.{tick-Ticked}
use arduino_osh.Kernel.Asleep.{InTime}
use arduino_osh.Kernel.Delay.{delay-Slept}
use arduino_osh.Kernel.Asks.{MayAcquire, Acquires, gets, refused, waits}
use arduino_osh.Kernel.Acquire.{acquire-Acquires}

-- When the system calls may come: the registers of the running task have room in its stack, the
-- idle task neither delays itself (`os_delay`) nor asks for a mutex, and no task writes over the
-- lowest word of a stack.
abbrev pub Allowed : List Ptr → Call → Os → Type 0
Allowed mutexes (tick uptime micros cpu) s = Fits s cpu
Allowed mutexes (acquire m to cpu) s = MayAcquire mutexes s m to cpu
Allowed mutexes (delay ms cpu) s = ((s.running == s.idle) ≡ false) × InTime s ms × Fits s cpu
Allowed mutexes (work memory) s = (a : Ptr) → memory (s.task.stack a) ≡ s.memory (s.task.stack a)

pub data Reaches (mutexes : List Ptr) : Os → Os → Type 0 where
  done : (s : Os) → Reaches mutexes s s
  then :
      (s t u : Os) (call : Call)
      → Allowed mutexes call s
      → perform call s ≡ ok tt t
      → Reaches mutexes t u
      → Reaches mutexes s u

pub record IsSettled (mutexes : List Ptr) (s : Os) : Type 0 where
  pub run : List Ptr
  pub waiting : List Ptr
  pub settled : Settled mutexes s run waiting

pub record Performs (mutexes : List Ptr) (s : Os) (call : Call) : Type 0 where
  pub after : Os
  pub result : perform call s ≡ ok tt after
  pub settled : IsSettled mutexes after

acquired :
    (mutexes : List Ptr) (s : Os) (m to : ℕ) (cpu : Registers) (run waiting : List Ptr)
    → Acquires mutexes s m to cpu run waiting
    → Performs mutexes s (acquire m to cpu)
acquired mutexes s m to cpu run waiting (gets after e d r o l w a) = record {
  after = after;
  result = e;
  settled = record { run = _; waiting = _; settled = d };
}
acquired mutexes s m to cpu run waiting (refused after e d r k o n a) = record {
  after = after;
  result = e;
  settled = record { run = _; waiting = _; settled = d };
}
acquired mutexes s m to cpu run waiting (waits after runs sleeps e d h u o p a) = record {
  after = after;
  result = e;
  settled = record { run = _; waiting = _; settled = d };
}

-- In a settled system a tick, a delay, a call for a mutex and a task's work return where they are
-- allowed, with the context switch behind them, and leave the system settled.
pub perform-Settled :
    (mutexes : List Ptr) (s : Os) (call : Call)
    → IsSettled mutexes s
    → Allowed mutexes call s
    → Performs mutexes s call
unfolding perform
perform-Settled mutexes s (tick uptime micros cpu) is fits =
    let t =
      tick-Ticked mutexes s uptime micros cpu is.run is.waiting
        (Settled-Begun mutexes s is.run is.waiting is.settled) is.settled.free fits in
    record {
      after = t.after;
      result = t.result;
      settled = record { run = _; waiting = _; settled = t.settled };
    }
perform-Settled mutexes s (delay ms cpu) is (busy, time, fits) =
    let t = delay-Slept mutexes s ms cpu is.run is.waiting is.settled busy time fits in
    record {
      after = t.after;
      result = t.result;
      settled = record { run = _; waiting = _; settled = t.settled };
    }
perform-Settled mutexes s (acquire m to cpu) is may =
    acquired mutexes s m to cpu is.run is.waiting
      (acquire-Acquires mutexes s m to cpu is.run is.waiting is.settled may)
perform-Settled mutexes s (work memory) is kept = record {
  after = record s { memory = memory };
  result = refl;
  settled = record {
    run = is.run;
    waiting = is.waiting;
    settled =
        let d = is.settled in
        record {
          queues = Queues-same s _ is.run is.waiting refl refl refl d.queues;
          none = d.none;
          begun = d.begun;
          here = d.here;
          now_active = d.now_active;
          top = d.top;
          idle_here = d.idle_here;
          fit = λ a i.
              let f = d.fit a i in
              record { above = f.above; bounded = f.bounded; magic = kept a ∙ f.magic };
          objects =
              Objects-same mutexes s (record s { memory = memory }) is.run is.waiting refl refl refl
                refl refl refl refl d.objects;
          free = d.free;
        };
  };
}

-- A run that returns has one end.
state_of : Os → Run (Unit {0}) → Os
state_of s (ok a t) = t
state_of s Run.failed = s
state_of s Run.reset = s
state_of s Run.fault = s
state_of s Run.out_of_rounds = s

pub ok-same : (s t : Os) (r : Run (Unit {0})) → r ≡ ok tt s → r ≡ ok tt t → s ≡ t
unfolding state_of
ok-same s t r e f = ap (state_of s) (sym e ∙ f)

-- What a settled system comes to by ticks, delays, calls for one of the mutexes and the tasks' work,
-- each where it is allowed, is settled: the invariant of the queues holds, the running task is active
-- and in the run queue, no task that can run outranks it, each task in the list of a mutex blocks on
-- that mutex alone, and no stack has lost its lowest word.
pub Reaches-Settled :
    (mutexes : List Ptr) (s t : Os)
    → Reaches mutexes s t
    → IsSettled mutexes s
    → IsSettled mutexes t
Reaches-Settled mutexes _ _ (done s) is = is
Reaches-Settled mutexes _ _ (then s u t call allowed e rest) is =
    let p = perform-Settled mutexes s call is allowed in
    Reaches-Settled mutexes u t rest
      (subst (IsSettled mutexes) (ok-same p.after u _ p.result e) p.settled)
