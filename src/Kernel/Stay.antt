-- ===== src/Kernel/Stay.antt =====
-- A service call that schedules nothing: the caller runs on.
use arduino_osh.Base.{ℕ, ◌%◌, ◌≡◌, refl, ◌∙◌, List}
use arduino_osh.Types.{Ptr, Os, Tuple, u32_mod}
use arduino_osh.Machine.{M, ok}
use arduino_osh.Scheduler.Switch.{Queues-frame}
use arduino_osh.Kernel.{Registers, svc_handler}
use arduino_osh.Kernel.Objects.{Objects-same}
use arduino_osh.Kernel.Settled.{Settled, Fits}
use arduino_osh.Kernel.Frames.{with_memory, store_return-Returned}

Settled-memory :
    (mutexes : List Ptr) (s : Os) (memory : ℕ → ℕ) (run waiting : List Ptr)
    → ((a : Ptr) → memory (s.task.stack a) ≡ s.memory (s.task.stack a))
    → Settled mutexes s run waiting
    → Settled mutexes (with_memory s memory) run waiting
Settled-memory mutexes s memory run waiting same d = record {
  queues = Queues-frame s (with_memory s memory) run waiting refl refl refl refl refl refl d.queues;
  none = d.none;
  begun = d.begun;
  here = d.here;
  now_active = d.now_active;
  top = d.top;
  idle_here = d.idle_here;
  fit = λ a i.
      let f = d.fit a i in
      record { above = f.above; bounded = f.bounded; magic = same a ∙ f.magic };
  objects =
      Objects-same mutexes s (with_memory s memory) run waiting refl refl refl refl refl refl refl
        d.objects;
  free = d.free;
}

pub record Stays (mutexes : List Ptr) (s t : Os) (call : M Tuple) (cpu : Registers)
    (run waiting : List Ptr) (status : ℕ) : Type 0 where
  pub after : Os
  pub result : svc_handler call cpu s ≡ ok tt after
  pub settled : Settled mutexes after run waiting
  pub running : after.running ≡ t.running
  pub mutexes_kept : after.mutex ≡ t.mutex
  pub answer : after.memory cpu.psp ≡ status % u32_mod

pub svc_handler-Stays :
    (mutexes : List Ptr) (s t : Os) (call : M Tuple) (value : Tuple) (cpu : Registers)
    (run waiting : List Ptr)
    → call s ≡ ok value t
    → Settled mutexes t run waiting
    → Fits t cpu
    → Stays mutexes s t call cpu run waiting value.status
unfolding svc_handler
svc_handler-Stays mutexes s t call value cpu run waiting called d fits =
    let back = store_return-Returned t cpu value in
    record {
      after = with_memory t back.memory;
      result = simp (called, back.result, d.none);
      settled =
          Settled-memory mutexes t back.memory run waiting
            (λ a. back.same (t.task.stack a) (fits.clear a)) d;
      running = refl;
      mutexes_kept = refl;
      answer = back.answer;
    }
