-- ===== src/Kernel/Switch.antt =====
-- The context switch and the handler of service calls of src/arch/m0.s, from a switch under way to a
-- settled system.
use arduino_osh.Base.{
  ℕ, ◌+◌, ◌-◌, ◌%◌, ◌≤◌, ◌<◌, ◌≡◌, refl, ap, ◌∙◌, ◌⊎◌, inl, inr, List, arith, ◌==◌, length, update,
  Bool-cases, ==→eq, ==_refl,
}
use arduino_osh.Types.{Ptr, null, Os, Tuple, u32_mod}
use arduino_osh.Machine.{M, ok, rounds}
use arduino_osh.Scheduler.Switch.{Queues-frame}
use arduino_osh.Kernel.{Registers, pendsv_handler, svc_handler}
use arduino_osh.Kernel.Objects.{Objects-same}
use arduino_osh.Kernel.Settled.{In, Fit, Settled, Pending, Fits}
use arduino_osh.Kernel.Frames.{
  with_memory, Holds, save_registers-Saved, store_return-Returned, stack_check-Traces,
}

-- The registers are saved without harm to a stack.
save-Fit :
    (s : Os) (cpu : Registers) (memory : ℕ → ℕ)
    → Fits s cpu
    → ((a : ℕ) → (a + 32 < cpu.psp) ⊎ (cpu.psp ≤ a) → memory a ≡ s.memory a)
    → (a : Ptr) → Fit s a
    → Fit
        (record s {
          memory = memory;
          task = record (s.task) { sp = update s.task.sp s.running (cpu.psp - 32) };
        })
        a
save-Fit s cpu memory fits same a f = record {
  above = f.above;
  bounded = elim (Bool-cases (s.running == a)) [
    | inl own ↦ rw own (omega (arith, fits.bounded, ap s.task.stack (==→eq s.running a own)))
    | inr other ↦ rw other (f.bounded)
  ];
  magic = same (s.task.stack a) below ∙ f.magic;
}
  where
    below : (s.task.stack a + 32 < cpu.psp) ⊎ (cpu.psp ≤ s.task.stack a)
    below = elim (fits.clear a) [ inl low ↦ inl low | inr high ↦ inr (omega (arith, high)) ]

-- A context switch that leaves the system settled.
pub record Switched (mutexes : List Ptr) (s : Os) (cpu : Registers) (run waiting : List Ptr)
    : Type 0 where
  pub after : Os
  pub result : pendsv_handler cpu s ≡ ok tt after
  pub settled : Settled mutexes after run waiting
  pub now_running : after.running ≡ s.scheduled
  pub delay : after.task.delay ≡ s.task.delay
  pub uptime : after.uptime ≡ s.uptime
  pub arch : after.arch ≡ s.arch
  pub priority : after.task.priority ≡ s.task.priority
  pub same : (a : ℕ) → (a + 32 < cpu.psp) ⊎ (cpu.psp ≤ a) → after.memory a ≡ s.memory a
  pub saved_sp : after.task.sp ≡ update s.task.sp s.running (cpu.psp - 32)
  pub holds : Holds after.memory (cpu.psp - 32) cpu

-- Let a switch be under way, with the registers' place in the running task's stack and over no
-- stack's lowest word. The context switch returns, the scheduled task runs, and the system is settled.
-- The registers R4 to R11 are in the eight words below the exception's frame, at which the saved
-- stack pointer of the task that ran points.
pub pendsv_handler-Switched :
    (mutexes : List Ptr) (s : Os) (cpu : Registers) (run waiting : List Ptr)
    → Pending mutexes s run waiting
    → Fits s cpu
    → Switched mutexes s cpu run waiting
unfolding pendsv_handler
pendsv_handler-Switched mutexes s cpu run waiting p fits =
    let saved = save_registers-Saved s cpu fits.deep in
    let s1 : Os = record s {
      memory = saved.memory;
      task = record (s.task) { sp = update s.task.sp s.running (cpu.psp - 32) };
    } in
    let fuel : length run < rounds = omega (arith, p.queues.lists.room) in
    let fit : (a : Ptr) → In a run waiting → Fit s1 a =
      λ a i. save-Fit s cpu saved.memory fits saved.same a (p.fit a i) in
    let own : Fit s1 s.running = fit s.running p.left in
    let theirs : Fit s1 s.scheduled = fit s.scheduled (ground (arith, p.here)) in
    let one =
      stack_check-Traces s1 run p.live own.bounded own.magic fuel p.queues.lists.run_chain in
    let s2 : Os = record s1 { trace = one.trace; running = s.scheduled } in
    let two =
      stack_check-Traces s2 run p.live_next theirs.bounded theirs.magic fuel
        p.queues.lists.run_chain in
    let s3 : Os = record s2 { trace = two.trace; scheduled = null } in
    record {
      after = s3;
      result = simp (p.live, p.live_next, p.other, saved.result, one.result, two.result);
      settled = record {
        queues = Queues-frame s s3 run waiting refl refl refl refl refl refl p.queues;
        none = refl;
        begun = p.begun;
        here = p.here;
        now_active = p.now_active;
        top = p.top;
        idle_here = p.idle_here;
        fit = λ a i.
            let f = fit a i in record { above = f.above; bounded = f.bounded; magic = f.magic };
        objects =
            Objects-same mutexes s s3 run waiting refl refl refl refl refl refl refl p.objects;
        free = p.free;
      };
      now_running = refl;
      delay = refl;
      uptime = refl;
      arch = refl;
      priority = refl;
      same = saved.same;
      saved_sp = refl;
      holds = record {
        r4 = saved.holds.r4;
        r5 = saved.holds.r5;
        r6 = saved.holds.r6;
        r7 = saved.holds.r7;
        r8 = saved.holds.r8;
        r9 = saved.holds.r9;
        r10 = saved.holds.r10;
        r11 = saved.holds.r11;
      };
    }

-- The words that go to the caller's registers leave the stacks as they are.
Pending-memory :
    (mutexes : List Ptr) (s : Os) (memory : ℕ → ℕ) (run waiting : List Ptr)
    → ((a : Ptr) → memory (s.task.stack a) ≡ s.memory (s.task.stack a))
    → Pending mutexes s run waiting
    → Pending mutexes (with_memory s memory) run waiting
Pending-memory mutexes s memory run waiting same p = record {
  queues = Queues-frame s (with_memory s memory) run waiting refl refl refl refl refl refl p.queues;
  begun = p.begun;
  live = p.live;
  live_next = p.live_next;
  other = p.other;
  left = p.left;
  here = p.here;
  now_active = p.now_active;
  top = p.top;
  idle_here = p.idle_here;
  fit = λ a i.
      let f = p.fit a i in
      record { above = f.above; bounded = f.bounded; magic = same a ∙ f.magic };
  objects =
      Objects-same mutexes s (with_memory s memory) run waiting refl refl refl refl refl refl refl
        p.objects;
  free = p.free;
}

-- A service call, whose function has left the state `called`, that leaves the system settled.
pub record Served (mutexes : List Ptr) (s : Os) (call : M Tuple) (cpu : Registers)
    (run waiting : List Ptr) (called : Os) (status : ℕ) : Type 0 where
  pub after : Os
  pub result : svc_handler call cpu s ≡ ok tt after
  pub settled : Settled mutexes after run waiting
  pub now_running : after.running ≡ called.scheduled
  pub delays : after.task.delay ≡ called.task.delay
  pub priority : after.task.priority ≡ called.task.priority
  pub stack : after.task.stack ≡ called.task.stack
  pub answer : after.memory cpu.psp ≡ status % u32_mod
  pub saved_sp : after.task.sp called.running ≡ cpu.psp - 32
  pub holds : Holds after.memory (cpu.psp - 32) cpu

-- Let a service call's function return with a switch under way, and with the registers' place in the
-- running task's stack and over no stack's lowest word. The handler of service calls returns, the
-- scheduled task runs, the system is settled, and the function's result is in the word of the
-- caller's R0. The registers R4 to R11 are in the eight words below the exception's frame, at which
-- the saved stack pointer of the task that ran points.
pub svc_handler-Served :
    (mutexes : List Ptr) (s t : Os) (call : M Tuple) (value : Tuple) (cpu : Registers)
    (run waiting : List Ptr)
    → call s ≡ ok value t
    → Pending mutexes t run waiting
    → Fits t cpu
    → Served mutexes s call cpu run waiting t value.status
unfolding svc_handler
svc_handler-Served mutexes s t call value cpu run waiting called p fits =
    let back = store_return-Returned t cpu value in
    let t0 = with_memory t back.memory in
    let p0 =
      Pending-memory mutexes t back.memory run waiting
        (λ a. back.same (t.task.stack a) (fits.clear a)) p in
    let fits0 : Fits t0 cpu = record {
      deep = fits.deep;
      bounded = fits.bounded;
      clear = fits.clear;
    } in
    let saved = save_registers-Saved t0 cpu fits.deep in
    let t1 : Os = record t0 {
      memory = saved.memory;
      task = record (t0.task) { sp = update t0.task.sp t0.running (cpu.psp - 32) };
    } in
    let fit : (a : Ptr) → In a run waiting → Fit t1 a =
      λ a i. save-Fit t0 cpu saved.memory fits0 saved.same a (p0.fit a i) in
    let own : Fit t1 t.running = fit t.running p.left in
    let check =
      stack_check-Traces t1 run p.live own.bounded own.magic (omega (arith, p.queues.lists.room))
        p.queues.lists.run_chain in
    let t2 : Os = record t1 { trace = check.trace; running = t.scheduled; scheduled = null } in
    record {
      after = t2;
      result = simp (called, back.result, p.live, p.live_next, p.other, saved.result, check.result);
      settled = record {
        queues = Queues-frame t t2 run waiting refl refl refl refl refl refl p.queues;
        none = refl;
        begun = p.begun;
        here = p.here;
        now_active = p.now_active;
        top = p.top;
        idle_here = p.idle_here;
        fit = λ a i.
            let f = fit a i in record { above = f.above; bounded = f.bounded; magic = f.magic };
        objects =
            Objects-same mutexes t t2 run waiting refl refl refl refl refl refl refl p.objects;
        free = p.free;
      };
      now_running = refl;
      delays = refl;
      priority = refl;
      stack = refl;
      answer = saved.same cpu.psp (inr (omega arith)) ∙ back.answer;
      saved_sp = rw ==_refl refl;
      holds = record {
        r4 = saved.holds.r4;
        r5 = saved.holds.r5;
        r6 = saved.holds.r6;
        r7 = saved.holds.r7;
        r8 = saved.holds.r8;
        r9 = saved.holds.r9;
        r10 = saved.holds.r10;
        r11 = saved.holds.r11;
      };
    }

-- With no switch under way, the context switch does nothing.
pub pendsv_handler_none :
    (cpu : Registers) (s : Os) → s.scheduled ≡ null → pendsv_handler cpu s ≡ ok tt s
unfolding pendsv_handler
pendsv_handler_none cpu s none = elim (Bool-cases (s.running == null)) [
  | inl e ↦ simp (none, e)
  | inr n ↦ simp (none, n)
]
