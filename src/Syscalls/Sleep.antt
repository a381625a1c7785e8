-- ===== src/Syscalls/Sleep.antt =====
-- `os_delay` of src/service.c on a microcontroller: the caller sleeps until a tick wakes it, and runs on.
use arduino_osh.Base.{
  ℕ, ◌+◌, ◌≤◌, ◌<◌, ◌≡◌, refl, sym, ◌∙◌, ◌⊎◌, ap, inl, inr, true, false, List, [], arith, ◌==◌,
  All-has, ==→ne, ==→eq, has, length, Bool-cases, subst,
}
use arduino_osh.Types.{Ptr, null, Os, oss_error_to, is_mcu, priority_idle, u32_max}
use arduino_osh.Machine.{ok, M}
use arduino_osh.Stack.{word}
use arduino_osh.Chain.Order.{length-insert, length-erase-le}
use arduino_osh.Scheduler.Turn.{Chain-live}
use arduino_osh.Scheduler.Ready.{first_due, run_after, wait_after}
use arduino_osh.Service.{svc_delay}
use arduino_osh.Kernel.{Registers, one_word, svc_handler, perform, tick, delay}
use arduino_osh.Kernel.Settled.{In, Fits, Settled, Settled-Begun}
use arduino_osh.Kernel.After.{after-In}
use arduino_osh.Kernel.Asleep.{InTime, asleep, wait_with}
use arduino_osh.Kernel.Delay.{run_behind, wait_behind, behind-In, Slept, delay-Slept}
use arduino_osh.Kernel.Tick.{at_time, Ticked, tick-Ticked}
use arduino_osh.Kernel.Runs.{IsSettled, ok-same}
use arduino_osh.Kernel.Wakes.{CanRun, one_more, none, Ticks-wake}
use arduino_osh.Syscalls.{osi_in_task, osi_in_idle, Caller, service_call, os_delay}

service_call_steps :
    (s t u : Os) (caller : Caller) (call : M ℕ) (value : ℕ)
    → is_mcu s.arch ≡ true
    → svc_handler (one_word caller.cpu call) caller.cpu s ≡ ok tt t
    → caller.meanwhile t ≡ ok tt u
    → u.memory (caller.cpu.psp) ≡ value
    → service_call caller call s ≡ ok value u
unfolding service_call
service_call_steps s t u caller call value mcu served resumed answer =
    let first : word (caller.cpu.psp) 0 ≡ caller.cpu.psp = omega arith in
    simp (mcu, served, resumed) (ap (λ v. ok v u) (ap u.memory first ∙ answer))

-- Until the caller runs on there is one tick, with the registers `cpu'`.
abbrev pub until_tick : Registers → ℕ → ℕ → Registers → Caller
until_tick cpu uptime micros cpu' = record {
  cpu = cpu;
  meanwhile = perform (tick uptime micros cpu');
}

-- The caller of `os_delay` runs on.
pub record RunsOn (mutexes : List Ptr) (s : Os) (sleep : ℕ → M (Unit {0})) (caller : Caller)
    (ms : ℕ) : Type 0 where
  pub after : Os
  pub result : os_delay sleep caller ms s ≡ ok oss_error_to after
  pub settled : IsSettled mutexes after
  pub runs : after.running ≡ s.running

-- No other task waits, so that at most one does behind the delay.
one_waits : (s : Os) (ms : ℕ) → length (wait_behind s ms []) ≤ 1
one_waits s ms = elim (Bool-cases (first_due (asleep s ms) (wait_with s ms []) == null)) [
  | inl e ↦ rw e (omega (arith, all))
  | inr n ↦ rw n (
      omega (
        arith,
        all,
        length-erase-le (first_due (asleep s ms) (wait_with s ms [])) (wait_with s ms []),
      ))
]
  where
    all : length (wait_with s ms []) ≡ 1
    all = length-insert _ s.running []

-- The head of the rest outranks `task`, unless it is `task`.
top_is :
    (s t : Os) (run : List Ptr)
    → t.task.priority ≡ s.task.priority
    → ((a : Ptr)
        → has a run ≡ true
        → (s.running == a) ≡ false
        → s.task.priority a < s.task.priority s.running)
    → has t.running run ≡ true
    → t.task.priority s.running ≤ t.task.priority t.running
    → t.running ≡ s.running
top_is s t run same above here top = elim (Bool-cases (s.running == t.running)) [
  | inl e ↦ sym (==→eq s.running t.running e)
  | inr n ↦ absurd (omega (arith, above t.running here n, rw same at top))
]

module _ (mutexes : List Ptr) (s asleep : Os) (sleep : ℕ → M (Unit {0})) (ms uptime micros : ℕ)
    (cpu cpu' : Registers) (run : List Ptr) (d : Settled mutexes s run [])
    (busy : (s.running == s.idle) ≡ false) (some : 0 < ms) (small : s.uptime + ms < u32_max)
    (late : s.uptime + ms ≤ uptime)
    (outranks : (a : Ptr)
      → has a run ≡ true
      → (s.running == a) ≡ false
      → s.task.priority a < s.task.priority s.running)
    (fits' : Fits asleep cpu') where
  time : InTime s ms
  time = inr (some, small)

  module _ (k : Slept mutexes s ms cpu (run_behind s ms run []) (wait_behind s ms []))
      (same : k.after ≡ asleep) where
    Fits-after : Fits k.after cpu'
    Fits-after = subst (λ u. Fits u cpu') (sym same) fits'

    ticked :
        Ticked mutexes k.after uptime micros cpu'
          (run_after (at_time k.after uptime micros) (run_behind s ms run []) (wait_behind s ms []))
          (wait_after (at_time k.after uptime micros) (wait_behind s ms []))
    ticked =
        tick-Ticked mutexes k.after uptime micros cpu' _ _
          (Settled-Begun mutexes k.after _ _ k.settled) k.settled.free Fits-after

    finite : (ms == u32_max) ≡ false
    finite = ground (arith, small)

    until : k.after.task.delay s.running ≡ s.uptime + ms
    until = k.until ∙ rw finite refl

    can_run : CanRun mutexes ticked.after s.running
    can_run =
        Ticks-wake mutexes uptime 1 k.after ticked.after s.running _ _
          (one_more 0 k.after ticked.after ticked.after uptime micros cpu' (omega arith) Fits-after
            ticked.result (none ticked.after))
          k.settled k.sleeps (rw until (ground (arith, small))) (rw until late) (one_waits s ms)

    was_In : In ticked.after.running run []
    was_In =
        behind-In mutexes s ms run [] (Settled-Begun mutexes s run [] d) busy time
          ticked.after.running
          (after-In (at_time k.after uptime micros) _ _ ticked.after.running
            (let h = ticked.settled.here in ground (arith, h)))

    runs_again : ticked.after.running ≡ s.running
    runs_again =
        top_is s ticked.after run (ticked.priority ∙ k.priority) outranks
          (let i = was_In in ground (arith, i))
          (All-has
            (λ a. ticked.after.task.priority a ≤ ticked.after.task.priority ticked.after.running)
            s.running can_run.run can_run.settled.top can_run.here)

-- On a microcontroller, let the system be settled, and let no task wait. The running task, which is
-- not the idle task and outranks all the others of the run queue, calls `os_delay`, with the registers' place in its
-- stack, for some time that ends before the clock is at its largest number. The next exception after the
-- switch to another task is a tick at that time or later, with the registers' place in the stack of
-- the task that runs then and not over the caller's R0. Then the caller runs on after the tick, in a settled system,
-- and `os_delay` returns the status of a timeout.
pub os_delay-RunsOn :
    (mutexes : List Ptr) (s asleep : Os) (sleep : ℕ → M (Unit {0})) (ms uptime micros : ℕ)
    (cpu cpu' : Registers) (run : List Ptr)
    → Settled mutexes s run []
    → is_mcu s.arch ≡ true
    → osi_in_task s ≡ true
    → (s.running == s.idle) ≡ false
    → ((a : Ptr)
        → has a run ≡ true
        → (s.running == a) ≡ false
        → s.task.priority a < s.task.priority s.running)
    → 0 < ms
    → s.uptime + ms < u32_max
    → Fits s cpu
    → perform (delay ms cpu) s ≡ ok tt asleep
    → s.uptime + ms ≤ uptime
    → Fits asleep cpu'
    → (cpu.psp + 32 < cpu'.psp) ⊎ (cpu'.psp ≤ cpu.psp)
    → RunsOn mutexes s sleep (until_tick cpu uptime micros cpu') ms
unfolding os_delay osi_in_idle
os_delay-RunsOn mutexes s asleep sleep ms uptime micros cpu cpu' run d mcu tasked busy outranks some
      small fits slept late fits' apart =
    let k = delay-Slept mutexes s ms cpu run [] d busy (inr (some, small)) fits in
    let same = ok-same k.after asleep _ k.result slept in
    let t =
      ticked mutexes s asleep sleep ms uptime micros cpu cpu' run d busy some small late outranks
        fits' k same in
    let live : (s.running == null) ≡ false =
      All-has (λ a. (a == null) ≡ false) s.running run
        (Chain-live s.task.nrp s.runqueue run d.queues.lists.run_chain) d.here in
    let higher : (s.task.priority s.running == priority_idle) ≡ false =
      elim ((d.fit s.running (ground (arith, d.here))).above) [
        | inl e ↦ absurd (==→ne s.running s.idle busy e)
        | inr lt ↦ ground (arith, lt)
      ] in
    let back =
      service_call_steps s k.after t.after (until_tick cpu uptime micros cpu') (svc_delay ms)
        oss_error_to mcu k.service t.result (t.same cpu.psp apart ∙ k.answer) in
    record {
      after = t.after;
      result = simp (tasked, live, higher) back;
      settled = record { run = _; waiting = _; settled = t.settled };
      runs =
          runs_again mutexes s asleep sleep ms uptime micros cpu cpu' run d busy some small late
            outranks fits' k same;
    }
