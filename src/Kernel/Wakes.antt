-- ===== src/Kernel/Wakes.antt =====
-- No task waits for longer than it takes to tick once for each task that waits.
use arduino_osh.Base.{
  ℕ, zero, suc, ◌≤◌, ◌≡◌, refl, inl, inr, true, false, List, [], ◌∷◌, arith, ◌==◌, length, All, has,
  Bool-cases, subst, ==→eq,
}
use arduino_osh.Types.{Ptr, null, Os, u32_max}
use arduino_osh.Machine.{ok}
use arduino_osh.Chain.Order.{has-insert, has-erase_other, length-erase}
use arduino_osh.RunQueue.Add.{ranks_below}
use arduino_osh.Scheduler.Turn.{Chain-live}
use arduino_osh.Scheduler.Ready.{is_due, first_due, first_due-has, run_after, wait_after}
use arduino_osh.Kernel.{Registers, perform, tick}
use arduino_osh.Kernel.Settled.{Fits, Settled, Settled-Begun}
use arduino_osh.Kernel.Tick.{tick-Ticked, at_time}
use arduino_osh.Kernel.After.{run_after-has}
use arduino_osh.Kernel.Runs.{ok-same}

-- Ticks of the clock, none before the time `since`.
pub data Ticks (since : ℕ) : ℕ → Os → Os → Type 0 where
  none : (s : Os) → Ticks since zero s s
  one_more :
      (n : ℕ) (s t u : Os) (uptime micros : ℕ) (cpu : Registers)
      → since ≤ uptime
      → Fits s cpu
      → perform (tick uptime micros cpu) s ≡ ok tt t
      → Ticks since n t u
      → Ticks since (suc n) s u

pub record CanRun (mutexes : List Ptr) (s : Os) (a : Ptr) : Type 0 where
  pub run : List Ptr
  pub waiting : List Ptr
  pub settled : Settled mutexes s run waiting
  pub here : has a run ≡ true

first_due-some :
    (s : Os) (a : Ptr) (xs : List Ptr)
    → All (λ x. (x == null) ≡ false) xs
    → has a xs ≡ true
    → is_due s a ≡ true
    → (first_due s xs == null) ≡ false
first_due-some s a [] live i due = absurd (cc)
first_due-some s a (x ∷ xs) live i due = elim (Bool-cases (is_due s x)) [
  | inl now ↦ rw now (live.0)
  | inr later ↦ elim (Bool-cases (a == x)) [
    | inl e ↦
        absurd (let h : is_due s x ≡ true = rw (← ==→eq a x e) due in ground (arith, h, later))
    | inr n ↦ rw later (first_due-some s a xs live.1 (ground (arith, i, n)) due)
  ]
]

-- One tick, as the next state of the run.
ticked :
    (mutexes : List Ptr) (s t : Os) (uptime micros : ℕ) (cpu : Registers) (run waiting : List Ptr)
    → Settled mutexes s run waiting
    → Fits s cpu
    → perform (tick uptime micros cpu) s ≡ ok tt t
    → Settled mutexes t
        (run_after (at_time s uptime micros) run waiting)
        (wait_after (at_time s uptime micros) waiting)
      × ((a : Ptr)
          → has a (wait_after (at_time s uptime micros) waiting) ≡ true
          → t.task.delay a ≡ s.task.delay a)
ticked mutexes s t uptime micros cpu run waiting d fits e =
    let k =
      tick-Ticked mutexes s uptime micros cpu run waiting (Settled-Begun mutexes s run waiting d)
        d.free fits in
    let same = ok-same k.after t _ k.result e in
    let run1 = run_after (at_time s uptime micros) run waiting in
    let wait1 = wait_after (at_time s uptime micros) waiting in
    (
      subst (λ u. Settled mutexes u run1 wait1) same k.settled,
      λ a i. subst (λ u. u.task.delay a ≡ s.task.delay a) same (k.delays a i),
    )

-- A task that can run still can after ticks.
Ticks-CanRun :
    (mutexes : List Ptr) (since n : ℕ) (s t : Os) (a : Ptr)
    → Ticks since n s t
    → CanRun mutexes s a
    → CanRun mutexes t a
Ticks-CanRun mutexes since _ _ _ a (none s) c = c
Ticks-CanRun mutexes since _ _ _ a (one_more n s u t uptime micros cpu later fits e rest) c =
    let (settled, delays) = ticked mutexes s u uptime micros cpu c.run c.waiting c.settled fits e in
    Ticks-CanRun mutexes since n u t a rest (record {
      run = _;
      waiting = _;
      settled = settled;
      here = run_after-has (at_time s uptime micros) c.run c.waiting a c.here;
    })

-- Let the system be settled, and let a task wait, not for ever, until `since` or before. After at least
-- as many ticks as there are waiting tasks, none of them before `since`, the system is settled and the task
-- stands in the run queue.
pub Ticks-wake :
    (mutexes : List Ptr) (since n : ℕ) (s t : Os) (a : Ptr) (run waiting : List Ptr)
    → Ticks since n s t
    → Settled mutexes s run waiting
    → has a waiting ≡ true
    → (s.task.delay a == u32_max) ≡ false
    → s.task.delay a ≤ since
    → length waiting ≤ n
    → CanRun mutexes t a
Ticks-wake mutexes since _ _ _ a run [] (none s) d i finite due enough = absurd (cc)
Ticks-wake mutexes since _ _ _ a run (w ∷ ws) (none s) d i finite due enough =
    absurd (omega (arith, enough))
Ticks-wake mutexes since _ _ _ a run waiting (one_more n s u t uptime micros cpu later fits e rest)
      d i finite due enough =
    let s1 = at_time s uptime micros in
    let x = first_due s1 waiting in
    let (settled, delays) = ticked mutexes s u uptime micros cpu run waiting d fits e in
    let lives = Chain-live s.task.nrp s.waitqueue waiting d.queues.lists.wait_chain in
    let some : (x == null) ≡ false =
      first_due-some s1 a waiting lives i (rw finite (ground (arith, due, later))) in
    let run_grows = has-insert (ranks_below s1 x) a x run in
    elim (Bool-cases (a == x)) [
      | inl same ↦ Ticks-CanRun mutexes since n u t a rest (record {
        run = _;
        waiting = _;
        settled = settled;
        here = rw (some, run_grows, same) refl;
      })
      | inr other ↦
          let stays : has a (wait_after s1 waiting) ≡ true =
            rw some (has-erase_other a x waiting other i) in
          let shorter : suc (length (wait_after s1 waiting)) ≡ length waiting =
            rw some (length-erase x waiting (first_due-has s1 waiting some)) in
          Ticks-wake mutexes since n u t a _ _ rest settled stays (rw (delays a stays) finite)
            (rw (delays a stays) due) (omega (arith, shorter, enough))
    ]
