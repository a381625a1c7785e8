-- ===== src/Kernel/Asleep.antt =====
-- A task that delays itself: when the delay ends, and what the wait queue makes of it.
use arduino_osh.Base.{
  ℕ, ◌+◌, ◌%◌, ◌<◌, ◌≡◌, refl, ◌⊎◌, inl, inr, true, false, List, [], ◌∷◌, arith, ◌==◌,
  if◌then◌else◌, update, Bool-cases, ==→eq, ==_refl,
}
use arduino_osh.Types.{Ptr, null, Os, u32_max, u32_mod}
use arduino_osh.Machine.{ok}
use arduino_osh.Chain.{insert, erase}
use arduino_osh.WaitQueue.Add.{due_after}
use arduino_osh.Scheduler.Ready.{is_due, first_due}
use arduino_osh.Service.{set_wake_time}

-- When a delay ends: never, or before the clock is at its largest number.
abbrev pub wake_time : Os → ℕ → ℕ
wake_time s ms = if ms == u32_max then u32_max else s.uptime + ms

abbrev pub InTime : Os → ℕ → Type 0
InTime s ms = (ms ≡ u32_max) ⊎ ((0 < ms) × (s.uptime + ms < u32_max))

abbrev pub asleep : Os → ℕ → Os
asleep s ms = record s {
  task = record (s.task) { delay = update s.task.delay s.running (wake_time s ms) };
}

pub set_wake_time-asleep :
    (s : Os) (ms : ℕ)
    → InTime s ms
    → (s.running == null) ≡ false
    → set_wake_time s.running ms s ≡ ok tt (asleep s ms)
unfolding set_wake_time
set_wake_time-asleep s ms (inl never) live = rw never (simp live)
set_wake_time-asleep s ms (inr (some, small)) live =
    let fits : (s.uptime + ms) % u32_mod ≡ s.uptime + ms = omega (arith, small) in
    let finite : (ms == u32_max) ≡ false = ground (arith, small) in
    let finite_end : (s.uptime + ms == u32_max) ≡ false = ground (arith, small) in
    simp (finite, live, fits, finite_end)

-- The caller is not woken at once.
pub is_due-asleep : (s : Os) (ms : ℕ) → InTime s ms → is_due (asleep s ms) s.running ≡ false
is_due-asleep s ms (inl never) = rw (==_refl, never) refl
is_due-asleep s ms (inr (some, small)) =
    let finite : (ms == u32_max) ≡ false = ground (arith, small) in
    rw (==_refl, finite) (ground (arith, some, small))

pub first_due-due :
    (s : Os) (a : Ptr) (xs : List Ptr)
    → is_due s a ≡ false
    → (a == null) ≡ false
    → (a == first_due s xs) ≡ false
first_due-due s a [] late live = live
first_due-due s a (x ∷ xs) late live = elim (Bool-cases (is_due s x)) [
  | inl now ↦ elim (Bool-cases (a == x)) [
    | inl e ↦ absurd (let h : is_due s a ≡ true = rw (==→eq a x e) now in ground (arith, h, late))
    | inr n ↦ rw now n
  ]
  | inr later ↦ rw later (first_due-due s a xs late live)
]

-- Which task is due depends on the clock and the wake-up times.
pub first_due-same :
    (s t : Os) (xs : List Ptr)
    → t.task.delay ≡ s.task.delay
    → t.uptime ≡ s.uptime
    → first_due t xs ≡ first_due s xs
first_due-same s t [] e f = refl
first_due-same s t (x ∷ xs) e f = rw (first_due-same s t xs e f, e, f) refl

-- The queues while the caller waits, before a task is woken.
abbrev pub run_without : Os → List Ptr → List Ptr
run_without s run = erase s.running run

abbrev pub wait_with : Os → ℕ → List Ptr → List Ptr
wait_with s ms waiting = insert (due_after (asleep s ms) s.running) s.running waiting
