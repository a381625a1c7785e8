-- ===== src/Mutex/Lock.antt =====
-- A mutex as a recursive lock: who holds it, and how often.
use arduino_osh.Base.{
  ℕ, zero, suc, ◌+◌, ◌-◌, ◌%◌, ◌≤◌, ◌<◌, ◌≡◌, ◌≢◌, refl, sym, ap, ◌∙◌, ◌⊎◌, inl, inr, true, false,
  arith, ◌==◌, ltb, update, Bool-cases, ==→eq, ==→ne, ==_refl, update-update,
}
use native.Mathlib.Nat.{zero-add}
use arduino_osh.Types.{Ptr, null, Os, u16_mod, u32_max, oss_success, oss_error_to}
use arduino_osh.Machine.{M, ok, failed, skip, modify, ◌>>◌}
use arduino_osh.Mutex.Defs.{osi_mutex_acquire, osi_mutex_release, hand_over}

-- The state with `owner` and `level` of the mutex given anew.
abbrev pub with_owner : Os → Ptr → Ptr → ℕ → Os
with_owner s mutex owner level = record s {
  mutex = update s.mutex mutex (record (s.mutex mutex) { owner = owner; level = level });
}

-- A call by a running task that waits for no mutex.
pub record CanCall (s : Os) (mutex : Ptr) : Type 0 where
  pub mutex_live : (mutex == null) ≡ false
  pub running_live : (s.running == null) ≡ false
  pub waits_for_none : s.task.mutex s.running ≡ null

-- An attempt to acquire without waiting: the lock of a free mutex or of one that is ours, one level
-- up, or no lock of a mutex that another task holds.
abbrev pub Attempt : Os → Ptr → ℕ → Os → Type 0
Attempt s mutex status s' =
    ((status ≡ oss_success)
      × (((s.mutex mutex).level ≡ 0) ⊎ ((s.mutex mutex).owner ≡ s.running))
      × (s' ≡ with_owner s mutex s.running ((s.mutex mutex).level + 1)))
    ⊎ ((status ≡ oss_error_to)
        × ((s.mutex mutex).owner ≢ s.running)
        × (0 < (s.mutex mutex).level)
        × (s' ≡ s))

module _ (s : Os) (mutex : Ptr) (can : CanCall s mutex) where
  -- With no time to wait, and below level 65535, `osi_mutex_acquire` returns. Either it succeeds:
  -- the mutex was free or held by the running task, which now holds it one level up, and nothing
  -- else has changed. Or it reports a timeout: another task holds it, and nothing has changed.
  pub acquire-Attempt :
      (s.mutex mutex).level < 65535
      → (status : ℕ) × (s' : Os) × (osi_mutex_acquire mutex 0 s ≡ ok status s')
        × Attempt s mutex status s'
  unfolding osi_mutex_acquire
  acquire-Attempt small = elim (Bool-cases ((s.mutex mutex).level == 0)) [
    | inl free ↦
        let none : (s.mutex mutex).level ≡ 0 = ==→eq _ _ free in
        (
          oss_success,
          with_owner s mutex s.running 1,
          simp (can.running_live, can.waits_for_none, can.mutex_live, free),
          inl (refl, inl none, ap (λ n. with_owner s mutex s.running (n + 1)) (sym none)),
        )
    | inr held ↦ elim (Bool-cases ((s.mutex mutex).owner == s.running)) [
      | inl ours ↦
          let same : (s.mutex mutex).owner ≡ s.running = ==→eq _ _ ours in
          (
            oss_success,
            with_owner s mutex (s.mutex mutex).owner ((s.mutex mutex).level + 1),
            simp (can.running_live, can.waits_for_none, can.mutex_live, held, ours, below, fits),
            inl (refl, inr same, ap (λ o. with_owner s mutex o ((s.mutex mutex).level + 1)) same),
          )
      | inr theirs ↦ (
        oss_error_to,
        s,
        simp (can.running_live, can.waits_for_none, can.mutex_live, held, theirs),
        inr (refl, ==→ne _ _ theirs, ground (arith, held), refl),
      )
    ]
  ]
    where
      below : ((s.mutex mutex).level == u32_max) ≡ false
      below = ground arith

      fits : ((s.mutex mutex).level + 1) % u16_mod ≡ (s.mutex mutex).level + 1
      fits = omega arith

  -- The owner's release below the last one takes one level off, and changes nothing else.
  pub release_nested :
      (s.mutex mutex).owner ≡ s.running
      → 1 < (s.mutex mutex).level
      → osi_mutex_release mutex s
        ≡ ok oss_success (with_owner s mutex (s.mutex mutex).owner ((s.mutex mutex).level - 1))
  unfolding osi_mutex_release
  release_nested ours more = simp (can.mutex_live, some, held, left)
    where
      some : ltb 0 (s.mutex mutex).level ≡ true
      some = ground arith

      held : ((s.mutex mutex).owner == s.running) ≡ true
      held = ground arith

      left : ((s.mutex mutex).level - 1 == 0) ≡ false
      left = ground arith

  -- The owner's last release of a mutex that no task waits for frees it, and changes nothing else.
  pub release_last :
      (s.mutex mutex).owner ≡ s.running
      → (s.mutex mutex).level ≡ 1
      → (s.mutex mutex).blocked.tasks ≡ null
      → osi_mutex_release mutex s ≡ ok oss_success (with_owner s mutex null 0)
  unfolding osi_mutex_release hand_over
  release_last ours once alone =
      simp (can.mutex_live, once, held, live, free, alone, ==_refl, update-update)
    where
      held : ((s.mutex mutex).owner == s.running) ≡ true
      held = ground arith

      free : s.task.mutex (s.mutex mutex).owner ≡ null
      free = rw ours (can.waits_for_none)

      live : ((s.mutex mutex).owner == null) ≡ false
      live = rw ours (can.running_live)

  -- At level 65535 the owner's acquisition succeeds and leaves the mutex at level 0, with the
  -- calling task still its owner. The test against `(uint32_t)(-1)` never holds of a `uint16_t`.
  pub acquire_wraps :
      (to : ℕ)
      → (s.mutex mutex).owner ≡ s.running
      → (s.mutex mutex).level ≡ 65535
      → osi_mutex_acquire mutex to s ≡ ok oss_success (with_owner s mutex (s.mutex mutex).owner 0)
  unfolding osi_mutex_acquire
  acquire_wraps to ours full =
      simp (can.running_live, can.waits_for_none, can.mutex_live, full, held)
    where
      held : ((s.mutex mutex).owner == s.running) ≡ true
      held = ground arith

-- Another task runs.
abbrev pub run_as : Ptr → M (Unit {0})
run_as task = modify (λ s. record s { running = task })

-- The call made `n` times.
abbrev pub times : ℕ → M ℕ → M (Unit {0})
times zero call = skip
times (suc n) call = do call; times n call

module _ (s : Os) (mutex : Ptr) (can : CanCall s mutex) where
  acquire_again :
      (n : ℕ)
      → 0 < n
      → n < 65535
      → osi_mutex_acquire mutex 0 (with_owner s mutex s.running n)
        ≡ ok oss_success (with_owner s mutex s.running (n + 1))
  unfolding osi_mutex_acquire
  acquire_again n some small = simp (
    can.running_live, can.waits_for_none, can.mutex_live, held, ==_refl, below, fits, update-update,
  )
    where
      held : (n == 0) ≡ false
      held = ground arith

      below : (n == u32_max) ≡ false
      below = ground arith

      fits : (n + 1) % u16_mod ≡ n + 1
      fits = omega arith

  acquire_times :
      (n k : ℕ)
      → 0 < k
      → n + k ≤ 65535
      → times n (osi_mutex_acquire mutex 0) (with_owner s mutex s.running k)
        ≡ ok tt (with_owner s mutex s.running (n + k))
  acquire_times zero k some small = simp zero-add
  acquire_times (suc n) k some small = simp (acquire_again k some (omega arith)) (
      acquire_times n (k + 1) (omega arith) (omega arith)
      ∙ ap (λ j. ok tt (with_owner s mutex s.running j)) (omega arith))

  release_again :
      (n : ℕ)
      → 0 < n
      → osi_mutex_release mutex (with_owner s mutex s.running (suc n))
        ≡ ok oss_success (with_owner s mutex s.running n)
  unfolding osi_mutex_release
  release_again n some = simp (can.mutex_live, more, ==_refl, left, fewer, update-update)
    where
      more : ltb 0 (suc n) ≡ true
      more = ground arith

      fewer : suc n - 1 ≡ n
      fewer = omega arith

      left : (n == 0) ≡ false
      left = ground arith

  release_once :
      (s.mutex mutex).blocked.tasks ≡ null
      → osi_mutex_release mutex (with_owner s mutex s.running 1)
        ≡ ok oss_success (with_owner s mutex null 0)
  unfolding osi_mutex_release hand_over
  release_once alone =
      simp (can.mutex_live, ==_refl, can.running_live, can.waits_for_none, alone, update-update)

  acquire_once :
      (s.mutex mutex).level ≡ 0
      → osi_mutex_acquire mutex 0 s ≡ ok oss_success (with_owner s mutex s.running 1)
  unfolding osi_mutex_acquire
  acquire_once free = simp (can.running_live, can.waits_for_none, can.mutex_live, free)

  release_times :
      (n : ℕ)
      → (s.mutex mutex).blocked.tasks ≡ null
      → times (suc n) (osi_mutex_release mutex) (with_owner s mutex s.running (suc n))
        ≡ ok tt (with_owner s mutex null 0)
  release_times zero alone = simp (release_once alone)
  release_times (suc n) alone = simp (release_again (suc n) (omega arith)) (release_times n alone)

  -- A free mutex that no task waits for, acquired and then released the same number of times, from
  -- one up to 65535, is free again, and nothing else has changed; after the acquisitions alone the
  -- running task is its owner, at that level.
  pub release-acquire :
      (n : ℕ)
      → n < 65535
      → (s.mutex mutex).level ≡ 0
      → (s.mutex mutex).blocked.tasks ≡ null
      → (times (suc n) (osi_mutex_acquire mutex 0) s ≡ ok tt (with_owner s mutex s.running (suc n)))
        × ((times (suc n) (osi_mutex_acquire mutex 0) >> times (suc n) (osi_mutex_release mutex)) s
            ≡ ok tt (with_owner s mutex null 0))
  release-acquire n small free alone = (taken, simp taken (release_times n alone))
    where
      taken :
          times (suc n) (osi_mutex_acquire mutex 0) s ≡ ok tt (with_owner s mutex s.running (suc n))
      taken = simp (acquire_once free) (
          acquire_times n 1 (omega arith) (omega arith)
          ∙ ap (λ j. ok tt (with_owner s mutex s.running j)) (omega arith))

  refused_other :
      (n : ℕ) (other : Ptr)
      → (s.running == other) ≡ false
      → osi_mutex_release mutex (record (with_owner s mutex s.running n) { running = other })
        ≡ failed
  unfolding osi_mutex_release
  refused_other n other theirs = elim (Bool-cases (ltb 0 n)) [
    | inl some ↦ simp (can.mutex_live, some, theirs, ==_refl)
    | inr none ↦ simp (can.mutex_live, none, ==_refl)
  ]

  refused_free : osi_mutex_release mutex (with_owner s mutex null 0) ≡ failed
  unfolding osi_mutex_release
  refused_free = simp (can.mutex_live, ==_refl)

  release_some :
      (k j : ℕ)
      → times k (osi_mutex_release mutex) (with_owner s mutex s.running (suc (k + j)))
        ≡ ok tt (with_owner s mutex s.running (suc j))
  release_some zero j = ap (λ i. ok tt (with_owner s mutex s.running (suc i))) (zero-add j)
  release_some (suc k) j =
      let some : 0 < suc k + j = omega arith in
      let fewer : suc k + j ≡ suc (k + j) = omega arith in
      simp (release_again (suc k + j) some) (
        ap (λ i. times k (osi_mutex_release mutex) (with_owner s mutex s.running i)) fewer
        ∙ release_some k j)

  -- A free mutex that no task waits for is acquired more often than it is released, up to 65535 times;
  -- then the release by any other task stops at an assertion. Once it is released as often as it has been
  -- acquired, so does one more release by the same task.
  pub release_guarded :
      (k j : ℕ) (other : Ptr)
      → k + j < 65535
      → (s.mutex mutex).level ≡ 0
      → (s.mutex mutex).blocked.tasks ≡ null
      → (s.running == other) ≡ false
      → ((times (suc (k + j)) (osi_mutex_acquire mutex 0)
              >> (times k (osi_mutex_release mutex) >> (run_as other >> osi_mutex_release mutex)))
            s
          ≡ failed)
        × ((times (suc (k + j)) (osi_mutex_acquire mutex 0)
                >> (times (suc (k + j)) (osi_mutex_release mutex) >> osi_mutex_release mutex))
              s
            ≡ failed)
  release_guarded k j other small free alone theirs =
      let taken = (release-acquire (k + j) small free alone).0 in
      (
        simp (taken, release_some k j) (refused_other (suc j) other theirs),
        simp (taken, release_times (k + j) alone) refused_free,
      )
