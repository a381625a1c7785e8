-- ===== src/Rwlock/Share.antt =====
-- A read-write lock without waiting tasks: any number of readers, or one writer.
use arduino_osh.Base.{
  ℕ, ◌+◌, ◌-◌, ◌%◌, ◌<◌, ◌≡◌, ◌≢◌, refl, ◌⊎◌, inl, inr, true, false, ◌&&◌, arith, ◌==◌, ltb,
  if◌then◌else◌, update, update_self, Bool-cases, ==→eq, ==→ne, ==_refl, ne→==,
}
use mathlib.Core.Path.{fun_ext}
use arduino_osh.Types.{Ptr, null, Rwlock, Os, u16_mod, oss_success, oss_error_to}
use arduino_osh.Machine.{ok, failed}
use arduino_osh.Rwlock.Defs.{
  wait_for, osi_rwlock_acquire_read, osi_rwlock_acquire_write, give_back, osi_rwlock_release,
}

-- Readers and a writer exclude each other, and two writers too. A writer is known, and a reader
-- less than the counter can hold.
pub record IsExclusive (l : Rwlock) : Type 0 where
  pub alone : (l.writers ≡ 0) ⊎ ((l.writers ≡ 1) × (l.readers ≡ 0))
  pub counted : l.readers < 65536

abbrev pub with_rwlock : Os → Ptr → Rwlock → Os
with_rwlock s p l = record s { rwlock = update s.rwlock p l }

-- A call by a running task that waits for no read-write lock.
pub record CanCall (s : Os) (rwlock : Ptr) : Type 0 where
  pub rwlock_live : (rwlock == null) ≡ false
  pub running_live : (s.running == null) ≡ false
  pub waits_for_none : s.task.rwlock s.running ≡ null

with_rwlock_self : (s : Os) (p : Ptr) → with_rwlock s p (s.rwlock p) ≡ s
with_rwlock_self s p i = record s { rwlock = fun_ext (update_self s.rwlock p) i }

-- An attempt that succeeds when `free` holds, and then leaves `l`, and that otherwise reports a
-- timeout and leaves the lock as it was.
abbrev pub Attempt : Type 0 → Rwlock → Rwlock → ℕ → Rwlock → Type 0
Attempt free old new status l =
    ((status ≡ oss_success) × free × (l ≡ new)) ⊎ ((status ≡ oss_error_to) × (free → ⊥) × (l ≡ old))

module _ (s : Os) (rwlock : Ptr) (can : CanCall s rwlock) (x : IsExclusive (s.rwlock rwlock)) where
  -- With no time to wait, and fewer than 65535 readers, `osi_rwlock_acquire_read` returns, changes
  -- nothing but the lock, and keeps readers and writers exclusive. It succeeds, with one more
  -- reader, exactly when there is no writer, and else leaves the lock as it was.
  pub acquire_read-Attempt :
      (s.rwlock rwlock).readers < 65535
      → (status : ℕ) × (l : Rwlock) × (osi_rwlock_acquire_read rwlock 0 s
          ≡ ok status (with_rwlock s rwlock l))
        × IsExclusive l
        × Attempt
            ((s.rwlock rwlock).writers ≡ 0)
            (s.rwlock rwlock)
            (record (s.rwlock rwlock) { readers = (s.rwlock rwlock).readers + 1 })
            status
            l
  unfolding osi_rwlock_acquire_read wait_for
  acquire_read-Attempt small = elim (Bool-cases ((s.rwlock rwlock).writers == 0)) [
    | inl free ↦ (
      oss_success,
      record (s.rwlock rwlock) { readers = (s.rwlock rwlock).readers + 1 },
      simp (can.running_live, can.waits_for_none, can.rwlock_live, free, fits),
      record { alone = inl (==→eq _ _ free); counted = omega arith },
      inl (refl, ==→eq _ _ free, refl),
    )
    | inr held ↦ (
      oss_error_to,
      s.rwlock rwlock,
      simp (can.running_live, can.waits_for_none, can.rwlock_live, held, with_rwlock_self s rwlock),
      x,
      inr (refl, ==→ne _ _ held, refl),
    )
  ]
    where
      fits : ((s.rwlock rwlock).readers + 1) % u16_mod ≡ (s.rwlock rwlock).readers + 1
      fits = omega arith

  -- With no time to wait `osi_rwlock_acquire_write` returns, changes nothing but the lock, and
  -- keeps readers and writers exclusive. It succeeds, with the running task as the one writer,
  -- exactly when there is neither a reader nor a writer, and else leaves the lock as it was.
  pub acquire_write-Attempt :
      (status : ℕ) × (l : Rwlock) × (osi_rwlock_acquire_write rwlock 0 s
        ≡ ok status (with_rwlock s rwlock l))
      × IsExclusive l
      × Attempt
          (((s.rwlock rwlock).readers ≡ 0) × ((s.rwlock rwlock).writers ≡ 0))
          (s.rwlock rwlock)
          (record (s.rwlock rwlock) { writers = 1; writer = s.running })
          status
          l
  unfolding osi_rwlock_acquire_write wait_for
  acquire_write-Attempt =
      elim (Bool-cases (((s.rwlock rwlock).readers == 0) && ((s.rwlock rwlock).writers == 0))) [
        | inl free ↦
            let none : (s.rwlock rwlock).writers ≡ 0 = ground (arith, free) in
            let unread : (s.rwlock rwlock).readers ≡ 0 = ground (arith, free) in
            let one : ((s.rwlock rwlock).writers + 1) % u16_mod ≡ 1 = omega arith in
            (
              oss_success,
              record (s.rwlock rwlock) { writers = 1; writer = s.running },
              simp (can.running_live, can.waits_for_none, can.rwlock_live, free, one),
              record { alone = inr (refl, unread); counted = x.counted },
              inl (refl, (unread, none), refl),
            )
        | inr held ↦ (
          oss_error_to,
          s.rwlock rwlock,
          simp (
            can.running_live,
            can.waits_for_none,
            can.rwlock_live,
            held,
            with_rwlock_self s rwlock,
          ),
          x,
          inr (refl, (λ f. ground (arith, held, f)), refl),
        )
      ]

  -- Released by a reader, or by the writer, with no task waiting, the lock loses one reader, or its
  -- writer. Nothing else changes, and readers and writers stay exclusive.
  pub release-IsExclusive :
      (s.rwlock rwlock).blocked.tasks ≡ null
      → (0 < (s.rwlock rwlock).readers)
        ⊎ (((s.rwlock rwlock).writers ≡ 1) × ((s.rwlock rwlock).writer ≡ s.running))
      → (l : Rwlock) × (osi_rwlock_release rwlock s ≡ ok oss_success (with_rwlock s rwlock l))
        × IsExclusive l
        × (l ≡ (
            if ltb 0 (s.rwlock rwlock).readers
            then record (s.rwlock rwlock) { readers = (s.rwlock rwlock).readers - 1 }
            else record (s.rwlock rwlock) { writers = 0; writer = null }))
  unfolding osi_rwlock_release give_back
  release-IsExclusive alone (inl reader) =
      let some : ltb 0 (s.rwlock rwlock).readers ≡ true = ground arith in
      let none : (s.rwlock rwlock).writers ≡ 0 = ground (arith, x.alone) in
      (
        record (s.rwlock rwlock) { readers = (s.rwlock rwlock).readers - 1 },
        simp (can.rwlock_live, some, none, alone, ==_refl),
        record { alone = inl none; counted = omega (arith, x.counted) },
        rw some refl,
      )
  release-IsExclusive alone (inr writer) =
      let none : (s.rwlock rwlock).readers ≡ 0 = ground (arith, x.alone, writer) in
      (
        record (s.rwlock rwlock) { writers = 0; writer = null },
        simp (can.rwlock_live, none, writer.0, writer.1, alone, ==_refl),
        record { alone = inl refl; counted = x.counted },
        rw none refl,
      )

  -- The release of a free lock, and of one that another task has for writing, stops at an assertion.
  pub osi_rwlock_release_refused :
      (((s.rwlock rwlock).readers ≡ 0) × ((s.rwlock rwlock).writers ≡ 0))
        ⊎ (((s.rwlock rwlock).writers ≡ 1) × ((s.rwlock rwlock).writer ≢ s.running))
      → osi_rwlock_release rwlock s ≡ failed
  unfolding osi_rwlock_release give_back
  osi_rwlock_release_refused (inl free) = simp (can.rwlock_live, free.0, free.1)
  osi_rwlock_release_refused (inr other) =
      let none : (s.rwlock rwlock).readers ≡ 0 = ground (arith, x.alone, other.0) in
      simp (can.rwlock_live, none, other.0, ne→== _ _ other.1)
