-- ===== src/Tests/Shares.antt =====
-- The theorems on read-write locks, at the system.
use arduino_osh.Base.{ℕ, ◌≡◌, refl, inl, arith}
use arduino_osh.Types.{Os, Rwlock, oss_success}
use arduino_osh.Machine.{ok}
use arduino_osh.Rwlock.{osi_rwlock_acquire_read, osi_rwlock_acquire_write, osi_rwlock_release}
use arduino_osh.Rwlock.Share.{
  IsExclusive, CanCall, with_rwlock, Attempt, acquire_read-Attempt, acquire_write-Attempt,
  release-IsExclusive,
}
use arduino_osh.Tests.State.{system, rwlock}

abbrev shared : Os
shared = with_rwlock system 40 (record rwlock { readers = 2 })

can : CanCall shared 40
can = record { rwlock_live = refl; running_live = refl; waits_for_none = refl }

exclusive : IsExclusive (shared.rwlock 40)
exclusive = record { alone = inl refl; counted = omega arith }

acquire_read-Attempt_example :
    (status : ℕ) × (l : Rwlock) × (osi_rwlock_acquire_read 40 0 shared
      ≡ ok status (with_rwlock shared 40 l))
    × IsExclusive l
    × Attempt
        ((shared.rwlock 40).writers ≡ 0)
        (shared.rwlock 40)
        (record (shared.rwlock 40) { readers = 3 })
        status
        l
acquire_read-Attempt_example = acquire_read-Attempt shared 40 can exclusive (omega arith)

acquire_write-Attempt_example :
    (status : ℕ) × (l : Rwlock) × (osi_rwlock_acquire_write 40 0 shared
      ≡ ok status (with_rwlock shared 40 l))
    × IsExclusive l
    × Attempt
        (((shared.rwlock 40).readers ≡ 0) × ((shared.rwlock 40).writers ≡ 0))
        (shared.rwlock 40)
        (record (shared.rwlock 40) { writers = 1; writer = 2 })
        status
        l
acquire_write-Attempt_example = acquire_write-Attempt shared 40 can exclusive

release-IsExclusive_example :
    (l : Rwlock) × (osi_rwlock_release 40 shared ≡ ok oss_success (with_rwlock shared 40 l))
    × IsExclusive l
    × (l ≡ record (shared.rwlock 40) { readers = 1 })
release-IsExclusive_example = release-IsExclusive shared 40 can exclusive refl (inl (omega arith))
