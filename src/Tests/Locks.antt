-- ===== src/Tests/Locks.antt =====
-- The theorems on mutexes and semaphores, at the system.
use arduino_osh.Base.{ℕ, ◌≡◌, refl, arith, update}
use arduino_osh.Types.{Ptr, null, oss_success, Os}
use arduino_osh.Machine.{ok, failed, ◌>>◌}
use arduino_osh.Mutex.{osi_mutex_acquire, osi_mutex_release}
use arduino_osh.Mutex.Lock.{
  with_owner, release_nested, release_last, release_guarded, run_as, acquire_wraps, times,
  release-acquire,
}
use arduino_osh.Tests.State.{system}
use arduino_osh.Types.{flag_semaphore}
use arduino_osh.Machine.{rounds_lem}
use arduino_osh.Semaphore.{osi_semaphore_release}
use arduino_osh.Base.{[], ◌∷◌}
use arduino_osh.Semaphore.Waiters.{osi_semaphore_release-failed}
use arduino_osh.Tests.State.{tasks, semaphore}

-- The mutex at 10 with another owner and level.
abbrev lock : Ptr → ℕ → Os
lock owner level = with_owner system 10 owner level

release_nested_example : osi_mutex_release 10 system ≡ ok oss_success (lock 2 2)
release_nested_example =
    release_nested system 10
      (record { mutex_live = refl; running_live = refl; waits_for_none = refl }) refl (omega arith)

release_last_example :
    osi_mutex_release 10 (lock 2 1) ≡ ok oss_success (with_owner (lock 2 1) 10 null 0)
release_last_example =
    release_last (lock 2 1) 10
      (record { mutex_live = refl; running_live = refl; waits_for_none = refl }) refl refl refl

-- Acquired three times and released twice, and then by task 3.
release_guarded_example :
    ((times 3 (osi_mutex_acquire 10 0)
          >> (times 2 (osi_mutex_release 10) >> (run_as 3 >> osi_mutex_release 10)))
        (lock 0 0)
      ≡ failed)
    × ((times 3 (osi_mutex_acquire 10 0)
            >> (times 3 (osi_mutex_release 10) >> osi_mutex_release 10))
          (lock 0 0)
        ≡ failed)
release_guarded_example =
    release_guarded (lock 0 0) 10
      (record { mutex_live = refl; running_live = refl; waits_for_none = refl }) 2 0 3 (omega arith)
      refl refl refl

acquire_wraps_example :
    osi_mutex_acquire 10 5 (lock 2 65535) ≡ ok oss_success (with_owner (lock 2 65535) 10 2 0)
acquire_wraps_example =
    acquire_wraps (lock 2 65535) 10
      (record { mutex_live = refl; running_live = refl; waits_for_none = refl }) 5 refl refl

release-acquire_example :
    (times 3 (osi_mutex_acquire 10 0) (lock 0 0) ≡ ok tt (with_owner (lock 0 0) 10 2 3))
    × ((times 3 (osi_mutex_acquire 10 0) >> times 3 (osi_mutex_release 10)) (lock 0 0)
        ≡ ok tt (with_owner (lock 0 0) 10 null 0))
release-acquire_example =
    release-acquire (lock 0 0) 10
      (record { mutex_live = refl; running_live = refl; waits_for_none = refl }) 2 (omega arith)
      refl refl

-- Task 4 waits for the semaphore at 30.
abbrev waiting : Os
waiting = record system {
  semaphore = λ _. record semaphore { tokens = 0; blocked = record { type = 0; tasks = 4 } };
  task = record tasks {
    flags = update tasks.flags 4 flag_semaphore;
    semaphore = update tasks.semaphore 4 30;
  };
}

osi_semaphore_release-failed_example : osi_semaphore_release 30 waiting ≡ failed
osi_semaphore_release-failed_example =
    osi_semaphore_release-failed waiting 30 4 (2 ∷ 3 ∷ 1 ∷ [])
      (record { live = refl; flags = refl; no_mutex = refl }) refl refl refl refl refl
      (omega (arith, rounds_lem)) (refl, refl, (refl, refl, (refl, refl, refl))) refl
