-- ===== src/Tests/Waiters.antt =====
-- The theorems on the lists of the mutexes, at the system with a contended mutex.
use arduino_osh.Base.{◌≡◌, refl, true, List, [], ◌∷◌, arith, update, has, ==→eq}
use arduino_osh.Types.{Ptr, Os}
use arduino_osh.Machine.{rounds_lem}
use arduino_osh.Mutex.Waiting.{Locks}
use arduino_osh.Mutex.Acquire.{Joins, osi_mutex_acquire-Joins}
use arduino_osh.Mutex.Detach.{Comes, detach-Comes}
use arduino_osh.Mutex.Release.{Releases, osi_mutex_release-Releases}
use arduino_osh.Tests.State.{mutex}
use arduino_osh.Tests.Handover.{contended, blocks_on}

abbrev pub five : List Ptr
five = 1 ∷ 2 ∷ 3 ∷ 4 ∷ 5 ∷ []

-- Task 4 waits for mutex 30.
abbrev pub lists : Ptr → List Ptr
lists = update (λ _. []) 30 (4 ∷ [])

the_one : (m : Ptr) → has m (30 ∷ []) ≡ true → m ≡ 30
the_one m i = ==→eq m 30 (ground (arith, i))

waiter : (a : Ptr) → has a (4 ∷ []) ≡ true → a ≡ 4
waiter a h = ==→eq a 4 (ground (arith, h))

-- The owner may be another task.
abbrev pub held_by : Ptr → Os
held_by owner = record contended {
  mutex = λ _. record mutex { owner = owner; level = 1; blocked = record { type = 0; tasks = 4 } };
}

pub held_by-Locks : (owner : Ptr) → Locks (held_by owner) five (30 ∷ []) lists
held_by-Locks owner = record {
  live = λ m i. rw (the_one m i) refl;
  chains = λ m i. rw (the_one m i) (refl, refl, refl);
  short = λ m i. rw (the_one m i) (omega (arith, rounds_lem));
  known = λ m a i h. rw (waiter a (rw (the_one m i) at h)) refl;
  blocks = λ m a i h.
      rw (the_one m i, waiter a (rw (the_one m i) at h))
        (record {
          flags = blocks_on.flags;
          waits_for = blocks_on.waits_for;
          queue = blocks_on.queue;
          semaphore = blocks_on.semaphore;
          rwlock = blocks_on.rwlock;
        });
  loose = λ a i e. record {
    mutex = ground (arith, e);
    nblocked = refl;
    queue = refl;
    semaphore = refl;
    rwlock = refl;
  };
  left = λ m a i j e o. refl;
  held = λ m i e. absurd (ground (arith, e));
}

-- Task 2 asks for the mutex of task 3.
osi_mutex_acquire-Joins_example : Joins (held_by 3) five (30 ∷ []) lists 30 10
osi_mutex_acquire-Joins_example =
    osi_mutex_acquire-Joins (held_by 3) five (30 ∷ []) lists 30 10 (held_by-Locks 3) refl refl refl
      refl refl refl refl (omega (arith, rounds_lem))

osi_mutex_release-Releases_example : Releases (held_by 2) five (30 ∷ []) lists 30
osi_mutex_release-Releases_example =
    osi_mutex_release-Releases (held_by 2) five (30 ∷ []) lists 30 (held_by-Locks 2) refl refl refl
      refl (omega arith)

detach-Comes_example : Comes (held_by 2) five (30 ∷ []) lists 4 30
detach-Comes_example =
    detach-Comes (held_by 2) five (30 ∷ []) lists 4 30 (held_by-Locks 2) refl
      (record {
        flags = blocks_on.flags;
        waits_for = blocks_on.waits_for;
        queue = blocks_on.queue;
        semaphore = blocks_on.semaphore;
        rwlock = blocks_on.rwlock;
      })
      refl refl
