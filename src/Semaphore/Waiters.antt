-- ===== src/Semaphore/Waiters.antt =====
-- What the flag value of a semaphore does to `osi_dispatch`. `OS_TASK_FLAG_SEMAPHORE` is 3, which
-- has the bit of `OS_TASK_FLAG_MUTEX`.
use arduino_osh.Base.{◌<◌, ◌≡◌, inl, inr, false, ◌==◌, Bool-cases, List, length, update, ==_refl}
use arduino_osh.Types.{Ptr, null, Os, flag_semaphore, oss_success}
use arduino_osh.Machine.{failed, rounds}
use arduino_osh.Chain.{Chain}
use arduino_osh.RunQueue.Higher.{outranked, has_higher_priority-outranked}
use arduino_osh.Scheduler.{osi_dispatch, osi_dispatch_or_queue, switch_to, detach, detach_mutex}
use arduino_osh.Stack.Return.{stacked}
use arduino_osh.Semaphore.Defs.{blocked_deq, osi_semaphore_release}

-- A task that blocks on a semaphore: its flags are those that `osi_semaphore_acquire` sets, and it
-- blocks on no mutex.
pub record Waits (s : Os) (task : Ptr) : Type 0 where
  pub live : (task == null) ≡ false
  pub flags : s.task.flags task ≡ flag_semaphore
  pub no_mutex : s.task.mutex task ≡ null

-- The dispatch of a task that blocks on a semaphore, from any other running task, stops at an
-- assertion.
pub dispatch-failed :
    (s : Os) (task : Ptr)
    → Waits s task
    → (s.running == null) ≡ false
    → (s.running == task) ≡ false
    → osi_dispatch task s ≡ failed
unfolding osi_dispatch switch_to detach detach_mutex
dispatch-failed s task w live other = elim (Bool-cases (s.task.queue task == null)) [
  | inl none ↦ simp (w.live, live, other, w.flags, none, w.no_mutex)
  | inr some ↦ simp (w.live, live, other, w.flags, some)
]

-- `osi_semaphore_release` stops at an assertion when a task waits for the semaphore that no task of
-- the run queue outranks. The running task is another one, and the run queue ends.
pub osi_semaphore_release-failed :
    (s : Os) (semaphore task : Ptr) (run : List Ptr)
    → Waits s task
    → (semaphore == null) ≡ false
    → (s.semaphore semaphore).blocked.tasks ≡ task
    → s.task.semaphore task ≡ semaphore
    → (s.running == null) ≡ false
    → (s.running == task) ≡ false
    → length run < rounds
    → Chain s.task.nrp s.runqueue run
    → outranked s task run ≡ false
    → osi_semaphore_release semaphore s ≡ failed
unfolding osi_semaphore_release blocked_deq osi_dispatch_or_queue
osi_semaphore_release-failed s semaphore task run w sem first theirs live other fuel c low =
    let s' : Os = record s {
      semaphore = update s.semaphore semaphore (record (s.semaphore semaphore) {
        blocked = record ((s.semaphore semaphore).blocked) { tasks = s.task.nblocked task };
      });
      task = record (s.task) { nblocked = update s.task.nblocked task null };
    } in
    let (memory, written) = stacked s' task oss_success (w.live) in
    let s'' : Os = record s' { memory = memory } in
    let higher = has_higher_priority-outranked s'' task run fuel (w.live) c in
    let stop =
      dispatch-failed s'' task (record { live = w.live; flags = w.flags; no_mutex = w.no_mutex })
        live other in
    simp (sem, first, w.live, theirs, ==_refl, written, higher, low, stop)
