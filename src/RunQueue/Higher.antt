-- ===== src/RunQueue/Higher.antt =====
-- `runqueue_has_higher_priority` looks for a task that can run and outranks the given one.
use arduino_osh.Base.{
  ℕ, zero, suc, ◌<◌, ◌≡◌, inl, inr, Bool, false, ◌&&◌, ◌||◌, List, [], ◌∷◌, arith, ◌==◌, ltb,
  length, Bool-cases,
}
use arduino_osh.Types.{Ptr, null, os_task_status_is_running, Os}
use arduino_osh.Machine.{ok, rounds}
use arduino_osh.Chain.{Chain}
use arduino_osh.RunQueue.{runqueue_has_higher_priority, runqueue_has_higher_priority_loop}

-- Some task of the list can run and has a greater priority.
abbrev pub outranked : Os → Ptr → List Ptr → Bool
outranked s task [] = false
outranked s task (x ∷ xs) =
    (os_task_status_is_running (s.task.status x) && ltb (s.task.priority task) (s.task.priority x))
    || outranked s task xs

loop-outranked :
    (k : ℕ) (s : Os) (task iter : Ptr) (xs : List Ptr)
    → length xs < k
    → (task == null) ≡ false
    → Chain s.task.nrp iter xs
    → runqueue_has_higher_priority_loop k task iter s ≡ ok (outranked s task xs) s
unfolding runqueue_has_higher_priority_loop
loop-outranked zero s task iter xs fuel live c = absurd (omega arith)
loop-outranked (suc k) s task iter [] fuel live c = simp c
loop-outranked (suc k) s task iter (x ∷ xs) fuel live (e, lx, c) =
    elim (Bool-cases (
      os_task_status_is_running (s.task.status x)
      && ltb (s.task.priority task) (s.task.priority x))) [
        | inl hit ↦ simp (e, lx, live, hit)
        | inr miss ↦
            simp (e, lx, live, miss)
              (loop-outranked k s task (s.task.nrp x) xs (omega arith) live c)
      ]

-- On a run queue that ends, the answer is whether a task of it can run and outranks `task`.
pub has_higher_priority-outranked :
    (s : Os) (task : Ptr) (xs : List Ptr)
    → length xs < rounds
    → (task == null) ≡ false
    → Chain s.task.nrp s.runqueue xs
    → runqueue_has_higher_priority task s ≡ ok (outranked s task xs) s
unfolding runqueue_has_higher_priority
has_higher_priority-outranked s task xs fuel live c =
    loop-outranked rounds s task s.runqueue xs fuel live c
