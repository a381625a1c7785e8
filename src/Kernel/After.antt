-- ===== src/Kernel/After.antt =====
-- The queues after the tick has woken a task.
use arduino_osh.Base.{
  ◌≡◌, inl, inr, true, ◌||◌, List, [], ◌∷◌, ◌++◌, arith, ◌==◌, All, All-append, All-split, has,
  has-append, Bool-cases, ==→eq,
}
use arduino_osh.Types.{Ptr, null, Os}
use arduino_osh.Chain.{erase}
use arduino_osh.Chain.Order.{has-insert, has-erase}
use arduino_osh.RunQueue.Add.{ranks_below}
use arduino_osh.Scheduler.Ready.{first_due, first_due-has, run_after, wait_after}
use arduino_osh.Kernel.Settled.{In}

-- Waking moves a task between the queues.
pub run_after-has :
    (s : Os) (run waiting : List Ptr) (a : Ptr)
    → has a run ≡ true
    → has a (run_after s run waiting) ≡ true
run_after-has s run waiting a i = elim (Bool-cases (first_due s waiting == null)) [
  | inl none ↦ rw none i
  | inr some ↦
      rw (some, has-insert (ranks_below s (first_due s waiting)) a (first_due s waiting) run)
        (ground (arith, i))
]

pub after-In :
    (s : Os) (run waiting : List Ptr) (a : Ptr)
    → In a (run_after s run waiting) (wait_after s waiting)
    → In a run waiting
after-In s run waiting a i = elim (Bool-cases (first_due s waiting == null)) [
  | inl none ↦ rw none at i
  | inr some ↦
      let t = first_due s waiting in
      let j = rw (some, has-insert (ranks_below s t) a t run) at i in
      elim (Bool-cases (a == t)) [
        | inl e ↦
            let own : has a waiting ≡ true = rw (==→eq a t e) (first_due-has s waiting some) in
            ground (arith, own)
        | inr n ↦ elim (Bool-cases (has a run)) [
          | inl r ↦ ground (arith, r)
          | inr o ↦
              let still : has a (erase t waiting) ≡ true = rw (n, o) at j in
              let own : has a waiting ≡ true = has-erase a t waiting still in ground (arith, own)
        ]
      ]
]

-- Round a queue and back.
pub has-around :
    (a r : Ptr) (front back : List Ptr)
    → has a (back ++ (front ++ r ∷ [])) ≡ true
    → has a (front ++ r ∷ back) ≡ true
has-around a r front back i =
    let e : (has a back || (has a front || has a (r ∷ []))) ≡ true =
      rw (has-append a back (front ++ r ∷ []), has-append a front (r ∷ [])) at i in
    rw (has-append a front (r ∷ back)) (ground (arith, e))

pub All-around :
    (P : Ptr → Type 0) (r : Ptr) (front back : List Ptr)
    → All P (back ++ (front ++ r ∷ []))
    → All P (front ++ r ∷ back)
All-around P r front back h =
    let (b, fr) = All-split P back (front ++ r ∷ []) h in
    let (f, own) = All-split P front (r ∷ []) fr in All-append P front (r ∷ back) f (own.0, b)
