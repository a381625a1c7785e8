-- ===== src/RunQueue/Silent.antt =====
-- `osi_priority_check` of src/os.c has nothing to report of a queue in order.
use arduino_osh.Base.{
  ℕ, zero, suc, ◌<◌, ◌≤◌, ◌%◌, ◌≡◌, ◌⊎◌, inl, inr, true, false, ◌&&◌, List, [], ◌∷◌, arith, ◌==◌,
  ltb, leb, length, All, Bool-cases,
}
use arduino_osh.Types.{Ptr, null, os_task_status_is_running, Os, u8_mod}
use arduino_osh.Machine.{ok, rounds}
use arduino_osh.Chain.{Chain}
use arduino_osh.Chain.Order.{Falling}
use arduino_osh.RunQueue.{osi_priority_check, priority_check_order, priority_check_scheduled}

-- The priorities fit a byte, which is what the check keeps of them.
abbrev pub AreBytes : Os → List Ptr → Type 0
AreBytes s = All (λ a. s.task.priority a < 256)

order_silent :
    (k : ℕ) (s : Os) (before : ℕ) (iter : Ptr) (xs : List Ptr)
    → length xs < k
    → Chain s.task.nrp iter xs
    → All (λ a. os_task_status_is_running (s.task.status a) ≡ true) xs
    → Falling s.task.priority xs
    → AreBytes s xs
    → All (λ a. s.task.priority a ≤ before) xs
    → priority_check_order k before iter s ≡ ok tt s
unfolding priority_check_order
order_silent zero s before iter xs fuel c can ranked bytes low = absurd (omega arith)
order_silent (suc k) s before iter [] fuel c can ranked bytes low = simp c
order_silent (suc k) s before iter (x ∷ xs) fuel (e, live, c) can ranked bytes low =
    simp (e, live, can.0, fine, byte)
      (order_silent k s (s.task.priority x) (s.task.nrp x) xs (omega arith) c can.1 ranked.1 bytes.1
        ranked.0)
  where
    fine : leb (s.task.priority x) before ≡ true
    fine = ground (arith, low.0)

    byte : s.task.priority x % u8_mod ≡ s.task.priority x
    byte = omega (arith, bytes.0)

scheduled_silent :
    (k : ℕ) (s : Os) (scheduled : Ptr) (p : ℕ) (iter : Ptr) (xs : List Ptr)
    → length xs < k
    → Chain s.task.nrp iter xs
    → All (λ a. s.task.priority a ≤ p) xs
    → priority_check_scheduled k scheduled p iter s ≡ ok tt s
unfolding priority_check_scheduled
scheduled_silent zero s scheduled p iter xs fuel c low = absurd (omega arith)
scheduled_silent (suc k) s scheduled p iter [] fuel c low = simp c
scheduled_silent (suc k) s scheduled p iter (x ∷ xs) fuel (e, live, c) low =
    simp (e, live, fine) (scheduled_silent k s scheduled p (s.task.nrp x) xs (omega arith) c low.1)
  where
    fine : (os_task_status_is_running (s.task.status x) && ltb p (s.task.priority x)) ≡ false
    fine = ground (arith, low.0)

All-byte : (s : Os) (xs : List Ptr) → AreBytes s xs → All (λ a. s.task.priority a ≤ 255) xs
All-byte s [] h = tt
All-byte s (x ∷ xs) h = (omega (arith, h.0), All-byte s xs h.1)

-- Of a run queue that ends, by falling priority, whose tasks can run and have priorities below 256,
-- `osi_priority_check` reports nothing: it returns and leaves the state as it is. Of the task that
-- it is given, if any, no task of the queue exceeds the priority, which is below 256 as well.
pub osi_priority_check_silent :
    (s : Os) (scheduled : Ptr) (xs : List Ptr)
    → length xs < rounds
    → Chain s.task.nrp s.runqueue xs
    → All (λ a. os_task_status_is_running (s.task.status a) ≡ true) xs
    → Falling s.task.priority xs
    → AreBytes s xs
    → ((scheduled == null) ≡ true)
      ⊎ (All (λ a. s.task.priority a ≤ s.task.priority scheduled) xs
          × (s.task.priority scheduled < 256))
    → osi_priority_check scheduled s ≡ ok tt s
unfolding osi_priority_check
osi_priority_check_silent s scheduled xs fuel c can ranked bytes top =
    let order =
      order_silent rounds s 255 s.runqueue xs fuel c can ranked bytes (All-byte s xs bytes) in
    elim (Bool-cases (scheduled == null)) [
      | inl absent ↦ simp absent order
      | inr given ↦ elim top [
        | inl absent ↦ absurd (ground (arith, absent, given))
        | inr (low, byte) ↦
            let whole : s.task.priority scheduled % u8_mod ≡ s.task.priority scheduled =
              omega (arith, byte) in
            simp
              (
                given,
                whole,
                scheduled_silent rounds s scheduled (s.task.priority scheduled) s.runqueue xs fuel c
                    low,
              )
              order
      ]
    ]
