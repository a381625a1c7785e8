-- ===== src/RunQueue/Check.antt =====
-- `osi_priority_check` returns, and changes nothing but the trace.
use arduino_osh.Base.{
  ℕ, zero, suc, ◌%◌, ◌<◌, ◌≡◌, refl, inl, inr, ◌&&◌, List, [], ◌∷◌, arith, ◌==◌, ltb, leb, length,
  Bool-cases,
}
use arduino_osh.Types.{Ptr, null, Os, Event, u8_mod, os_task_status_is_running}
use arduino_osh.Machine.{M, ok, rounds}
use arduino_osh.Chain.{Chain}
use arduino_osh.RunQueue.{priority_check_scheduled, priority_check_order, osi_priority_check}

-- A run that returns and at most adds to the trace.
pub record Traces (s : Os) (r : M (Unit {0})) : Type 0 where
  pub trace : List Event
  pub result : r s ≡ ok tt (record s { trace = trace })

priority_check_scheduled-Traces :
    (k : ℕ) (s : Os) (scheduled : Ptr) (p : ℕ) (iter : Ptr) (xs : List Ptr)
    → length xs < k
    → Chain s.task.nrp iter xs
    → Traces s (priority_check_scheduled k scheduled p iter)
unfolding priority_check_scheduled
priority_check_scheduled-Traces zero s scheduled p iter xs fuel c = absurd (omega arith)
priority_check_scheduled-Traces (suc k) s scheduled p iter [] fuel c = record {
  trace = s.trace;
  result = rw c refl;
}
priority_check_scheduled-Traces (suc k) s scheduled p iter (x ∷ xs) fuel (e, live, c) =
    elim (Bool-cases (os_task_status_is_running (s.task.status x) && ltb p (s.task.priority x))) [
      | inl hit ↦
          let s' = record s { trace = Event.scheduler_panic scheduled x ∷ s.trace } in
          let r =
            priority_check_scheduled-Traces k s' scheduled p (s.task.nrp x) xs (omega arith) c in
          record { trace = r.trace; result = simp (e, live, hit) r.result }
      | inr miss ↦
          let r =
            priority_check_scheduled-Traces k s scheduled p (s.task.nrp x) xs (omega arith) c in
          record { trace = r.trace; result = simp (e, live, miss) r.result }
    ]

priority_check_order-Traces :
    (k : ℕ) (s : Os) (before : ℕ) (iter : Ptr) (xs : List Ptr)
    → length xs < k
    → Chain s.task.nrp iter xs
    → Traces s (priority_check_order k before iter)
unfolding priority_check_order
priority_check_order-Traces zero s before iter xs fuel c = absurd (omega arith)
priority_check_order-Traces (suc k) s before iter [] fuel c = record {
  trace = s.trace;
  result = rw c refl;
}
priority_check_order-Traces (suc k) s before iter (x ∷ xs) fuel (e, live, c) =
    let rest = λ (l : List Event).
      priority_check_order-Traces k (record s { trace = l }) (s.task.priority x % u8_mod)
        (s.task.nrp x) xs (omega arith) c in
    elim (Bool-cases (os_task_status_is_running (s.task.status x))) [
      | inl can ↦ elim (Bool-cases (leb (s.task.priority x) before)) [
        | inl le ↦
            let r = rest s.trace in
            record { trace = r.trace; result = simp (e, live, can, le) r.result }
        | inr gt ↦
            let r = rest (Event.error_priority x ∷ s.trace) in
            record { trace = r.trace; result = simp (e, live, can, gt) r.result }
      ]
      | inr cannot ↦ elim (Bool-cases (leb (s.task.priority x) before)) [
        | inl le ↦
            let r = rest (Event.error_status x ∷ s.trace) in
            record { trace = r.trace; result = simp (e, live, cannot, le) r.result }
        | inr gt ↦
            let r = rest (Event.error_priority x ∷ Event.error_status x ∷ s.trace) in
            record { trace = r.trace; result = simp (e, live, cannot, gt) r.result }
      ]
    ]

-- On a run queue that ends, `osi_priority_check` returns, and at most adds to the trace.
pub osi_priority_check-Traces :
    (s : Os) (scheduled : Ptr) (xs : List Ptr)
    → length xs < rounds
    → Chain s.task.nrp s.runqueue xs
    → Traces s (osi_priority_check scheduled)
unfolding osi_priority_check
osi_priority_check-Traces s scheduled xs fuel c = elim (Bool-cases (scheduled == null)) [
  | inl none ↦
      let r = priority_check_order-Traces rounds s 255 s.runqueue xs fuel c in
      record { trace = r.trace; result = simp none r.result }
  | inr some ↦
      let p = s.task.priority scheduled % u8_mod in
      let q = priority_check_scheduled-Traces rounds s scheduled p s.runqueue xs fuel c in
      let r =
        priority_check_order-Traces rounds (record s { trace = q.trace }) 255 s.runqueue xs fuel
          c in
      record { trace = r.trace; result = simp some (rw q.result r.result) }
]
