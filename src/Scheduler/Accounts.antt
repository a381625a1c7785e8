-- ===== src/Scheduler/Accounts.antt =====
-- The parts of `osi_dispatch` of src/os.c about the task that leaves and the time that it has had.
use arduino_osh.Base.{
  ℕ, ◌+◌, ◌-◌, ◌%◌, ◌<◌, ◌≡◌, refl, ◌⊎◌, inl, inr, true, false, List, [], ◌∷◌, arith, ◌==◌, ltb,
  length, update, Bool-cases, ==_refl,
}
use arduino_osh.Types.{
  Ptr, null, TaskStatus, idle, active, wait, suspended, finished, panic, aborted,
  os_task_status_is_running, Os, u32_mod,
}
use arduino_osh.Machine.{ok, rounds}
use arduino_osh.Chain.{Chain}
use arduino_osh.RunQueue.Length.{runqueue_length_lem}
use arduino_osh.Scheduler.Dispatch.{leave_status, account, idle_check}

-- The status of the task that has been running, after the switch.
abbrev pub demoted : TaskStatus → TaskStatus
demoted active = idle
demoted idle = idle
demoted wait = wait
demoted suspended = suspended
demoted finished = finished
demoted panic = panic
demoted aborted = aborted

-- A running task that is active, has been made idle already, or waits, leaves its status so.
pub record Left (s : Os) (running : Ptr) (status : TaskStatus) : Type 0 where
  pub statuses : Ptr → TaskStatus
  pub result :
      leave_status running status s
      ≡ ok tt (record s { task = record (s.task) { status = statuses } })
  pub own : statuses running ≡ demoted status
  pub same : (a : Ptr) → (a == running) ≡ false → statuses a ≡ s.task.status a

pub leave_status-Left :
    (s : Os) (running : Ptr) (status : TaskStatus)
    → (running == null) ≡ false
    → s.task.status running ≡ status
    → (status ≡ wait) ⊎ (os_task_status_is_running status ≡ true)
    → Left s running status
unfolding leave_status
leave_status-Left s running active live e h = record {
  statuses = update s.task.status running idle;
  result = simp live;
  own = rw ==_refl refl;
  same = λ a n. ground (arith, n);
}
leave_status-Left s running idle live e h = record {
  statuses = s.task.status;
  result = refl;
  own = e;
  same = λ a n. refl;
}
leave_status-Left s running wait live e h = record {
  statuses = s.task.status;
  result = refl;
  own = e;
  same = λ a n. refl;
}
leave_status-Left s running suspended live e h = absurd (ground (arith, h))
leave_status-Left s running finished live e h = absurd (ground (arith, h))
leave_status-Left s running panic live e h = absurd (ground (arith, h))
leave_status-Left s running aborted live e h = absurd (ground (arith, h))

-- The accounts change the fields `runtime` and `scheduled` only.
pub record Accounted (s : Os) (running task : Ptr) : Type 0 where
  pub runtime : Ptr → ℕ
  pub scheduled : Ptr → ℕ
  pub result :
      account running task s
      ≡ ok tt (record s { task = record (s.task) { runtime = runtime; scheduled = scheduled } })

pub account-Accounted :
    (s : Os) (running task : Ptr)
    → (running == null) ≡ false
    → (task == null) ≡ false
    → Accounted s running task
unfolding account
account-Accounted s running task lr lt = elim (Bool-cases (ltb 0 (s.task.scheduled running))) [
  | inl since ↦ record {
    runtime = update s.task.runtime running (
        (s.task.runtime running + (s.micros + u32_mod - s.task.scheduled running) % u32_mod)
        % u32_mod);
    scheduled = update (update s.task.scheduled running 0) task s.micros;
    result = simp (lr, lt, since);
  }
  | inr none ↦ record {
    runtime = s.task.runtime;
    scheduled = update s.task.scheduled task s.micros;
    result = simp (lr, lt, none);
  }
]

pub idle_check_ok :
    (s : Os) (task : Ptr) (run : List Ptr)
    → length run < rounds
    → Chain s.task.nrp s.runqueue run
    → ((task == s.idle) ≡ false) ⊎ (run ≡ task ∷ [])
    → idle_check task s ≡ ok tt s
unfolding idle_check
idle_check_ok s task run fuel c (inl other) = simp other
idle_check_ok s task run fuel c (inr alone) = elim (Bool-cases (task == s.idle)) [
  | inl is ↦ simp (is, runqueue_length_lem s run fuel c, alone)
  | inr not_it ↦ simp not_it
]
