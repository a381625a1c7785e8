-- ===== src/Hooks.antt =====
-- src/hooks.c, the default hooks: what a panic reports and does.
use arduino_osh.Base.{ℕ, zero, suc, not, ◌==◌, if◌then◌else◌}
use arduino_osh.Types.{Ptr, null, TaskStatus, PanicKind, Event, is_mcu}
use arduino_osh.Machine.{M, Run, skip, get, load, emit, when, rounds, ◌>>=◌, ◌>>◌}
use arduino_osh.Scheduler.{osi_task_status_set}

-- The name, status and priority of each task of a queue are printed.
report_loop : ℕ → Ptr → M (Unit {0})
report_loop zero iter = λ _. Run.out_of_rounds
report_loop (suc k) iter =
    if iter == null
    then skip
    else do emit (Event.report_task iter); next ← load iter (λ t. t.nrp); report_loop k next

-- On the microcontrollers `NVIC_SystemReset` ends the run here.
unfoldable pub osi_panic : PanicKind → M (Unit {0})
unfolding report_loop
osi_panic code = do
  emit (Event.panic_kind code)
  running_head ← get (λ s. s.runqueue)
  report_loop rounds running_head
  waiting_head ← get (λ s. s.waitqueue)
  report_loop rounds waiting_head
  arch ← get (λ s. s.arch)
  running ← get (λ s. s.running)
  if is_mcu arch
      then (λ _. Run.reset)
      else when (not (running == null)) (do osi_task_status_set running TaskStatus.panic; skip)
