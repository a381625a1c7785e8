-- ===== src/RunQueue.antt =====
-- The run queue of src/os.c: tasks that can run, by falling priority, linked by `nrp` from
-- `osg.runqueue`. Every caller passes `&osg.runqueue` for `head`.
pub mod Add
pub mod Check
pub mod Higher
pub mod Remove
pub mod Length
pub mod Silent
use arduino_osh.Base.{
  ℕ, zero, suc, ◌+◌, ◌%◌, Bool, true, false, not, ◌&&◌, ◌==◌, ltb, leb, if◌then◌else◌,
}
use arduino_osh.Types.{
  Ptr, null, TaskStatus, u32_mod, u8_mod, status_eq, os_task_status_is_running, Event, PanicKind,
}
use arduino_osh.Machine.{
  M, Run, pure, skip, get, modify, os_assert, load, set_nrp, emit, when, rounds, ◌>>=◌, ◌>>◌,
}

-- `osi_debug_dump` of src/hooks.c does nothing.
abbrev pub osi_debug_dump : PanicKind → M (Unit {0})
osi_debug_dump code = skip

-- The first loop: a task in the queue that could run and outranks `scheduled`.
unfoldable pub priority_check_scheduled : ℕ → Ptr → ℕ → Ptr → M (Unit {0})
priority_check_scheduled zero scheduled scheduled_priority iter = λ _. Run.out_of_rounds
priority_check_scheduled (suc k) scheduled scheduled_priority iter =
    if iter == null then skip else do
      status ← load iter (λ t. t.status)
      priority ← load iter (λ t. t.priority)
      when (os_task_status_is_running status && ltb scheduled_priority priority)
          (do emit (Event.scheduler_panic scheduled iter); osi_debug_dump PanicKind.assertion)
      next ← load iter (λ t. t.nrp)
      priority_check_scheduled k scheduled scheduled_priority next

-- The second loop: a task that cannot run, or that stands behind one of lower priority.
unfoldable pub priority_check_order : ℕ → ℕ → Ptr → M (Unit {0})
priority_check_order zero before iter = λ _. Run.out_of_rounds
priority_check_order (suc k) before iter = if iter == null then skip else do
  status ← load iter (λ t. t.status)
  when (not (os_task_status_is_running status)) (emit (Event.error_status iter))
  priority ← load iter (λ t. t.priority)
  when (not (leb priority before)) (emit (Event.error_priority iter))
  next ← load iter (λ t. t.nrp)
  priority_check_order k (priority % u8_mod) next

-- Priorities are copied to a `uint8_t`.
unfoldable pub osi_priority_check : Ptr → M (Unit {0})
unfolding priority_check_scheduled priority_check_order
osi_priority_check scheduled = do
  when (not (scheduled == null)) (do
    priority ← load scheduled (λ t. t.priority)
    head ← get (λ s. s.runqueue)
    priority_check_scheduled rounds scheduled (priority % u8_mod) head)
  head ← get (λ s. s.runqueue)
  priority_check_order rounds 255 head

runqueue_length_loop : ℕ → ℕ → Ptr → M ℕ
runqueue_length_loop zero l head = λ _. Run.out_of_rounds
runqueue_length_loop (suc k) l head =
    if head == null
    then pure l
    else do next ← load head (λ t. t.nrp); runqueue_length_loop k ((l + 1) % u32_mod) next

unfoldable pub runqueue_length : Ptr → M ℕ
unfolding runqueue_length_loop
runqueue_length head = runqueue_length_loop rounds 0 head

abbrev pub set_runqueue : Ptr → M (Unit {0})
set_runqueue p = modify (λ s. record s { runqueue = p })

runqueue_add_loop : ℕ → Ptr → Ptr → Ptr → M (Unit {0})
runqueue_add_loop zero task previous iter = λ _. Run.out_of_rounds
runqueue_add_loop (suc k) task previous iter =
    if iter == null then os_assert false else if iter == task then emit Event.warning_add else do
      ours ← load task (λ t. t.priority)
      theirs ← load iter (λ t. t.priority)
      next ← load iter (λ t. t.nrp)
      if ltb theirs ours
          then (do
            set_nrp task iter
            (if previous == null then set_runqueue task else set_nrp previous task)
            osi_priority_check null)
          else if next == null
          then (do set_nrp iter task; osi_priority_check null)
          else runqueue_add_loop k task iter next

unfoldable pub runqueue_add : Ptr → M (Unit {0})
unfolding runqueue_add_loop
runqueue_add task = do
  set_nrp task null
  head ← get (λ s. s.runqueue)
  if head == null then set_runqueue task else (do
    status ← load task (λ t. t.status)
    os_assert (not (status_eq status TaskStatus.wait) && not (status_eq status TaskStatus.finished))
    runqueue_add_loop rounds task null head)

runqueue_remove_loop : ℕ → Ptr → Ptr → Ptr → M (Unit {0})
runqueue_remove_loop zero task previous iter = λ _. Run.out_of_rounds
runqueue_remove_loop (suc k) task previous iter = if iter == null then skip else do
  next ← load iter (λ t. t.nrp)
  if iter == task
      then (do
        head ← get (λ s. s.runqueue)
        (if head == iter then set_runqueue next else set_nrp previous next)
        set_nrp iter null)
      else runqueue_remove_loop k task iter next

unfoldable pub runqueue_remove : Ptr → M (Unit {0})
unfolding runqueue_remove_loop
runqueue_remove task = do head ← get (λ s. s.runqueue); runqueue_remove_loop rounds task null head

runqueue_has_higher_priority_loop : ℕ → Ptr → Ptr → M Bool
runqueue_has_higher_priority_loop zero task iter = λ _. Run.out_of_rounds
runqueue_has_higher_priority_loop (suc k) task iter = if iter == null then pure false else do
  status ← load iter (λ t. t.status)
  theirs ← load iter (λ t. t.priority)
  ours ← load task (λ t. t.priority)
  next ← load iter (λ t. t.nrp)
  if os_task_status_is_running status && ltb ours theirs
      then pure true
      else runqueue_has_higher_priority_loop k task next

unfoldable pub runqueue_has_higher_priority : Ptr → M Bool
unfolding runqueue_has_higher_priority_loop
runqueue_has_higher_priority task = do
  head ← get (λ s. s.runqueue)
  runqueue_has_higher_priority_loop rounds task head
