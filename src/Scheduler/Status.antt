-- ===== src/Scheduler/Status.antt =====
-- `osi_task_status_set` of src/os.c: a task changes its status, and with it its queue.
use arduino_osh.Base.{◌==◌, if◌then◌else◌}
use arduino_osh.Types.{
  Ptr, null, TaskStatus, idle, active, wait, suspended, finished, panic, aborted, status_code,
  status_eq, Event,
}
use arduino_osh.Machine.{M, ok, pure, skip, load, set_status, emit, when, ◌>>=◌, ◌>>◌}
use arduino_osh.Base.{ℕ}
use arduino_osh.RunQueue.{runqueue_add, runqueue_remove}
use arduino_osh.WaitQueue.{waitqueue_add, waitqueue_remove}

-- `osg.status_hook(task, old_status)`, if there is a hook.
abbrev pub call_hook : Ptr → TaskStatus → M (Unit {0})
call_hook task old_status s =
    if s.status_hook == null then ok tt s else emit (Event.hook task old_status) s

-- The queue moves of `osi_task_status_set`, by the new status.
unfoldable pub requeue : Ptr → TaskStatus → TaskStatus → M (Unit {0})
requeue task old_status wait = do runqueue_remove task; waitqueue_add task
requeue task old_status finished = runqueue_remove task
requeue task old_status panic = runqueue_remove task
requeue task old_status aborted = runqueue_remove task
requeue task old_status suspended = do waitqueue_remove task; runqueue_remove task
requeue task old_status idle = do
  when (status_eq old_status wait) (waitqueue_remove task)
  runqueue_add task
requeue task old_status active = skip

-- `OS_LOCK` masks interrupts on SAMD51, and is empty elsewhere; the runs here are not interrupted.
unfoldable pub osi_task_status_set : Ptr → TaskStatus → M ℕ
osi_task_status_set task new_status = do
  old_status ← load task (λ t. t.status)
  set_status task new_status
  requeue task old_status new_status
  call_hook task old_status
  pure (status_code new_status)
