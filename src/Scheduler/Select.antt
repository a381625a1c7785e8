-- ===== src/Scheduler/Select.antt =====
-- `find_new_task` of src/os.c: the task that is to run next.
use arduino_osh.Base.{ℕ, zero, suc, ◌+◌, not, ◌&&◌, ◌==◌, ltb, if◌then◌else◌}
use arduino_osh.Types.{Ptr, null, os_task_status_is_running}
use arduino_osh.Machine.{M, Run, pure, get, load, when, rounds, ◌>>=◌, ◌>>◌}
use arduino_osh.RunQueue.{osi_priority_check}

-- `OS_RUNQUEUE_NEXT_WRAPPED`.
unfoldable pub runqueue_next_wrapped : Ptr → M Ptr
runqueue_next_wrapped n = do
  next ← load n (λ t. t.nrp)
  if next == null then get (λ s. s.runqueue) else pure next

-- What the loop knows: the task to run, and the first one of lower priority.
pub record Found : Type 0 where
  pub new_task : Ptr
  pub lower_priority : Ptr

abbrev pub or_else : Ptr → Ptr → Ptr
or_else p q = if p == null then q else p

-- The body's update for a task that can run and does not outrank `ours`.
abbrev pub note_task : ℕ → ℕ → Ptr → Found → Found
note_task ours theirs task found =
    if theirs == ours
    then record found { new_task = or_else found.new_task task }
    else record found { lower_priority = or_else found.lower_priority task }

unfoldable pub find_loop : ℕ → Ptr → ℕ → Ptr → Found → M Found
find_loop zero first ours task found = λ _. Run.out_of_rounds
find_loop (suc k) first ours task found = if task == found.lower_priority then pure found else do
  status ← load task (λ t. t.status)
  theirs ← load task (λ t. t.priority)
  if os_task_status_is_running status && ltb ours theirs
      then pure (record found { new_task = task })
      else (do
        next ← runqueue_next_wrapped task
        let found' =
            (if os_task_status_is_running status then note_task ours theirs task found else found)
        if next == first then pure found' else find_loop k first ours next found')

-- The walk passes the end of a queue once, and then goes round the run queue.
unfoldable pub find_new_task : Ptr → M Ptr
find_new_task running = do
  first ← runqueue_next_wrapped running
  ours ← load running (λ t. t.priority)
  found ←
      find_loop (rounds + rounds) first ours first
        (record { new_task = null; lower_priority = null })
  when (not (found.new_task == null)) (osi_priority_check found.new_task)
  status ← load running (λ t. t.status)
  if found.new_task == null
        && not (os_task_status_is_running status)
        && not (found.lower_priority == null)
      then (do osi_priority_check found.lower_priority; pure found.lower_priority)
      else pure found.new_task
