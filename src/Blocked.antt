-- ===== src/Blocked.antt =====
-- src/utilities.h: the list of the tasks that block on an object, linked by `nblocked`.
-- A function that writes through `blocked` returns the new structure.
pub mod Append
pub mod Remove
use arduino_osh.Base.{ℕ, zero, suc, Bool, true, false, not, ◌==◌, if◌then◌else◌}
use arduino_osh.Types.{Ptr, null, Blocked}
use arduino_osh.Machine.{M, Run, pure, os_assert, load, set_nblocked, rounds, ◌>>=◌, ◌>>◌}

blocked_contains_loop : ℕ → Ptr → Ptr → M Bool
blocked_contains_loop zero task iter = λ _. Run.out_of_rounds
blocked_contains_loop (suc k) task iter =
    if iter == null
    then pure false
    else if iter == task
    then pure true
    else do next ← load iter (λ t. t.nblocked); blocked_contains_loop k task next

unfoldable pub blocked_contains : Blocked → Ptr → M Bool
unfolding blocked_contains_loop
blocked_contains blocked task = blocked_contains_loop rounds task blocked.tasks

blocked_append_loop : ℕ → Ptr → Ptr → M (Unit {0})
blocked_append_loop zero task iter = λ _. Run.out_of_rounds
blocked_append_loop (suc k) task iter = do
  next ← load iter (λ t. t.nblocked)
  os_assert (not (next == task))
  os_assert (not (iter == task))
  if next == null then set_nblocked iter task else blocked_append_loop k task next

unfoldable pub blocked_append : Blocked → Ptr → M Blocked
unfolding blocked_append_loop
blocked_append blocked task = do
  next ← load task (λ t. t.nblocked)
  os_assert (next == null)
  if blocked.tasks == null
      then pure (record blocked { tasks = task })
      else (do blocked_append_loop rounds task blocked.tasks; pure blocked)

blocked_remove_loop : ℕ → Blocked → Ptr → Ptr → Ptr → M (Bool × Blocked)
blocked_remove_loop zero blocked task previous iter = λ _. Run.out_of_rounds
blocked_remove_loop (suc k) blocked task previous iter =
    if iter == null then pure (false, blocked) else do
      next ← load iter (λ t. t.nblocked)
      if iter == task
          then (if previous == null
              then (do set_nblocked task null; pure (true, record blocked { tasks = next }))
              else (do set_nblocked previous next; set_nblocked task null; pure (true, blocked)))
          else blocked_remove_loop k blocked task iter next

unfoldable pub blocked_remove : Blocked → Ptr → M (Bool × Blocked)
unfolding blocked_remove_loop
blocked_remove blocked task = blocked_remove_loop rounds blocked task null blocked.tasks
