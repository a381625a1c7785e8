-- ===== src/WaitQueue.antt =====
-- The wait queue of src/os.c: tasks that sleep or block, by rising `delay`, linked by `nrp` from
-- `osg.waitqueue`. Every caller passes `&osg.waitqueue` for `head`.
pub mod Add
pub mod Cycles
pub mod Remove
use arduino_osh.Base.{ℕ, zero, suc, Bool, true, false, not, ◌==◌, ltb, if◌then◌else◌}
use arduino_osh.Types.{Ptr, null}
use arduino_osh.Machine.{
  M, Run, pure, skip, get, modify, os_assert, load, set_nrp, rounds, ◌>>=◌, ◌>>◌,
}

-- The slow and the fast walk of `has_cycles`.
has_cycles_loop : ℕ → Ptr → Ptr → M Bool
has_cycles_loop zero slow fast = λ _. Run.out_of_rounds
has_cycles_loop (suc k) slow fast = do
  s ← load slow (λ t. t.nrp)
  one ← load fast (λ t. t.nrp)
  if one == null then pure false else do
    f ← load one (λ t. t.nrp)
    if s == null
        then pure false
        else if f == null
        then pure false
        else if s == f
        then pure true
        else has_cycles_loop k s f

unfoldable pub has_cycles : Ptr → M Bool
unfolding has_cycles_loop
has_cycles head = if head == null then pure false else has_cycles_loop rounds head head

abbrev pub set_waitqueue : Ptr → M (Unit {0})
set_waitqueue p = modify (λ s. record s { waitqueue = p })

waitqueue_add_loop : ℕ → Ptr → Ptr → Ptr → M (Unit {0})
waitqueue_add_loop zero task previous iter = λ _. Run.out_of_rounds
waitqueue_add_loop (suc k) task previous iter = if iter == null then os_assert false else do
  os_assert (not (iter == task))
  ours ← load task (λ t. t.delay)
  theirs ← load iter (λ t. t.delay)
  next ← load iter (λ t. t.nrp)
  if ltb ours theirs
      then (do
        set_nrp task iter
        if previous == null then set_waitqueue task else set_nrp previous task)
      else if next == null
      then (do
        set_nrp iter task
        head ← get (λ s. s.waitqueue)
        cycles ← has_cycles head
        os_assert (not cycles))
      else waitqueue_add_loop k task iter next

unfoldable pub waitqueue_add : Ptr → M (Unit {0})
unfolding waitqueue_add_loop
waitqueue_add task = do
  set_nrp task null
  head ← get (λ s. s.waitqueue)
  if head == null then set_waitqueue task else waitqueue_add_loop rounds task null head

waitqueue_remove_loop : ℕ → Ptr → Ptr → Ptr → M (Unit {0})
waitqueue_remove_loop zero task previous iter = λ _. Run.out_of_rounds
waitqueue_remove_loop (suc k) task previous iter = if iter == null then skip else do
  next ← load iter (λ t. t.nrp)
  if iter == task
      then (do
        head ← get (λ s. s.waitqueue)
        (if head == iter then set_waitqueue next else set_nrp previous next)
        set_nrp iter null)
      else waitqueue_remove_loop k task iter next

unfoldable pub waitqueue_remove : Ptr → M (Unit {0})
unfolding waitqueue_remove_loop
waitqueue_remove task = do
  head ← get (λ s. s.waitqueue)
  waitqueue_remove_loop rounds task null head
