-- ===== src/Kernel/Application.antt =====
-- How an application starts the system: `os_initialize`, `os_task_initialize_options` for the idle
-- task and for each other one, and `os_start`.
use arduino_osh.Base.{ℕ, ◌+◌, ◌<◌, ◌≡◌, Bool, true, false, ◌||◌, ◌&&◌, List, [], ◌∷◌, ◌==◌, All}
use arduino_osh.Types.{Ptr, null, StartStatus, TaskOptions, u32_mod}
use arduino_osh.Machine.{M, skip, ◌>>◌}
use arduino_osh.Stack.Writes.{Outside}
use arduino_osh.Stack.Prepared.{IsStackSize}
use arduino_osh.Tasks.{os_initialize, os_task_initialize_options, os_start}

pub record NewTask : Type 0 where
  pub task : Ptr
  pub options : TaskOptions

unfoldable pub initialize_all : List NewTask → M (Unit {0})
initialize_all [] = skip
initialize_all (n ∷ ns) = do os_task_initialize_options n.task n.options; initialize_all ns

unfoldable pub boot : NewTask → List NewTask → M ℕ
unfolding initialize_all
boot first others = do
  os_initialize
  os_task_initialize_options first.task first.options
  initialize_all others
  os_start

-- A task's address, options that `os_task_initialize_options` takes, and a priority over the idle task's.
pub record IsSound (n : NewTask) : Type 0 where
  pub live : (n.task == null) ≡ false
  pub size : IsStackSize n.options.stack_size
  pub handler_fits : n.options.handler < u32_mod
  pub params_fits : n.options.params < u32_mod
  pub above : 0 < n.options.priority

-- Two tasks, with the lowest word of the former's stack outside of the latter's.
pub record Apart (m n : NewTask) : Type 0 where
  pub other : (m.task == n.task) ≡ false
  pub clear : Outside m.options.stack n.options.stack (n.options.stack + n.options.stack_size)

abbrev pub Separate : List NewTask → Type 0
Separate [] = Unit
Separate (n ∷ ns) = All (Apart n) ns × Separate ns

-- The tasks that are to run at once.
abbrev pub begins : StartStatus → Bool
begins StartStatus.running = true
begins StartStatus.suspended = false

abbrev pub begins_in : Ptr → List NewTask → Bool
begins_in a [] = false
begins_in a (n ∷ ns) = ((a == n.task) && begins n.options.status) || begins_in a ns
