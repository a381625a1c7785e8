-- ===== src/Kernel/Filled.antt =====
-- A task as `os_task_initialize_options` of src/os.c fills it in, for a system that is to start.
use arduino_osh.Base.{
  ℕ, ◌+◌, ◌%◌, ◌<◌, ◌≡◌, refl, true, false, List, [], ◌∷◌, arith, ◌==◌, ltb, update, has, ==_refl,
}
use arduino_osh.Types.{Ptr, null, Os, TaskOptions, u8_mod, u32_mod}
use arduino_osh.Chain.{insert}
use arduino_osh.Chain.Order.{Falling, All-map, has-differ}
use arduino_osh.Stack.{frame_address}
use arduino_osh.Stack.Writes.{Outside}
use arduino_osh.Stack.Prepared.{IsStackSize, Prepared, initialize_stack-Prepared}
use arduino_osh.Tasks.{fill_task}
use arduino_osh.Kernel.Objects.{Unblocked}

-- The assignments to `*task`, its stack and its place in the list of tasks.
abbrev pub filled : Os → Ptr → TaskOptions → (ℕ → ℕ) → Os
filled s task options memory = record s {
  memory = memory;
  tasks = task;
  ntasks = (s.ntasks + 1) % u8_mod;
  task = record (fill_task task options s.uptime s.task) {
    sp = update (update s.task.sp task null) task (frame_address options.stack options.stack_size);
    np = update s.task.np task s.tasks;
  };
}

-- Options that `os_task_initialize_options` takes for a task: the stack is large enough and the
-- handler, its parameter and `task_finished` have 32-bit addresses.
pub record Takes (s : Os) (task : Ptr) (options : TaskOptions) : Type 0 where
  pub live : (task == null) ≡ false
  pub size : IsStackSize options.stack_size
  pub handler_fits : options.handler < u32_mod
  pub params_fits : options.params < u32_mod
  pub finished_fits : s.task_finished < u32_mod

pub prepared :
    (s : Os) (task : Ptr) (options : TaskOptions)
    → Takes s task options
    → Prepared
        (record s { task = fill_task task options s.uptime s.task })
        task
        options.stack
        options.stack_size
unfolding fill_task
prepared s task options t =
    initialize_stack-Prepared _ task options.stack options.stack_size t.live t.size
      (rw ==_refl (t.handler_fits)) (rw ==_refl (t.params_fits)) (t.finished_fits)

-- The new task blocks on nothing.
pub filled-Unblocked :
    (s : Os) (task : Ptr) (options : TaskOptions) (memory : ℕ → ℕ)
    → Unblocked (filled s task options memory) task
unfolding fill_task
filled-Unblocked s task options memory = record {
  flags = rw ==_refl refl;
  mutex = rw ==_refl refl;
  nblocked = rw ==_refl refl;
  queue = rw ==_refl refl;
  semaphore = rw ==_refl refl;
  rwlock = rw ==_refl refl;
}

-- A task of the run queue is another than the new one.
pub others-same :
    {A : Type 0} (f : Ptr → A) (task : Ptr) (v : A) (run : List Ptr) (a : Ptr)
    → has task run ≡ false
    → has a run ≡ true
    → update f task v a ≡ f a
others-same f task v run a out i = rw (flip) refl
  where
    flip : (task == a) ≡ false
    flip = ground (arith, has-differ a task run i out)

pub Falling-same :
    (key key' : Ptr → ℕ) (xs : List Ptr)
    → ((a : Ptr) → has a xs ≡ true → key' a ≡ key a)
    → Falling key xs
    → Falling key' xs
Falling-same key key' [] same h = tt
Falling-same key key' (x ∷ xs) same h = (
  All-map _ _ xs (λ a i l. rw (same a (ground (arith, i)), same x (ground arith)) l) h.0,
  Falling-same key key' xs (λ a i. same a (ground (arith, i))) h.1,
)

-- The run queue with the new task, behind those of at least its priority.
abbrev pub placed : Os → Ptr → TaskOptions → List Ptr → List Ptr
placed s task options run =
    let priority = update s.task.priority task options.priority in
    insert (λ x. ltb (priority x) (priority task)) task run

-- What a new task asks of a system with an idle task.
pub record Joins (s : Os) (task : Ptr) (options : TaskOptions) (run : List Ptr) : Type 0 where
  pub takes : Takes s task options
  pub out : has task run ≡ false
  pub above : s.task.priority s.idle < options.priority
  pub apart :
      (a : Ptr)
      → has a run ≡ true
      → Outside (s.task.stack a) options.stack (options.stack + options.stack_size)
