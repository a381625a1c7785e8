-- ===== src/Kernel/Grow.antt =====
-- The run queue as an application's tasks join it.
use arduino_osh.Base.{
  ◌+◌, ◌≤◌, ◌<◌, ◌≡◌, refl, ◌∙◌, inl, inr, Bool, true, false, ◌||◌, ◌&&◌, List, [], ◌∷◌, arith,
  ◌==◌, length, All, update, has, Bool-cases,
}
use arduino_osh.Types.{Ptr, StartStatus, Os, u32_mod, oss_success}
use arduino_osh.Machine.{M, ok, rounds}
use arduino_osh.Chain.Order.{has-insert, length-insert, has-differ}
use arduino_osh.Stack.Writes.{Outside}
use arduino_osh.Tasks.{os_task_initialize_options}
use arduino_osh.Kernel.Start.{Initialized}
use arduino_osh.Kernel.Filled.{Joins, placed}
use arduino_osh.Kernel.Prepare.{Joined, running-Joined, suspended-Joined}
use arduino_osh.Kernel.Application.{
  NewTask, initialize_all, IsSound, Apart, Separate, begins, begins_in,
}

with_last : (x y : Bool) → (x || y) ≡ (y || (x && true))
with_last true true = refl
with_last true false = refl
with_last false true = refl
with_last false false = refl

without_last : (x y : Bool) → y ≡ (y || (x && false))
without_last true true = refl
without_last true false = refl
without_last false true = refl
without_last false false = refl

or_none : (x : Bool) → x ≡ (x || false)
or_none true = refl
or_none false = refl

pub or_assoc : (x y z : Bool) → ((x || y) || z) ≡ (x || (y || z))
or_assoc true y z = refl
or_assoc false y z = refl

pub All-both :
    {P Q R : NewTask → Type 0} (ns : List NewTask)
    → ((n : NewTask) → P n → Q n → R n)
    → All P ns
    → All Q ns
    → All R ns
All-both [] f ps qs = tt
All-both (n ∷ ns) f ps qs = (f n ps.0 qs.0, All-both ns f ps.1 qs.1)

-- A new task against those of the run queue.
pub record Stranger (s : Os) (run : List Ptr) (n : NewTask) : Type 0 where
  pub out : has n.task run ≡ false
  pub clear :
      (a : Ptr)
      → has a run ≡ true
      → Outside (s.task.stack a) n.options.stack (n.options.stack + n.options.stack_size)

-- The system with some new tasks in the run queue.
pub record Grown (s : Os) {A : Type 0} (a : A) (r : M A) (run : List Ptr) (more : Ptr → Bool)
    : Type 0 where
  pub after : Os
  pub queue : List Ptr
  pub result : r s ≡ ok a after
  pub initialized : Initialized after queue
  pub least : after.task.priority after.idle ≡ 0
  pub idle : after.idle ≡ s.idle
  pub task_finished : after.task_finished ≡ s.task_finished
  pub members : (b : Ptr) → has b queue ≡ (has b run || more b)

module _ (s : Os) (n : NewTask) (run : List Ptr) (i : Initialized s run) (sound : IsSound n)
    (least : s.task.priority s.idle ≡ 0) (fits : s.task_finished < u32_mod)
    (stranger : Stranger s run n) (room : length run + 1 < rounds) where
  joins : Joins s n.task n.options run
  joins = record {
    takes = record {
      live = sound.live;
      size = sound.size;
      handler_fits = sound.handler_fits;
      params_fits = sound.params_fits;
      finished_fits = fits;
    };
    out = stranger.out;
    above = rw least (sound.above);
    apart = stranger.clear;
  }

  idle_apart : (n.task == s.idle) ≡ false
  idle_apart = ground (arith, has-differ s.idle n.task run i.idle_here stranger.out)

  record One : Type 0 where
    grown :
        Grown s oss_success
          (os_task_initialize_options n.task n.options)
          run
          (λ a. (a == n.task) && begins n.options.status)
    stack : grown.after.task.stack ≡ update s.task.stack n.task n.options.stack
    longer : length grown.queue ≤ length run + 1

  from_joined :
      (queue : List Ptr)
      → Joined s n.task n.options run i joins (omega (arith, room)) queue
      → ((a : Ptr) → has a queue ≡ (has a run || ((a == n.task) && begins n.options.status)))
      → length queue ≤ length run + 1
      → One
  from_joined queue j members longer = record {
    grown = record {
      after = j.after;
      queue = queue;
      result = j.result;
      initialized = j.initialized;
      least = rw (j.priority, j.idle, idle_apart) least;
      idle = j.idle;
      task_finished = j.task_finished;
      members = members;
    };
    stack = j.stack;
    longer = longer;
  }

  one_more : (status : StartStatus) → n.options.status ≡ status → One
  one_more StartStatus.running e =
      from_joined (placed s n.task n.options run)
        (running-Joined s n.task n.options run i joins _ e)
        (λ a. has-insert _ a n.task run ∙ rw e (with_last (a == n.task) (has a run)))
        (omega (arith, length-insert _ n.task run))
  one_more StartStatus.suspended e =
      from_joined run (suspended-Joined s n.task n.options run i joins _ e)
        (λ a. rw e (without_last (a == n.task) (has a run))) (omega arith)

-- A task that is apart from one that has just come, and from those before, is apart from all.
later-Stranger :
    (s after : Os) (run queue : List Ptr) (m n : NewTask)
    → after.task.stack ≡ update s.task.stack m.task m.options.stack
    → ((a : Ptr) → has a queue ≡ (has a run || ((a == m.task) && begins m.options.status)))
    → Apart m n
    → Stranger s run n
    → has m.task run ≡ false
    → Stranger after queue n
later-Stranger s after run queue m n stack members apart stranger new = record {
  out = members n.task ∙ rw (stranger.out, flip) refl;
  clear = λ a h. elim (Bool-cases (m.task == a)) [
    | inl e ↦ rw (stack, e) (apart.clear)
    | inr o ↦ rw (stack, o) (stranger.clear a (old a o h))
  ];
}
  where
    flip : (n.task == m.task) ≡ false
    flip = ground (arith, apart.other)

    old : (a : Ptr) → (m.task == a) ≡ false → has a queue ≡ true → has a run ≡ true
    old a o h = ground (arith, members a, h, o)

pub initialize_all-Grown :
    (s : Os) (ns : List NewTask) (run : List Ptr)
    → Initialized s run
    → s.task.priority s.idle ≡ 0
    → s.task_finished < u32_mod
    → All IsSound ns
    → All (Stranger s run) ns
    → Separate ns
    → length run + length ns < rounds
    → Grown s tt (initialize_all ns) run (λ a. begins_in a ns)
unfolding initialize_all
initialize_all-Grown s [] run i least fits sound strange separate room = record {
  after = s;
  queue = run;
  result = refl;
  initialized = i;
  least = least;
  idle = refl;
  task_finished = refl;
  members = λ b. or_none (has b run);
}
initialize_all-Grown s (n ∷ ns) run i least fits sound strange separate room =
    let one =
      one_more s n run i sound.0 least fits strange.0 (omega (arith, room)) n.options.status refl in
    let first = one.grown in
    let rest =
      initialize_all-Grown first.after ns first.queue first.initialized first.least
        (rw (first.task_finished) fits) sound.1
        (All-both ns
          (λ m apart stranger.
            later-Stranger s first.after run first.queue n m one.stack first.members apart stranger
              strange.0.out)
          separate.0 strange.1)
        separate.1 (omega (arith, room, one.longer)) in
    record {
      after = rest.after;
      queue = rest.queue;
      result = rw (first.result) (rest.result);
      initialized = rest.initialized;
      least = rest.least;
      idle = rest.idle ∙ first.idle;
      task_finished = rest.task_finished ∙ first.task_finished;
      members = λ b. rest.members b ∙ rw (first.members b) (or_assoc (has b run) _ _);
    }
