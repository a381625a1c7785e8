-- ===== src/Kernel/Dispatch.antt =====
-- `osi_dispatch` of src/os.c to a task of a running system, which leaves a switch under way.
use arduino_osh.Base.{
  ℕ, ◌≤◌, ◌<◌, ◌≡◌, refl, sym, ap, ◌∙◌, ◌⊎◌, inl, inr, Bool, true, false, List, [], ◌∷◌, arith,
  ◌==◌, All, All-has, has, Distinct, update, Bool-cases, subst, ==→eq, ==→ne, ==_refl,
}
use arduino_osh.Types.{Ptr, null, wait, OsState, Os, Event, os_task_status_is_running, oss_success}
use arduino_osh.Machine.{ok}
use arduino_osh.Chain.{Chain-Distinct, erase}
use arduino_osh.Scheduler.{osi_dispatch}
use arduino_osh.Scheduler.Frame.{Kept, Kept-trans}
use arduino_osh.Scheduler.Invariant.{Queues}
use arduino_osh.Scheduler.Turn.{Chain-live}
use arduino_osh.Scheduler.Switch.{osi_dispatch-Dispatched, Queues-frame}
use arduino_osh.Kernel.Objects.{Objects, Objects-Untouched, Blocks, nothing, one, Blocks-Beside}
use arduino_osh.Mutex.Handover.{BlocksOn}
use arduino_osh.Mutex.Detach.{detach-Comes}
use arduino_osh.Scheduler.Leave.{osi_dispatch-detach}
use arduino_osh.Kernel.Settled.{In, Fit, Pending}

pub Fit-Kept : (s t : Os) (a : Ptr) → Kept s t → Fit s a → Fit t a
Fit-Kept s t a k f = record {
  above = rw (k.idle, k.priority) (f.above);
  bounded = rw (k.stack, k.sp) (f.bounded);
  magic = rw (k.memory, k.stack) (f.magic);
}

pub Kept-same : (s t : Os) (trace : List Event) → Kept s t → Kept s (record t { trace = trace })
Kept-same s t trace k = record {
  running = k.running;
  idle = k.idle;
  state = k.state;
  uptime = k.uptime;
  memory = k.memory;
  priority = k.priority;
  stack = k.stack;
  sp = k.sp;
}

pub Kept-pend : (s t : Os) (pended : Bool) → Kept s t → Kept s (record t { pendsv = pended })
Kept-pend s t pended k = record {
  running = k.running;
  idle = k.idle;
  state = k.state;
  uptime = k.uptime;
  memory = k.memory;
  priority = k.priority;
  stack = k.stack;
  sp = k.sp;
}

-- The idle task is of the highest priority only when it is alone.
idle_alone :
    (key : Ptr → ℕ) (i : Ptr) (run : List Ptr)
    → Distinct run
    → has i run ≡ true
    → ((a : Ptr) → has a run ≡ true → (a ≡ i) ⊎ (key i < key a))
    → All (λ a. key a ≤ key i) run
    → run ≡ i ∷ []
idle_alone key i [] d here above low = absurd (cc)
idle_alone key i (x ∷ []) d here above low = ap (λ a. a ∷ []) (same (above x (rw ==_refl refl)))
  where
    same : (x ≡ i) ⊎ (key i < key x) → x ≡ i
    same (inl e) = e
    same (inr lt) = absurd (omega (arith, lt, low.0))
idle_alone key i (x ∷ y ∷ l) d here above low =
    absurd (clash (both x (rw ==_refl refl) low.0) (both y (rw ==_refl (ground arith)) low.1.0))
  where
    both : (a : Ptr) → has a (x ∷ y ∷ l) ≡ true → key a ≤ key i → a ≡ i
    both a h le = elim (above a h) [ inl e ↦ e | inr lt ↦ absurd (omega (arith, lt, le)) ]

    clash : x ≡ i → y ≡ i → ⊥
    clash e f = let apart : (x == y) ≡ false = ground (arith, d.0) in ==→ne x y apart (e ∙ sym f)

-- What a dispatch needs, apart from the queues.
pub record Ready (mutexes : List Ptr) (s : Os) (run waiting : List Ptr) (x : Ptr) : Type 0 where
  pub begun : s.state ≡ OsState.started
  pub live : (s.running == null) ≡ false
  pub other : (s.running == x) ≡ false
  pub left : In s.running run waiting
  pub status :
      (s.task.status s.running ≡ wait)
      ⊎ (os_task_status_is_running (s.task.status s.running) ≡ true)
  pub here : has x run ≡ true
  pub top : All (λ a. s.task.priority a ≤ s.task.priority x) run
  pub idle_here : has s.idle run ≡ true
  pub fit : (a : Ptr) → In a run waiting → Fit s a
  pub objects : Objects mutexes s run waiting

pub record Dispatches (mutexes : List Ptr) (s : Os) (run waiting : List Ptr) (x : Ptr)
    : Type 0 where
  pub after : Os
  pub result : osi_dispatch x s ≡ ok oss_success after
  pub pending : Pending mutexes after run waiting
  pub kept : Kept s after
  pub scheduled : after.scheduled ≡ x
  pub delays : (a : Ptr) → (a == x) ≡ false → after.task.delay a ≡ s.task.delay a

dispatch_free :
    (mutexes : List Ptr) (s : Os) (run waiting : List Ptr) (x : Ptr)
    → Queues s run waiting
    → Ready mutexes s run waiting x
    → s.task.flags x ≡ 0
    → Dispatches mutexes s run waiting x
dispatch_free mutexes s run waiting x q r free =
    let live_x : (x == null) ≡ false =
      All-has (λ a. (a == null) ≡ false) x run
        (Chain-live s.task.nrp s.runqueue run q.lists.run_chain) r.here in
    let own : (a : Ptr) → has a run ≡ true → In a run waiting = λ a i. ground (arith, i) in
    let d =
      osi_dispatch-Dispatched s x run waiting q live_x r.live r.other r.here free r.status
        (alone own) in
    record {
      after = d.after;
      result = d.result;
      pending = record {
        queues = d.queues;
        begun = d.kept.state ∙ r.begun;
        live = rw (d.kept.running) (r.live);
        live_next = rw (d.scheduled) live_x;
        other = rw (d.scheduled, d.kept.running) (r.other);
        left = rw (d.kept.running) (r.left);
        here = rw (d.scheduled) (r.here);
        now_active = rw (d.scheduled) (d.now_active);
        top = rw (d.scheduled, d.kept.priority) (r.top);
        idle_here = rw (d.kept.idle) (r.idle_here);
        fit = λ a i. Fit-Kept s d.after a d.kept (r.fit a i);
        objects =
            Objects-Untouched mutexes s d.after run waiting run waiting d.untouched (λ a i. i)
              r.objects;
        free = rw (d.scheduled) (d.untouched.flags x ∙ free);
      };
      kept = d.kept;
      scheduled = d.scheduled;
      delays = d.delays;
    }
  where
    alone :
        ((a : Ptr) → has a run ≡ true → In a run waiting) → ((x == s.idle) ≡ false) ⊎ (run ≡ x ∷ [])
    alone own = elim (Bool-cases (x == s.idle)) [
      | inr n ↦ inl n
      | inl e ↦
          let same : x ≡ s.idle = ==→eq x s.idle e in
          inr (
            idle_alone s.task.priority s.idle run
              (Chain-Distinct s.task.nrp s.runqueue run q.lists.run_chain) r.idle_here
              (λ a i. (r.fit a (own a i)).above)
              (subst (λ y. All (λ a. s.task.priority a ≤ s.task.priority y) run) same r.top)
            ∙ ap (λ y. y ∷ []) (sym same))
    ]

-- A task that blocks on a mutex comes off it.
dispatch_blocked :
    (mutexes : List Ptr) (s : Os) (run waiting : List Ptr) (x m : Ptr)
    → Queues s run waiting
    → Ready mutexes s run waiting x
    → has m mutexes ≡ true
    → BlocksOn s x m
    → Dispatches mutexes s run waiting x
dispatch_blocked mutexes s run waiting x m q r here b =
    let live_x : (x == null) ≡ false =
      All-has (λ a. (a == null) ≡ false) x run
        (Chain-live s.task.nrp s.runqueue run q.lists.run_chain) r.here in
    let o = r.objects in
    let own : In x run waiting = let h = r.here in ground (arith, h) in
    let c = detach-Comes s o.tasks mutexes o.lists x m o.locks here b live_x (o.covers x own) in
    let d = c.detaches in
    let s1 = d.after in
    let q1 =
      Queues-frame s s1 run waiting d.nrp d.status d.priority d.delay d.runqueue d.waitqueue q in
    let from =
      dispatch_free mutexes s1 run waiting x q1
        (record {
          begun = c.kept.state ∙ r.begun;
          live = rw (c.kept.running) (r.live);
          other = rw (c.kept.running) (r.other);
          left = rw (c.kept.running) (r.left);
          status = rw (c.kept.running, d.status) (r.status);
          here = r.here;
          top = rw (c.kept.priority) (r.top);
          idle_here = rw (c.kept.idle) (r.idle_here);
          fit = λ a i. Fit-Kept s s1 a c.kept (r.fit a i);
          objects = record {
            tasks = o.tasks;
            lists = update o.lists m (erase x (o.lists m));
            locks = c.locks;
            covers = o.covers;
            blocks = λ a i. elim (Bool-cases (x == a)) [
              | inl e ↦ subst (Blocks mutexes s1) (==→eq x a e) (nothing c.flags)
              | inr n ↦ Blocks-Beside mutexes s s1 x a c.beside n (o.blocks a i)
            ];
          };
        })
        c.flags in
    record {
      after = from.after;
      result = osi_dispatch-detach s x d live_x r.live r.other c.flags ∙ from.result;
      pending = from.pending;
      kept = Kept-trans s s1 from.after c.kept from.kept;
      scheduled = from.scheduled;
      delays = λ a n. from.delays a n ∙ ap (λ g. g a) d.delay;
    }

pub osi_dispatch-Pending :
    (mutexes : List Ptr) (s : Os) (run waiting : List Ptr) (x : Ptr)
    → Queues s run waiting
    → Ready mutexes s run waiting x
    → Dispatches mutexes s run waiting x
osi_dispatch-Pending mutexes s run waiting x q r =
    by_cases (r.objects.blocks x (let h = r.here in ground (arith, h)))
  where
    by_cases : Blocks mutexes s x → Dispatches mutexes s run waiting x
    by_cases (nothing e) = dispatch_free mutexes s run waiting x q r e
    by_cases (one m i b) = dispatch_blocked mutexes s run waiting x m q r i b
