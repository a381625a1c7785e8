-- ===== src/Mutex/Waiting.antt =====
-- The tasks that wait for the mutexes of src/mutex.c, in the lists of the mutexes and in the fields of
-- the tasks.
use arduino_osh.Base.{
  ◌<◌, ◌≡◌, sym, ap, ◌∙◌, ◌⊎◌, inl, inr, true, false, List, [], arith, ◌==◌, length, update, has,
  Bool-cases, ==→eq, ==_refl, ==_sym, subst,
}
use arduino_osh.Types.{Mutex, Ptr, null, Os}
use arduino_osh.Machine.{rounds}
use arduino_osh.Chain.{Chain, Chain-frame}
use arduino_osh.Chain.Order.{has-differ}
use arduino_osh.Mutex.Handover.{BlocksOn}

-- A task that blocks on nothing.
pub record Free (s : Os) (a : Ptr) : Type 0 where
  pub mutex : s.task.mutex a ≡ null
  pub nblocked : s.task.nblocked a ≡ null
  pub queue : s.task.queue a ≡ null
  pub semaphore : s.task.semaphore a ≡ null
  pub rwlock : s.task.rwlock a ≡ null

-- The list of each of the mutexes ends, and holds tasks that block on that mutex alone. A task
-- that blocks on nothing is in no list. Nobody waits for a mutex that is free.
pub record Locks (s : Os) (tasks mutexes : List Ptr) (lists : Ptr → List Ptr) : Type 0 where
  pub live : (m : Ptr) → has m mutexes ≡ true → (m == null) ≡ false
  pub chains :
      (m : Ptr) → has m mutexes ≡ true → Chain s.task.nblocked (s.mutex m).blocked.tasks (lists m)
  pub short : (m : Ptr) → has m mutexes ≡ true → length (lists m) < rounds
  pub known : (m a : Ptr) → has m mutexes ≡ true → has a (lists m) ≡ true → has a tasks ≡ true
  pub blocks : (m a : Ptr) → has m mutexes ≡ true → has a (lists m) ≡ true → BlocksOn s a m
  pub loose : (a : Ptr) → has a tasks ≡ true → s.task.flags a ≡ 0 → Free s a
  pub left :
      (m a : Ptr)
      → has m mutexes ≡ true
      → has a tasks ≡ true
      → s.task.mutex a ≡ m
      → has a (lists m) ≡ false
      → s.task.nblocked a ≡ null
  pub held : (m : Ptr) → has m mutexes ≡ true → (s.mutex m).level ≡ 0 → lists m ≡ []

-- A task is in the list of no other mutex than the one in its field.
pub elsewhere :
    (s : Os) (tasks mutexes : List Ptr) (lists : Ptr → List Ptr) (l : Locks s tasks mutexes lists)
    (task m k : Ptr)
    → has k mutexes ≡ true
    → s.task.mutex task ≡ m
    → (m == k) ≡ false
    → has task (lists k) ≡ false
elsewhere s tasks mutexes lists l task m k i own other = elim (Bool-cases (has task (lists k))) [
  | inl h ↦
      let e : k ≡ m = sym ((l.blocks k task i h).waits_for) ∙ own in
      absurd (ground (arith, e, other))
  | inr o ↦ o
]

-- A task that blocks on nothing is in no list.
pub unlisted :
    (s : Os) (tasks mutexes : List Ptr) (lists : Ptr → List Ptr) (l : Locks s tasks mutexes lists)
    (a m : Ptr)
    → has m mutexes ≡ true
    → s.task.flags a ≡ 0
    → has a (lists m) ≡ false
unlisted s tasks mutexes lists l a m here e = elim (Bool-cases (has a (lists m))) [
  | inl h ↦ absurd (omega (arith, sym ((l.blocks m a here h).flags) ∙ e))
  | inr o ↦ o
]

-- A change to the list `xs` of the mutex `m`, that is about one task.
pub record Change (s s' : Os) (tasks : List Ptr) (task m : Ptr) (xs ys : List Ptr) : Type 0 where
  pub chain : Chain s'.task.nblocked (s'.mutex m).blocked.tasks ys
  pub short : length ys < rounds
  pub mutexes : (k : Ptr) → (m == k) ≡ false → s'.mutex k ≡ s.mutex k
  pub nblocked :
      (a : Ptr) → (task == a) ≡ false → has a xs ≡ false → s'.task.nblocked a ≡ s.task.nblocked a
  pub flags : (a : Ptr) → (task == a) ≡ false → s'.task.flags a ≡ s.task.flags a
  pub mutex : (a : Ptr) → (task == a) ≡ false → s'.task.mutex a ≡ s.task.mutex a
  pub queue : s'.task.queue ≡ s.task.queue
  pub semaphore : s'.task.semaphore ≡ s.task.semaphore
  pub rwlock : s'.task.rwlock ≡ s.task.rwlock
  pub others : (a : Ptr) → (task == a) ≡ false → has a ys ≡ has a xs
  pub joins : has task ys ≡ true → (has task tasks ≡ true) × BlocksOn s' task m
  pub leaves : s'.task.flags task ≡ 0 → Free s' task
  pub owner : (s'.task.mutex task ≡ m) ⊎ (s'.task.mutex task ≡ null)
  pub left : has task ys ≡ false → s'.task.mutex task ≡ m → s'.task.nblocked task ≡ null
  pub held : (s'.mutex m).level ≡ 0 → ys ≡ []

BlocksOn-frame :
    (s s' : Os) (tasks : List Ptr) (task m k a : Ptr) (xs ys : List Ptr)
    → Change s s' tasks task m xs ys
    → (task == a) ≡ false
    → BlocksOn s a k
    → BlocksOn s' a k
BlocksOn-frame s s' tasks task m k a xs ys c n b = record {
  flags = c.flags a n ∙ b.flags;
  waits_for = c.mutex a n ∙ b.waits_for;
  queue = rw (c.queue) (b.queue);
  semaphore = rw (c.semaphore) (b.semaphore);
  rwlock = rw (c.rwlock) (b.rwlock);
}

module _ (s s' : Os) (tasks mutexes : List Ptr) (lists : Ptr → List Ptr)
    (l : Locks s tasks mutexes lists) (task m : Ptr) (ys : List Ptr) (here : has m mutexes ≡ true)
    (c : Change s s' tasks task m (lists m) ys)
    (own : (k : Ptr) → has k mutexes ≡ true → (m == k) ≡ false → has task (lists k) ≡ false) where
  apart :
      (a k : Ptr)
      → has k mutexes ≡ true
      → (m == k) ≡ false
      → has a (lists k) ≡ true
      → (task == a) ≡ false
  apart a k i n h = ==_sym task a ∙ has-differ a task (lists k) h (own k i n)

  stays :
      (a k : Ptr)
      → has k mutexes ≡ true
      → (m == k) ≡ false
      → has a (lists k) ≡ true
      → s'.task.nblocked a ≡ s.task.nblocked a
  stays a k i n h =
      c.nblocked a (apart a k i n h) (
        elsewhere s tasks mutexes lists l a k m here ((l.blocks k a i h).waits_for)
          (==_sym k m ∙ n))

  member : (a : Ptr) → has a ys ≡ true → (has a tasks ≡ true) × BlocksOn s' a m
  member a h = elim (Bool-cases (task == a)) [
    | inl e ↦
        let same = ==→eq task a e in
        subst (λ x. (has x tasks ≡ true) × BlocksOn s' x m) same (c.joins (rw same h))
    | inr n ↦
        let i = sym (c.others a n) ∙ h in
        (
          l.known m a here i,
          BlocksOn-frame s s' tasks task m m a (lists m) ys c n (l.blocks m a here i),
        )
  ]

  away_own :
      (k a : Ptr)
      → has k mutexes ≡ true
      → task ≡ a
      → s'.task.mutex a ≡ k
      → has a (update lists m ys k) ≡ false
      → s'.task.nblocked a ≡ null
  away_own k a i same own_mutex out =
      let mine : s'.task.mutex task ≡ k = ap s'.task.mutex same ∙ own_mutex in
      elim (c.owner) [
        | inl e ↦
            let is : m ≡ k = sym e ∙ mine in
            let hit : (m == k) ≡ true = rw is (==_refl k) in
            let absent : has task ys ≡ false = rw same (rw hit at out) in
            ap s'.task.nblocked (sym same) ∙ c.left absent e
        | inr e ↦ let none : k ≡ null = sym mine ∙ e in absurd (ground (arith, none, l.live k i))
      ]

  away :
      (k a : Ptr)
      → has k mutexes ≡ true
      → has a tasks ≡ true
      → s'.task.mutex a ≡ k
      → has a (update lists m ys k) ≡ false
      → s'.task.nblocked a ≡ null
  away k a i j own_mutex out = elim (Bool-cases (task == a)) [
    | inl e ↦ away_own k a i (==→eq task a e) own_mutex out
    | inr n ↦
        let before : s.task.mutex a ≡ k = sym (c.mutex a n) ∙ own_mutex in
        elim (Bool-cases (m == k)) [
          | inl e ↦
              let same : k ≡ m = sym (==→eq m k e) in
              let absent : has a (lists m) ≡ false = sym (c.others a n) ∙ (rw e at out) in
              c.nblocked a n absent ∙ l.left m a here j (before ∙ same) absent
          | inr o ↦
              c.nblocked a n (elsewhere s tasks mutexes lists l a k m here before (==_sym k m ∙ o))
              ∙ l.left k a i j before (rw o at out)
        ]
  ]

  pub Change-Locks : Locks s' tasks mutexes (update lists m ys)
  Change-Locks = record {
    live = l.live;
    chains = λ k i. elim (Bool-cases (m == k)) [
      | inl e ↦ rw (e, sym (==→eq m k e)) (c.chain)
      | inr n ↦
          rw (n, c.mutexes k n)
            (Chain-frame (s.mutex k).blocked.tasks (lists k) (l.chains k i)
              (λ a h. stays a k i n h))
    ];
    short =
        λ k i. elim (Bool-cases (m == k)) [ inl e ↦ rw e (c.short) | inr n ↦ rw n (l.short k i) ];
    known = λ k a i h. elim (Bool-cases (m == k)) [
      | inl e ↦ (member a (rw e at h)).0
      | inr n ↦ l.known k a i (rw n at h)
    ];
    blocks = λ k a i h. elim (Bool-cases (m == k)) [
      | inl e ↦ subst (BlocksOn s' a) (==→eq m k e) ((member a (rw e at h)).1)
      | inr n ↦
          let j = rw n at h in
          BlocksOn-frame s s' tasks task m k a (lists m) ys c (apart a k i n j) (l.blocks k a i j)
    ];
    loose = λ a i e. elim (Bool-cases (task == a)) [
      | inl same ↦
          let eq = ==→eq task a same in
          subst (Free s') eq (c.leaves (subst (λ x. s'.task.flags x ≡ 0) (sym eq) e))
      | inr n ↦
          let none = sym (c.flags a n) ∙ e in
          let f = l.loose a i none in
          record {
            mutex = c.mutex a n ∙ f.mutex;
            nblocked = c.nblocked a n (unlisted s tasks mutexes lists l a m here none) ∙ f.nblocked;
            queue = rw (c.queue) (f.queue);
            semaphore = rw (c.semaphore) (f.semaphore);
            rwlock = rw (c.rwlock) (f.rwlock);
          }
    ];
    left = away;
    held = λ k i e. elim (Bool-cases (m == k)) [
      | inl same ↦ rw same (c.held (subst (λ x. (s'.mutex x).level ≡ 0) (sym (==→eq m k same)) e))
      | inr n ↦ rw n (l.held k i (ap (λ x. x.level) (sym (c.mutexes k n)) ∙ e))
    ];
  }

-- A change of a mutex that leaves its list as it is.
pub Locks-store :
    (s : Os) (tasks mutexes : List Ptr) (lists : Ptr → List Ptr) (m : Ptr)
    → Locks s tasks mutexes lists
    → (v : Mutex) → v.blocked ≡ (s.mutex m).blocked
    → (v.level ≡ 0 → lists m ≡ [])
    → Locks (record s { mutex = update s.mutex m v }) tasks mutexes lists
Locks-store s tasks mutexes lists m l v list none = record {
  live = l.live;
  chains = λ k i. elim (Bool-cases (m == k)) [
    | inl e ↦ rw (e, list, ==→eq m k e) (l.chains k i)
    | inr n ↦ rw n (l.chains k i)
  ];
  short = l.short;
  known = l.known;
  blocks = λ k a i h.
      let b = l.blocks k a i h in
      record {
        flags = b.flags;
        waits_for = b.waits_for;
        queue = b.queue;
        semaphore = b.semaphore;
        rwlock = b.rwlock;
      };
  loose = λ a i e.
      let f = l.loose a i e in
      record {
        mutex = f.mutex;
        nblocked = f.nblocked;
        queue = f.queue;
        semaphore = f.semaphore;
        rwlock = f.rwlock;
      };
  left = l.left;
  held = λ k i e. elim (Bool-cases (m == k)) [
    | inl h ↦ subst (λ x. lists x ≡ []) (==→eq m k h) (none (rw h at e))
    | inr n ↦ l.held k i (rw n at e)
  ];
}
