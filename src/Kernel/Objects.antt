-- ===== src/Kernel/Objects.antt =====
-- What the tasks of a running system block on: mutexes of src/mutex.c, or nothing.
use arduino_osh.Base.{◌≡◌, sym, ap, ◌∙◌, true, false, ◌||◌, List, [], arith, ◌==◌, has}
use arduino_osh.Types.{Ptr, null, Os}
use arduino_osh.Scheduler.Frame.{Untouched}
use arduino_osh.Mutex.Handover.{BlocksOn}
use arduino_osh.Mutex.Detach.{Beside}
use arduino_osh.Mutex.Waiting.{Locks}

abbrev pub In : Ptr → List Ptr → List Ptr → Type 0
In a run waiting = (has a run || has a waiting) ≡ true

-- A task blocks on nothing, or on one of the mutexes.
pub data Blocks (mutexes : List Ptr) (s : Os) (a : Ptr) : Type 0 where
  nothing : s.task.flags a ≡ 0 → Blocks mutexes s a
  one : (m : Ptr) → has m mutexes ≡ true → BlocksOn s a m → Blocks mutexes s a

-- The lists of the mutexes are in step with the fields of the tasks, and every task of the queues
-- blocks on nothing or on one of the mutexes.
pub record Objects (mutexes : List Ptr) (s : Os) (run waiting : List Ptr) : Type 0 where
  pub tasks : List Ptr
  pub lists : Ptr → List Ptr
  pub locks : Locks s tasks mutexes lists
  pub covers : (a : Ptr) → In a run waiting → has a tasks ≡ true
  pub blocks : (a : Ptr) → In a run waiting → Blocks mutexes s a

pub BlocksOn-Untouched : (s t : Os) (a m : Ptr) → Untouched s t → BlocksOn s a m → BlocksOn t a m
BlocksOn-Untouched s t a m u b = record {
  flags = u.flags a ∙ b.flags;
  waits_for = rw (u.mutex) (b.waits_for);
  queue = rw (u.queue) (b.queue);
  semaphore = rw (u.semaphore) (b.semaphore);
  rwlock = rw (u.rwlock) (b.rwlock);
}

Locks-Untouched :
    (s t : Os) (tasks mutexes : List Ptr) (lists : Ptr → List Ptr)
    → Untouched s t
    → Locks s tasks mutexes lists
    → Locks t tasks mutexes lists
Locks-Untouched s t tasks mutexes lists u l = record {
  live = l.live;
  chains = λ m i. rw (u.nblocked, u.mutexes) (l.chains m i);
  short = l.short;
  known = l.known;
  blocks = λ m a i h. BlocksOn-Untouched s t a m u (l.blocks m a i h);
  loose = λ a i e.
      let f = l.loose a i (sym (u.flags a) ∙ e) in
      record {
        mutex = rw (u.mutex) (f.mutex);
        nblocked = rw (u.nblocked) (f.nblocked);
        queue = rw (u.queue) (f.queue);
        semaphore = rw (u.semaphore) (f.semaphore);
        rwlock = rw (u.rwlock) (f.rwlock);
      };
  left = λ m a i j e o. rw (u.nblocked) (l.left m a i j (sym (ap (λ f. f a) u.mutex) ∙ e) o);
  held = λ m i e. l.held m i (sym (ap (λ f. (f m).level) u.mutexes) ∙ e);
}

Blocks-Untouched :
    (mutexes : List Ptr) (s t : Os) (a : Ptr)
    → Untouched s t
    → Blocks mutexes s a
    → Blocks mutexes t a
Blocks-Untouched mutexes s t a u (nothing e) = nothing (u.flags a ∙ e)
Blocks-Untouched mutexes s t a u (one m i b) = one m i (BlocksOn-Untouched s t a m u b)

pub Blocks-Beside :
    (mutexes : List Ptr) (s t : Os) (x a : Ptr)
    → Beside s t x
    → (x == a) ≡ false
    → Blocks mutexes s a
    → Blocks mutexes t a
Blocks-Beside mutexes s t x a c n (nothing e) = nothing (c.flags a n ∙ e)
Blocks-Beside mutexes s t x a c n (one m i b) = one m i (record {
  flags = c.flags a n ∙ b.flags;
  waits_for = c.mutex a n ∙ b.waits_for;
  queue = rw (c.queue) (b.queue);
  semaphore = rw (c.semaphore) (b.semaphore);
  rwlock = rw (c.rwlock) (b.rwlock);
})

-- The queues may lose tasks, and the rest of the state may change.
pub Objects-Untouched :
    (mutexes : List Ptr) (s t : Os) (run waiting run' waiting' : List Ptr)
    → Untouched s t
    → ((a : Ptr) → In a run' waiting' → In a run waiting)
    → Objects mutexes s run waiting
    → Objects mutexes t run' waiting'
Objects-Untouched mutexes s t run waiting run' waiting' u from o = record {
  tasks = o.tasks;
  lists = o.lists;
  locks = Locks-Untouched s t o.tasks mutexes o.lists u o.locks;
  covers = λ a i. o.covers a (from a i);
  blocks = λ a i. Blocks-Untouched mutexes s t a u (o.blocks a (from a i));
}

-- Nothing else of the state is read.
pub Objects-same :
    (mutexes : List Ptr) (s t : Os) (run waiting : List Ptr)
    → t.task.flags ≡ s.task.flags
    → t.task.nblocked ≡ s.task.nblocked
    → t.task.mutex ≡ s.task.mutex
    → t.task.queue ≡ s.task.queue
    → t.task.semaphore ≡ s.task.semaphore
    → t.task.rwlock ≡ s.task.rwlock
    → t.mutex ≡ s.mutex
    → Objects mutexes s run waiting
    → Objects mutexes t run waiting
Objects-same mutexes s t run waiting f n m q x w k =
    Objects-Untouched mutexes s t run waiting run waiting
      (record {
        flags = λ a. ap (λ g. g a) f;
        nblocked = n;
        mutex = m;
        queue = q;
        semaphore = x;
        rwlock = w;
        mutexes = k;
      })
      (λ a i. i)

-- A task that blocks on nothing, in any of the fields that say so.
pub record Unblocked (s : Os) (a : Ptr) : Type 0 where
  pub flags : s.task.flags a ≡ 0
  pub mutex : s.task.mutex a ≡ null
  pub nblocked : s.task.nblocked a ≡ null
  pub queue : s.task.queue a ≡ null
  pub semaphore : s.task.semaphore a ≡ null
  pub rwlock : s.task.rwlock a ≡ null

-- Where no task blocks, and there are no mutexes yet.
pub none-Objects :
    (s : Os) (run : List Ptr) → ((a : Ptr) → In a run [] → Unblocked s a) → Objects [] s run []
none-Objects s run free = record {
  tasks = run;
  lists = λ _. [];
  locks = record {
    live = λ m i. absurd (cc);
    chains = λ m i. absurd (cc);
    short = λ m i. absurd (cc);
    known = λ m a i h. absurd (cc);
    blocks = λ m a i h. absurd (cc);
    loose = λ a i e.
        let f = free a (ground (arith, i)) in
        record {
          mutex = f.mutex;
          nblocked = f.nblocked;
          queue = f.queue;
          semaphore = f.semaphore;
          rwlock = f.rwlock;
        };
    left = λ m a i j e o. absurd (cc);
    held = λ m i e. absurd (cc);
  };
  covers = λ a i. ground (arith, i);
  blocks = λ a i. nothing ((free a i).flags);
}
