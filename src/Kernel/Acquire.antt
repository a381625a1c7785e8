-- ===== src/Kernel/Acquire.antt =====
-- A call of `osi_mutex_acquire` of src/mutex.c in the running system.
use arduino_osh.Base.{
  ℕ, ◌+◌, ◌%◌, ◌≡◌, refl, sym, ap, ◌∙◌, ◌⊎◌, inl, inr, true, false, List, [], ◌∷◌, ◌++◌, arith,
  ◌==◌, All-has, update, has, Bool-cases, ==→eq, ==_refl, subst, if◌then◌else◌,
}
use arduino_osh.Types.{Mutex, Ptr, null, Os, oss_success, oss_error_to, u16_mod, u32_max}
use arduino_osh.Machine.{ok}
use arduino_osh.Scheduler.Turn.{Chain-live}
use arduino_osh.Scheduler.Switch.{Queues-frame, Queues-same}
use arduino_osh.Mutex.{osi_mutex_acquire}
use arduino_osh.Mutex.Waiting.{Locks-store}
use arduino_osh.Mutex.Acquire.{Joins, osi_mutex_acquire-Joins}
use arduino_osh.Kernel.{Registers, one_word, perform}
use arduino_osh.Scheduler.Frame.{Kept-trans}
use arduino_osh.Kernel.Dispatch.{Fit-Kept}
use arduino_osh.Kernel.Objects.{Blocks, nothing, one, Blocks-Beside}
use arduino_osh.Kernel.Settled.{Settled, Begun, Fits-Kept}
use arduino_osh.Kernel.Switch.{pendsv_handler_none, svc_handler-Served}
use arduino_osh.Kernel.Stay.{svc_handler-Stays}
use arduino_osh.Kernel.Asleep.{InTime}
use arduino_osh.Kernel.Delay.{svc_delay-Delayed, wait_behind}
use arduino_osh.Kernel.Asks.{Acquires, gets, refused, waits, IsOthers, MayAcquire}

module _ (mutexes : List Ptr) (s : Os) (m to : ℕ) (cpu : Registers) (run waiting : List Ptr)
    (d : Settled mutexes s run waiting) (may : MayAcquire mutexes s m to cpu) where
  live : (s.running == null) ≡ false
  live =
      All-has (λ a. (a == null) ≡ false) s.running run
        (Chain-live s.task.nrp s.runqueue run d.queues.lists.run_chain) d.here

  live_m : (m == null) ≡ false
  live_m = d.objects.locks.live m may.known

  own : has s.running d.objects.tasks ≡ true
  own = d.objects.covers s.running (let h = d.here in ground (arith, h))

  none : s.task.mutex s.running ≡ null
  none = (d.objects.locks.loose s.running own d.free).mutex

  -- The mutex comes to have the caller for its owner.
  abbrev taken : ℕ → Os
  taken level = record s {
    mutex = update s.mutex m (record (s.mutex m) { owner = s.running; level = level });
  }

  taken-Settled : (level : ℕ) → (level == 0) ≡ false → Settled mutexes (taken level) run waiting
  taken-Settled level some = record {
    queues = Queues-same s (taken level) run waiting refl refl refl d.queues;
    none = d.none;
    begun = d.begun;
    here = d.here;
    now_active = d.now_active;
    top = d.top;
    idle_here = d.idle_here;
    fit = λ a i.
        let f = d.fit a i in record { above = f.above; bounded = f.bounded; magic = f.magic };
    objects =
        let o = d.objects in
        record {
          tasks = o.tasks;
          lists = o.lists;
          locks =
              Locks-store s o.tasks mutexes o.lists m o.locks
                (record (s.mutex m) { owner = s.running; level = level }) refl
                (λ e. absurd (ground (arith, e, some)));
          covers = o.covers;
          blocks = λ a i. kept-Blocks level a (o.blocks a i);
        };
    free = d.free;
  }
    where
      kept-Blocks : (level : ℕ) (a : Ptr) → Blocks mutexes s a → Blocks mutexes (taken level) a
      kept-Blocks level a (nothing e) = nothing e
      kept-Blocks level a (one k i b) = one k i (record {
        flags = b.flags;
        waits_for = b.waits_for;
        queue = b.queue;
        semaphore = b.semaphore;
        rwlock = b.rwlock;
      })

  acquire_gets :
      (level : ℕ)
      → level ≡ (s.mutex m).level + 1
      → (((s.mutex m).level ≡ 0) ⊎ ((s.mutex m).owner ≡ s.running))
      → osi_mutex_acquire m to s ≡ ok oss_success (taken level)
      → Acquires mutexes s m to cpu run waiting
  unfolding perform
  acquire_gets level e why called =
      let some : (level == 0) ≡ false = ground (arith, e) in
      let st =
        svc_handler-Stays mutexes s (taken level) (one_word cpu (osi_mutex_acquire m to))
          (record { status = oss_success; value = cpu.r 1 }) cpu run waiting (simp called)
          (taken-Settled level some)
          (let f = may.fits in record { deep = f.deep; bounded = f.bounded; clear = f.clear }) in
      gets st.after (simp (st.result) (pendsv_handler_none cpu st.after st.settled.none)) st.settled
        st.running (ap (λ x. (x m).owner) st.mutexes_kept ∙ rw ==_refl refl)
        (ap (λ x. (x m).level) st.mutexes_kept ∙ rw ==_refl e) why st.answer

  acquire_again :
      ((s.mutex m).level == 0) ≡ false
      → ((s.mutex m).owner == s.running) ≡ true
      → Acquires mutexes s m to cpu run waiting
  unfolding osi_mutex_acquire
  acquire_again locked ours =
      let level = (s.mutex m).level in
      let fits : (level + 1) % u16_mod ≡ level + 1 = omega (arith, may.fits_level) in
      let small : (level == u32_max) ≡ false = ground (arith, may.fits_level) in
      let mine : (s.mutex m).owner ≡ s.running = ==→eq (s.mutex m).owner s.running ours in
      let counted : ℕ → Mutex = λ o. record (s.mutex m) { owner = o; level = level + 1 } in
      let called : osi_mutex_acquire m to s
          ≡ ok oss_success (record s { mutex = update s.mutex m (counted (s.mutex m).owner) }) =
        simp (live, live_m, none, locked, ours, small, fits) in
      acquire_gets (level + 1) refl (inr mine)
        (called ∙ ap (λ o. ok oss_success (record s { mutex = update s.mutex m (counted o) })) mine)

  acquire_refused :
      to ≡ 0
      → ((s.mutex m).level == 0) ≡ false
      → ((s.mutex m).owner == s.running) ≡ false
      → Acquires mutexes s m to cpu run waiting
  unfolding perform osi_mutex_acquire
  acquire_refused now locked other =
      let called : osi_mutex_acquire m to s ≡ ok oss_error_to s =
        simp (live, live_m, none, locked, other, now) in
      let st =
        svc_handler-Stays mutexes s s (one_word cpu (osi_mutex_acquire m to))
          (record { status = oss_error_to; value = cpu.r 1 }) cpu run waiting (simp called) d
          may.fits in
      refused st.after (simp (st.result) (pendsv_handler_none cpu st.after st.settled.none))
        st.settled st.running st.mutexes_kept (locked, other) now st.answer

  module _ (j : Joins s d.objects.tasks mutexes d.objects.lists m to) where
    joined-Begun : Begun mutexes j.after run waiting
    joined-Begun = record {
      queues =
          Queues-frame s j.after run waiting j.nrp j.status j.kept.priority j.delay j.runqueue
            j.waitqueue d.queues;
      none = j.scheduled ∙ d.none;
      begun = j.kept.state ∙ d.begun;
      here = rw (j.kept.running) (d.here);
      now_active = rw (j.kept.running, j.status) (d.now_active);
      idle_here = rw (j.kept.idle) (d.idle_here);
      fit = λ a i. Fit-Kept s j.after a j.kept (d.fit a i);
      objects = record {
        tasks = d.objects.tasks;
        lists = update d.objects.lists m (d.objects.lists m ++ s.running ∷ []);
        locks = j.locks;
        covers = d.objects.covers;
        blocks = λ a i. elim (Bool-cases (s.running == a)) [
          | inl e ↦ subst (Blocks mutexes j.after) (==→eq s.running a e) (one m may.known j.blocks)
          | inr n ↦ Blocks-Beside mutexes s j.after s.running a j.beside n (d.objects.blocks a i)
        ];
      };
    }

    InTime-joined : InTime s to → InTime j.after to
    InTime-joined (inl never) = inl never
    InTime-joined (inr (some, small)) = inr (some, rw (j.kept.uptime) small)

    acquire_waits :
        InTime s to → (to == 0) ≡ false → IsOthers s m → Acquires mutexes s m to cpu run waiting
    unfolding perform
    acquire_waits time patient others =
        let busy : (j.after.running == j.after.idle) ≡ false =
          rw (j.kept.running, j.kept.idle) (may.busy) in
        let k =
          svc_delay-Delayed mutexes j.after to run waiting joined-Begun busy (InTime-joined time) in
        let called : osi_mutex_acquire m to s ≡ ok oss_error_to k.after =
          j.result ∙ simp (k.result) in
        let kept = Kept-trans s j.after k.after j.kept k.kept in
        let sw =
          svc_handler-Served mutexes s k.after (one_word cpu (osi_mutex_acquire m to))
            (record { status = oss_error_to; value = cpu.r 1 }) cpu _ _ (simp called) k.pending
            (Fits-Kept s k.after cpu kept may.fits) in
        waits sw.after _ _ (simp (sw.result) (pendsv_handler_none cpu sw.after sw.settled.none))
          sw.settled
          (ap (λ a. has a (wait_behind j.after to waiting)) (sym j.kept.running) ∙ k.sleeps)
          (ap sw.after.task.delay (sym j.kept.running)
            ∙ ap (λ g. g j.after.running) sw.delays
            ∙ k.until
            ∙ ap (λ u. if to == u32_max then u32_max else u + to) j.kept.uptime)
          others patient sw.answer

-- In a settled system the running task, which is not the idle task, asks for one of the mutexes, one
-- that it may hold already, with no time to wait, for ever, or for some time that ends before the clock is at
-- its largest number. One more level fits, the list of the mutex has room, and the registers have their place
-- in the caller's stack. The service call returns, with the context switch behind it, and leaves the
-- system settled. If the mutex is free or the caller's, the caller runs on, owns it with one level more,
-- and finds success in R0. If it is another task's and the caller gives it no time, the caller runs on, no mutex
-- changes, and the status of a timeout is in R0. Otherwise the caller moves to the wait queue, until
-- the time it has asked for, with the status of a timeout in R0.
pub acquire-Acquires :
    (mutexes : List Ptr) (s : Os) (m to : ℕ) (cpu : Registers) (run waiting : List Ptr)
    → Settled mutexes s run waiting
    → MayAcquire mutexes s m to cpu
    → Acquires mutexes s m to cpu run waiting
unfolding osi_mutex_acquire
acquire-Acquires mutexes s m to cpu run waiting d may =
    let here = live mutexes s m to cpu run waiting d may in
    let here_m = live_m mutexes s m to cpu run waiting d may in
    let free = none mutexes s m to cpu run waiting d may in
    elim (Bool-cases ((s.mutex m).level == 0)) [
      | inl unlocked ↦
          acquire_gets mutexes s m to cpu run waiting d may 1
            (omega (arith, ==→eq (s.mutex m).level 0 unlocked))
            (inl (==→eq (s.mutex m).level 0 unlocked)) (simp (here, here_m, free, unlocked))
      | inr locked ↦ elim (Bool-cases ((s.mutex m).owner == s.running)) [
        | inl ours ↦ acquire_again mutexes s m to cpu run waiting d may locked ours
        | inr other ↦ elim (Bool-cases (to == 0)) [
          | inl now ↦
              acquire_refused mutexes s m to cpu run waiting d may (==→eq to 0 now) locked other
          | inr patient ↦
              let o = d.objects in
              let j =
                osi_mutex_acquire-Joins s o.tasks mutexes o.lists m to o.locks may.known
                  (own mutexes s m to cpu run waiting d may) here d.free locked other patient
                  (may.room (o.lists m) (o.locks.chains m may.known)) in
              acquire_waits mutexes s m to cpu run waiting d may j (in_time may.time patient)
                patient (locked, other)
        ]
      ]
    ]
  where
    in_time : (to ≡ 0) ⊎ InTime s to → (to == 0) ≡ false → InTime s to
    in_time (inl e) n = absurd (ground (arith, e, n))
    in_time (inr t) n = t
