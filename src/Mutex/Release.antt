-- ===== src/Mutex/Release.antt =====
-- What `osi_mutex_release` of src/mutex.c does to the lists of the mutexes.
use arduino_osh.Base.{
  ◌%◌, ◌+◌, ◌-◌, ◌<◌, ◌≡◌, refl, ap, inl, inr, true, false, List, [], ◌∷◌, arith, ◌==◌, ltb, length,
  update, update-update, has, Bool-cases, ==_refl, ==_sym, ltb→lt, subst,
}
use arduino_osh.Types.{Ptr, null, Mutex, Os, oss_success, u32_mod}
use arduino_osh.Machine.{ok, pure, with_tasks, ◌>>◌}
use arduino_osh.Chain.{Chain, Chain-Distinct, Chain-update}
use arduino_osh.Scheduler.{osi_dispatch_or_queue}
use arduino_osh.Stack.{word, return_regs, osi_task_set_stacked_return, osi_task_return_regs}
use arduino_osh.Mutex.Defs.{blocked_deq, hand_over, osi_mutex_release}
use arduino_osh.Mutex.Handover.{BlocksOn}
use arduino_osh.Mutex.Waiting.{Locks, Locks-store, Change-Locks, elsewhere}

-- What the lists are behind a release, and what is left to do: nothing, if the caller keeps the
-- mutex or nobody waits for it; otherwise to let the new owner run.
pub data Releases (s : Os) (tasks mutexes : List Ptr) (lists : Ptr → List Ptr) (m : Ptr)
    : Type 0 where
  keeps :
      (after : Os)
      → osi_mutex_release m s ≡ ok oss_success after
      → 1 < (s.mutex m).level
      → (after.mutex m).level + 1 ≡ (s.mutex m).level
      → (after.mutex m).owner ≡ s.running
      → Locks after tasks mutexes lists
      → Releases s tasks mutexes lists m
  frees :
      (after : Os)
      → osi_mutex_release m s ≡ ok oss_success after
      → (s.mutex m).level ≡ 1
      → (after.mutex m).level ≡ 0
      → (after.mutex m).owner ≡ null
      → lists m ≡ []
      → Locks after tasks mutexes lists
      → Releases s tasks mutexes lists m
  hands_over :
      (after : Os) (task : Ptr) (rest : List Ptr)
      → osi_mutex_release m s ≡ (osi_dispatch_or_queue task >> pure oss_success) after
      → (s.mutex m).level ≡ 1
      → lists m ≡ task ∷ rest
      → (after.mutex m).level ≡ 1
      → (after.mutex m).owner ≡ task
      → BlocksOn after task m
      → Locks after tasks mutexes (update lists m rest)
      → Releases s tasks mutexes lists m

module _ (s : Os) (tasks mutexes : List Ptr) (lists : Ptr → List Ptr) (m : Ptr)
    (l : Locks s tasks mutexes lists) (here : has m mutexes ≡ true)
    (live : (s.running == null) ≡ false) (owns : (s.mutex m).owner ≡ s.running) where
  live_m : (m == null) ≡ false
  live_m = l.live m here

  release_hands_over :
      (task : Ptr) (rest : List Ptr)
      → s.task.mutex s.running ≡ null
      → (s.mutex m).level ≡ 1
      → lists m ≡ task ∷ rest
      → Releases s tasks mutexes lists m
  unfolding osi_mutex_release hand_over blocked_deq osi_task_set_stacked_return osi_task_return_regs
  release_hands_over task rest none once split =
      let c : Chain s.task.nblocked (s.mutex m).blocked.tasks (task ∷ rest) =
        subst (Chain s.task.nblocked (s.mutex m).blocked.tasks) split (l.chains m here) in
      let out : has task rest ≡ false = (Chain-Distinct s.task.nblocked _ (task ∷ rest) c).0 in
      let listed : has task (lists m) ≡ true = rw (split, ==_refl) refl in
      let b = l.blocks m task here listed in
      let slot = word (return_regs s.arch (s.task.sp task) (s.task.stack_kind task)) 0 in
      let after : Os = record s {
        mutex = update s.mutex m (record (s.mutex m) {
          blocked = with_tasks (s.mutex m).blocked (s.task.nblocked task);
          owner = task;
          level = 1;
        });
        task = record (s.task) { nblocked = update s.task.nblocked task null };
        memory = update s.memory slot (oss_success % u32_mod);
      } in
      let still : BlocksOn after task m = record {
        flags = b.flags;
        waits_for = b.waits_for;
        queue = b.queue;
        semaphore = b.semaphore;
        rwlock = b.rwlock;
      } in
      hands_over after task rest
        (simp (live_m, once, owns, live, none, c.0, c.1, b.waits_for, ==_refl, update-update)) once
        split (rw ==_refl refl) (rw ==_refl refl) still
        (Change-Locks s after tasks mutexes lists l task m rest here
          (record {
            chain = rw ==_refl (Chain-update s.task.nblocked _ task null rest c.2 out);
            short = omega (arith, l.short m here, ap length split);
            mutexes = λ k n. rw n refl;
            nblocked = λ a n o. rw n refl;
            flags = λ a n. refl;
            mutex = λ a n. refl;
            queue = refl;
            semaphore = refl;
            rwlock = refl;
            others = λ a n. rw (split, ==_sym a task, n) refl;
            joins = λ h. absurd (ground (arith, h, out));
            leaves = λ e. absurd (ground (arith, e, b.flags));
            owner = inl (b.waits_for);
            left = λ o e. rw ==_refl refl;
            held = λ e. absurd (ground (arith, rw ==_refl at e));
          })
          (λ k i n. elsewhere s tasks mutexes lists l task m k i b.waits_for n))

  release_keeps : 1 < (s.mutex m).level → Releases s tasks mutexes lists m
  unfolding osi_mutex_release
  release_keeps deep =
      let v : Mutex = record (s.mutex m) { level = (s.mutex m).level - 1 } in
      let positive : ltb 0 (s.mutex m).level ≡ true = ground (arith, deep) in
      let more : ((s.mutex m).level - 1 == 0) ≡ false = ground (arith, deep) in
      keeps (record s { mutex = update s.mutex m v }) (simp (live_m, positive, owns, more, ==_refl))
        deep (rw ==_refl (omega (arith, deep))) (rw ==_refl owns)
        (Locks-store s tasks mutexes lists m l v refl (λ e. absurd (omega (arith, e, deep))))

  release_frees :
      s.task.mutex s.running ≡ null
      → (s.mutex m).level ≡ 1
      → lists m ≡ []
      → Releases s tasks mutexes lists m
  unfolding osi_mutex_release hand_over
  release_frees none once empty =
      let v : Mutex = record (s.mutex m) { level = 0; owner = null } in
      let c : (s.mutex m).blocked.tasks ≡ null =
        subst (Chain s.task.nblocked (s.mutex m).blocked.tasks) empty (l.chains m here) in
      frees (record s { mutex = update s.mutex m v })
        (simp (live_m, once, owns, live, none, c, ==_refl, update-update)) once (rw ==_refl refl)
        (rw ==_refl refl) empty (Locks-store s tasks mutexes lists m l v refl (λ e. empty))

-- In a system where the lists of the mutexes and the fields of the tasks are in step, the running task, which owns a mutex and
-- waits for none, releases it. Held more than once, the mutex stays the task's with one level less. Held once
-- and with nobody waiting, it comes to have no owner. Held once, with tasks waiting, it is the first
-- one's, which has left the list, and what is left to do is to let that task run. Each time the
-- lists and the fields are in step again.
pub osi_mutex_release-Releases :
    (s : Os) (tasks mutexes : List Ptr) (lists : Ptr → List Ptr) (m : Ptr)
    → Locks s tasks mutexes lists
    → has m mutexes ≡ true
    → (s.running == null) ≡ false
    → (s.mutex m).owner ≡ s.running
    → s.task.mutex s.running ≡ null
    → 0 < (s.mutex m).level
    → Releases s tasks mutexes lists m
osi_mutex_release-Releases s tasks mutexes lists m l here live owns none locked =
    elim (Bool-cases (ltb 1 (s.mutex m).level)) [
      | inl deep ↦ release_keeps s tasks mutexes lists m l here live owns (ltb→lt 1 _ deep)
      | inr shallow ↦
          let once : (s.mutex m).level ≡ 1 = ground (arith, locked, shallow) in
          last (lists m) once refl
    ]
  where
    last : (xs : List Ptr) → (s.mutex m).level ≡ 1 → lists m ≡ xs → Releases s tasks mutexes lists m
    last [] once e = release_frees s tasks mutexes lists m l here live owns none once e
    last (task ∷ rest) once e =
        release_hands_over s tasks mutexes lists m l here live owns task rest none once e
