-- ===== src/Scheduler/Detour.antt =====
-- `find_new_task` of src/os.c for a task that waits with others behind it in the wait queue: the
-- walk goes along them, then to the run queue, and round it until it meets the task of lower
-- priority that it has noted for a second time.
use arduino_osh.Base.{
  ℕ, suc, ◌-◌, ◌≤◌, ◌<◌, ◌+◌, ◌≡◌, refl, ◌∙◌, ap, inl, inr, ◌⊎◌, true, false, ◌&&◌, List, [], ◌∷◌,
  arith, ◌==◌, ltb, length, length-append, All, All-split, has, Distinct, Bool-cases, ==_sym,
  ==_refl, ==→eq, ==→ne, ltb→lt, ltb→le, subst,
}
use arduino_osh.Types.{Ptr, null, Os, Event, os_task_status_is_running}
use arduino_osh.Machine.{ok, rounds}
use arduino_osh.Chain.{Chain, Chain-Distinct}
use arduino_osh.Chain.Order.{Falling, All-map}
use arduino_osh.RunQueue.Check.{osi_priority_check-Traces}
use arduino_osh.Scheduler.Select.{Found, find_loop, find_new_task}
use arduino_osh.Scheduler.Walk.{Steps, Steps-end, wrapped, next_wrapped-wrapped}
use arduino_osh.Scheduler.Turn.{nothing}
use arduino_osh.Scheduler.Past.{
  noted, find_loop_step, find_loop_stop, find_loop_hit, spend, spend-add, find_loop_past,
}
use arduino_osh.Scheduler.Parted.{
  next_apart, wrapped_apart, All-apart, Steps-live, Steps-split, All-PassesOn, noted_level,
  noted_below, Parted, Falling-Parted, Steps-wait, not-has-split, Distinct-around,
}

-- The loop, from the first of the tasks behind the one that asks in the wait queue.
module _ (s : Os) (ours : ℕ) (w : Ptr) (ws : List Ptr) (x : Ptr) (xs : List Ptr)
    (walk : Steps s w (w ∷ ws) x) (single : has w ws ≡ false)
    (asleep : All (λ a. os_task_status_is_running (s.task.status a) ≡ false) (w ∷ ws))
    (round : Steps s x (x ∷ xs) x) (distinct : Distinct (x ∷ xs)) (apart : has w (x ∷ xs) ≡ false)
    (can : All (λ a. os_task_status_is_running (s.task.status a) ≡ true) (x ∷ xs))
    (ranked : Falling s.task.priority (x ∷ xs)) where
  home : (x == w) ≡ false
  home = rw (==_sym x w) (ground (arith, apart))

  out : has w xs ≡ false
  out = ground (arith, apart)

  asleep_quiet :
      (l : List Ptr)
      → All (λ a. os_task_status_is_running (s.task.status a) ≡ false) l
      → All
          (λ a.
            (os_task_status_is_running (s.task.status a) && ltb ours (s.task.priority a)) ≡ false)
          l
        × All (λ a. noted s ours a nothing ≡ nothing) l
  asleep_quiet [] h = (tt, tt)
  asleep_quiet (a ∷ l) h =
      let (quiet, same) = asleep_quiet l h.1 in ((rw h.0 refl, quiet), (rw h.0 refl, same))

  through_wait :
      (k : ℕ) → find_loop (spend (w ∷ ws) k) w ours w nothing s ≡ find_loop k w ours x nothing s
  through_wait k =
      let (quiet, same) = asleep_quiet (w ∷ ws) asleep in
      find_loop_past k s w ours w x (w ∷ ws) nothing walk
        (All-PassesOn s w ours nothing (w ∷ ws) (Steps-live s w x (w ∷ ws) walk) quiet (
          next_apart s (wrapped s w) x w ws walk.2 single home,
          wrapped_apart s (wrapped s w) x w ws walk.2 single home,
        ))
        same

  -- Along a part of the run queue that has no task above `ours`.
  along :
      (k : ℕ) (t z : Ptr) (l : List Ptr) (found : Found)
      → Steps s t l z
      → has w l ≡ false
      → (z == w) ≡ false
      → All (λ a. s.task.priority a ≤ ours) l
      → All (λ a. (a == found.lower_priority) ≡ false) l
      → All (λ a. noted s ours a found ≡ found) l
      → find_loop (spend l k) w ours t found s ≡ find_loop k w ours z found s
  along k t z l found h clear end low differ same =
      find_loop_past k s w ours t z l found h
        (All-PassesOn s w ours found l differ
          (All-map (λ a. s.task.priority a ≤ ours) _ l (λ a i le. ground (arith, le)) low)
          (wrapped_apart s t z w l h clear end))
        same

  -- Along tasks at `ours`, with a task to run found, and along tasks below it, with one noted.
  along_level :
      (k : ℕ) (t z : Ptr) (l : List Ptr) (found : Found)
      → Steps s t l z
      → has w l ≡ false
      → (z == w) ≡ false
      → All (λ a. s.task.priority a ≡ ours) l
      → All (λ a. (a == found.lower_priority) ≡ false) l
      → (found.new_task == null) ≡ false
      → find_loop (spend l k) w ours t found s ≡ find_loop k w ours z found s
  along_level k t z l found h clear end level differ live =
      along k t z l found h clear end
        (All-map (λ a. s.task.priority a ≡ ours) _ l (λ a i q. omega (arith, q)) level) differ
        (All-map (λ a. s.task.priority a ≡ ours) _ l (λ a i q. noted_level s ours a found q live)
          level)

  along_below :
      (k : ℕ) (t : Ptr) (l : List Ptr) (found : Found)
      → Steps s t l x
      → has w l ≡ false
      → All (λ a. s.task.priority a < ours) l
      → has found.lower_priority l ≡ false
      → (found.lower_priority == null) ≡ false
      → find_loop (spend l k) w ours t found s ≡ find_loop k w ours x found s
  along_below k t l found h clear low off live =
      along k t x l found h clear home
        (All-map (λ a. s.task.priority a < ours) _ l (λ a i q. omega (arith, q)) low)
        (All-apart found.lower_priority l off)
        (All-map (λ a. s.task.priority a < ours) _ l (λ a i q. noted_below s ours a found q live)
          low)

  abbrev Answers : Found → Type 0
  Answers found = (found.new_task ≡ x) ⊎ (found ≡ record { new_task = null; lower_priority = x })

  abbrev Finds : ℕ → Type 0
  Finds n = (found : Found) × (find_loop n w ours w nothing s ≡ ok found s) × Answers found

  find_high : (n : ℕ) → length (w ∷ ws) < n → ours < s.task.priority x → Finds n
  find_high n fuel high =
      let k : ℕ = n - length (w ∷ ws) - 1 in
      let e : n ≡ spend (w ∷ ws) (suc k) = omega (arith, spend-add (w ∷ ws) (suc k)) in
      let above : ltb ours (s.task.priority x) ≡ true = ground (arith, high) in
      (
        record { new_task = x; lower_priority = null },
        rw e
            (through_wait (suc k) ∙ find_loop_hit k s w ours x nothing round.1 round.1 can.0 above),
        inl refl,
      )

  find_below :
      (n : ℕ) → length (w ∷ ws) + length (x ∷ xs) + 1 < n → s.task.priority x < ours → Finds n
  find_below n fuel under =
      let k : ℕ = n - length (w ∷ ws) - length (x ∷ xs) - 1 in
      let found : Found = record { new_task = null; lower_priority = x } in
      let e : n ≡ spend (w ∷ ws) (suc (spend xs (suc k))) =
        omega (arith, spend-add (w ∷ ws) (suc (spend xs (suc k))), spend-add xs (suc k)) in
      let low = ranked.0 in
      let differ : (s.task.priority x == ours) ≡ false = ground (arith, under) in
      let first : find_loop (suc (spend xs (suc k))) w ours x nothing s
          ≡ find_loop (spend xs (suc k)) w ours (wrapped s x) found s =
        find_loop_step (spend xs (suc k)) s w ours x nothing round.1
          (round.1, ground (arith, under), next_apart s (wrapped s x) x w xs round.2 out home)
        ∙ simp (can.0, differ) in
      (
        found,
        rw e (
            through_wait (suc (spend xs (suc k)))
            ∙ first
            ∙ along_below (suc k) (wrapped s x) xs found round.2 out
                (All-map (λ a. s.task.priority a ≤ s.task.priority x) _ xs
                  (λ a i le. omega (arith, le, under)) low)
                distinct.0 round.1
            ∙ find_loop_stop k s w ours x found (==_refl x)),
        inr refl,
      )

  -- Behind a head at `ours`, up to the task of lower priority and round to it again.
  find_level :
      (n : ℕ)
      → length (w ∷ ws) + length (x ∷ xs) + length (x ∷ xs) + 1 < n
      → s.task.priority x ≡ ours
      → Parted s.task.priority ours xs
      → Finds n
  find_level n fuel e p =
      let one : Found = record { new_task = x; lower_priority = null } in
      let both : Found = record { new_task = x; lower_priority = p.lower } in
      let (to_lower, live, behind) =
        Steps-split s (wrapped s x) p.lower x p.level p.rest (rw (p.split) at (round.2)) in
      let (can_level, can_lower) =
        All-split _ p.level (p.lower ∷ p.rest) (rw (p.split) at (can.1)) in
      let (out_level, out_lower) =
        not-has-split w p.level (p.lower ∷ p.rest) (rw (p.split) at out) in
      let lower_home : (p.lower == w) ≡ false = rw (==_sym p.lower w) (ground (arith, out_lower)) in
      let (off_level, off_rest) =
        Distinct-around p.level p.lower p.rest (rw (p.split) at (distinct.1)) in
      let off_x = (not-has-split x p.level (p.lower ∷ p.rest) (rw (p.split) at (distinct.0))).1 in
      let k : ℕ = n - length (w ∷ ws) - length xs - length p.level - 3 in
      let size : length xs ≡ length p.level + suc (length p.rest) =
        rw (p.split) (length-append p.level (p.lower ∷ p.rest)) in
      let third : ℕ = spend (x ∷ p.level) (suc k) in
      let second : ℕ = suc (spend p.rest third) in
      let turns : n ≡ spend (w ∷ ws) (spend (x ∷ p.level) second) = omega (
        arith,
        size,
        fuel,
        spend-add (w ∷ ws) (spend (x ∷ p.level) second),
        spend-add (x ∷ p.level) second,
        spend-add p.rest third,
        spend-add (x ∷ p.level) (suc k),
      ) in
      let start : find_loop (spend (x ∷ p.level) second) w ours x nothing s
          ≡ find_loop (spend p.level second) w ours (wrapped s x) one s =
        find_loop_step (spend p.level second) s w ours x nothing round.1
          (round.1, ground (arith, e), next_apart s (wrapped s x) x w xs round.2 out home)
        ∙ simp (can.0, e, ==_refl) in
      let differ : (s.task.priority p.lower == ours) ≡ false = ground (arith, p.below) in
      let note : find_loop second w ours p.lower one s
          ≡ find_loop (spend p.rest third) w ours (wrapped s p.lower) both s =
        find_loop_step (spend p.rest third) s w ours p.lower one live (
          live,
          ground (arith, p.below),
          next_apart s (wrapped s p.lower) x w p.rest behind (ground (arith, out_lower)) home,
        )
        ∙ simp (can_lower.0, differ) in
      (
        both,
        rw turns (
            through_wait (spend (x ∷ p.level) second)
            ∙ start
            ∙ along_level second (wrapped s x) p.lower p.level one to_lower out_level lower_home
                p.at_ours (Steps-live s (wrapped s x) p.lower p.level to_lower) round.1
            ∙ note
            ∙ along_below third (wrapped s p.lower) p.rest both behind (ground (arith, out_lower))
                p.all_below off_rest live
            ∙ along_level (suc k) x p.lower (x ∷ p.level) both (refl, round.1, to_lower)
                (ground (arith, home, out_level, apart)) lower_home (e, p.at_ours)
                (All-apart p.lower (x ∷ p.level)
                  (rw (==_sym p.lower x) (ground (arith, off_x, off_level))))
                round.1
            ∙ find_loop_stop k s w ours p.lower both (==_refl p.lower)),
        inl refl,
      )

  find_loop_detour :
      (n : ℕ) (r : Ptr)
      → length (w ∷ ws) + length (x ∷ xs) + length (x ∷ xs) + 1 < n
      → has r (x ∷ xs) ≡ true
      → s.task.priority r < ours
      → Finds n
  find_loop_detour n r fuel i under = elim (Bool-cases (s.task.priority x == ours)) [
    | inl level ↦
        let e = ==→eq (s.task.priority x) ours level in
        let behind : has r xs ≡ true = elim (Bool-cases (r == x)) [
          | inl same ↦ absurd (omega (arith, under, e, ap s.task.priority (==→eq r x same)))
          | inr other ↦ ground (arith, i, other)
        ] in
        let low =
          All-map (λ a. s.task.priority a ≤ s.task.priority x) _ xs (λ a j le. omega (arith, le, e))
            ranked.0 in
        find_level n fuel e (Falling-Parted s.task.priority ours xs r ranked.1 low behind under)
    | inr apart_from ↦ elim (Bool-cases (ltb ours (s.task.priority x))) [
      | inl high ↦ find_high n (omega (arith, fuel)) (ltb→lt _ _ high)
      | inr low ↦
          find_below n (omega (arith, fuel)) (omega (arith, ltb→le _ _ low, ==→ne _ _ apart_from))
    ]
  ]

-- Let a task wait, with others behind it in the wait queue, and let the run queue hold a task of
-- lower priority than it. Then `find_new_task` for it returns, changes at most the trace, and
-- answers the head of the run queue.
pub find_new_task_detour :
    (s : Os) (running w : Ptr) (ws : List Ptr) (x : Ptr) (xs : List Ptr) (r : Ptr)
    → (running == null) ≡ false
    → os_task_status_is_running (s.task.status running) ≡ false
    → Chain s.task.nrp (s.task.nrp running) (w ∷ ws)
    → All (λ a. os_task_status_is_running (s.task.status a) ≡ false) (w ∷ ws)
    → Chain s.task.nrp s.runqueue (x ∷ xs)
    → All (λ a. os_task_status_is_running (s.task.status a) ≡ true) (x ∷ xs)
    → Falling s.task.priority (x ∷ xs)
    → has w (x ∷ xs) ≡ false
    → length (w ∷ ws) + length (x ∷ xs) < rounds
    → has r (x ∷ xs) ≡ true
    → s.task.priority r < s.task.priority running
    → (trace : List Event) × (find_new_task running s ≡ ok x (record s { trace = trace }))
unfolding find_new_task
find_new_task_detour s running w ws x xs r here rests behind asleep c can ranked apart fuel i
      under =
    let e : s.runqueue ≡ x = c.0 in
    let first : wrapped s running ≡ w = rw (behind.0, behind.1) refl in
    let walk : Steps s w (w ∷ ws) x =
      subst (λ h. Steps s w (w ∷ ws) h) e (Steps-wait s running w ws behind) in
    let round : Steps s x (x ∷ xs) x =
      subst (λ h. Steps s x (x ∷ xs) h) e (refl, c.1, Steps-end s x xs c.2) in
    let d = Chain-Distinct s.task.nrp _ (w ∷ ws) behind in
    let (found, loop, answers) =
      find_loop_detour s (s.task.priority running) w ws x xs walk d.0 asleep round
        (Chain-Distinct s.task.nrp s.runqueue (x ∷ xs) c) apart can ranked (rounds + rounds) r
        (omega (arith, fuel)) i under in
    let check = osi_priority_check-Traces s x (x ∷ xs) (omega (arith, fuel)) c in
    let live : (x == null) ≡ false = c.1 in
    (
      check.trace,
      elim answers [
        | inl new ↦
            simp (next_wrapped-wrapped s running here, first, here, loop, new, live, check.result)
        | inr low ↦
            simp (
              next_wrapped-wrapped s running here,
              first,
              here,
              loop,
              low,
              live,
              rests,
              check.result,
            )
      ],
    )
