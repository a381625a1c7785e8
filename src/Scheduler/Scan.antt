-- ===== src/Scheduler/Scan.antt =====
-- What a scan of tasks finds: the first of the highest priority, if that is at least `ours`.
use arduino_osh.Base.{
  ℕ, ◌≤◌, ◌<◌, ◌≡◌, refl, sym, ap, ◌∙◌, inl, inr, true, false, List, [], ◌∷◌, ◌++◌, arith, ◌==◌,
  ltb, All, has, Bool-cases, ==→eq, ==→ne,
}
use arduino_osh.Types.{Ptr, null}
use arduino_osh.Scheduler.Select.{Found, note_task}
use arduino_osh.Scheduler.Walk.{scan}

-- `task` is the first of the tasks in `l` with the highest priority among them.
pub record IsFirstOfTop (priority : Ptr → ℕ) (l : List Ptr) (task : Ptr) : Type 0 where
  pub before : List Ptr
  pub after : List Ptr
  pub split : l ≡ before ++ task ∷ after
  pub top : All (λ a. priority a ≤ priority task) l
  pub first : All (λ a. priority a < priority task) before

module _ (priority : Ptr → ℕ) (ours : ℕ) where
  -- With no task above `ours`, a task that was found stays.
  pub scan_low :
      (l : List Ptr) (found : Found)
      → All (λ a. priority a ≤ ours) l
      → (found.new_task == null) ≡ false
      → (scan priority ours l found).new_task ≡ found.new_task
  scan_low [] found low some = refl
  scan_low (x ∷ l) found low some =
      rw below (scan_low l (note_task ours (priority x) x found) low.1 held ∙ same)
    where
      below : ltb ours (priority x) ≡ false
      below = ground (arith, low.0)

      same : (note_task ours (priority x) x found).new_task ≡ found.new_task
      same = ground (arith, some)

      held : ((note_task ours (priority x) x found).new_task == null) ≡ false
      held = rw same some

  -- With every task below `ours`, nothing more is noted.
  pub scan_below :
      (l : List Ptr) (found : Found)
      → All (λ a. priority a < ours) l
      → (found.lower_priority == null) ≡ false
      → scan priority ours l found ≡ found
  scan_below [] found low some = refl
  scan_below (x ∷ l) found low some = simp (below, differ, some) (scan_below l found low.1 some)
    where
      below : ltb ours (priority x) ≡ false
      below = ground (arith, low.0)

      differ : (priority x == ours) ≡ false
      differ = ground (arith, low.0)

  -- The first task above `ours` is found, whatever was found before.
  pub scan_high :
      (low : List Ptr) (h : Ptr) (rest : List Ptr) (found : Found)
      → All (λ a. priority a ≤ ours) low
      → ours < priority h
      → (scan priority ours (low ++ h ∷ rest) found).new_task ≡ h
  scan_high [] h rest found low high = rw above refl
    where
      above : ltb ours (priority h) ≡ true
      above = ground (arith, high)
  scan_high (x ∷ low) h rest found le high =
      rw below (scan_high low h rest (note_task ours (priority x) x found) le.1 high)
    where
      below : ltb ours (priority x) ≡ false
      below = ground (arith, le.0)

  -- With no task above `ours`, the first task at `ours` is found.
  pub scan_level :
      (l : List Ptr) (found : Found) (r : Ptr)
      → All (λ a. priority a ≤ ours) l
      → All (λ a. (a == null) ≡ false) l
      → found.new_task ≡ null
      → has r l ≡ true
      → priority r ≡ ours
      → (before : List Ptr) × (after : List Ptr) × (l
          ≡ before ++ (scan priority ours l found).new_task ∷ after)
        × (priority (scan priority ours l found).new_task ≡ ours)
        × All (λ a. priority a < ours) before
  scan_level [] found r low live none i e = absurd (cc)
  scan_level (x ∷ l) found r low live none i e = elim (Bool-cases (priority x == ours)) [
    | inl level ↦
        let taken : (note_task ours (priority x) x found).new_task ≡ x = simp (level, none) in
        let stays =
          scan_low l (note_task ours (priority x) x found) low.1 (rw taken (live.0)) ∙ taken in
        rw (below, stays) ([], l, refl, ==→eq _ _ level, tt)
    | inr lower ↦
        let still : (note_task ours (priority x) x found).new_task ≡ null = simp (lower, none) in
        let (before, after, split, p, first) =
          scan_level l (note_task ours (priority x) x found) r low.1 live.1 still (later lower) e in
        rw below (
          x ∷ before,
          after,
          ap (λ k. x ∷ k) split,
          p,
          (omega (arith, low.0, ==→ne _ _ lower), first),
        )
  ]
    where
      below : ltb ours (priority x) ≡ false
      below = ground (arith, low.0)

      later : (priority x == ours) ≡ false → has r l ≡ true
      later lower = elim (Bool-cases (r == x)) [
        | inl same ↦ absurd (==→ne _ _ lower (ap priority (sym (==→eq r x same)) ∙ e))
        | inr n ↦ ground (arith, i)
      ]
