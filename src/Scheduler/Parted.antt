-- ===== src/Scheduler/Parted.antt =====
-- Lists of tasks on the walk of `find_new_task` of src/os.c: where the walk is not, what it notes no
-- more, and a queue by falling priority around one priority.
use arduino_osh.Base.{
  ℕ, ◌≤◌, ◌<◌, ◌≡◌, refl, sym, ◌∙◌, ap, inl, inr, true, false, ◌&&◌, ◌||◌, List, [], ◌∷◌, ◌++◌,
  arith, ◌==◌, ltb, All, has, has-append, Distinct, Bool-cases, ==_sym, ==_refl, ==→eq, ==→ne,
}
use arduino_osh.Types.{Ptr, null, Os, os_task_status_is_running}
use arduino_osh.Chain.{Chain}
use arduino_osh.Chain.Order.{Falling, All-map}
use arduino_osh.Scheduler.Select.{Found}
use arduino_osh.Scheduler.Walk.{Steps, Steps-end, wrapped}
use arduino_osh.Scheduler.Past.{noted, PassesOn}

-- Where the walk is not.
pub next_apart :
    (s : Os) (p z w : Ptr) (l : List Ptr)
    → Steps s p l z
    → has w l ≡ false
    → (z == w) ≡ false
    → (p == w) ≡ false
next_apart s p z w [] e out end = rw e end
next_apart s p z w (x ∷ l) h out end = rw (h.0, ==_sym x w) (ground (arith, out))

pub wrapped_apart :
    (s : Os) (p z w : Ptr) (l : List Ptr)
    → Steps s p l z
    → has w l ≡ false
    → (z == w) ≡ false
    → All (λ x. (wrapped s x == w) ≡ false) l
wrapped_apart s p z w [] h out end = tt
wrapped_apart s p z w (x ∷ l) h out end =
    let rest : has w l ≡ false = ground (arith, out) in
    (
      next_apart s (wrapped s x) z w l h.2 rest end,
      wrapped_apart s (wrapped s x) z w l h.2 rest end,
    )

pub All-apart : (a : Ptr) (l : List Ptr) → has a l ≡ false → All (λ x. (x == a) ≡ false) l
All-apart a [] out = tt
All-apart a (x ∷ l) out =
    (rw (==_sym x a) (ground (arith, out)), All-apart a l (ground (arith, out)))

pub Steps-live :
    (s : Os) (t z : Ptr) (l : List Ptr) → Steps s t l z → All (λ x. (x == null) ≡ false) l
Steps-live s t z [] h = tt
Steps-live s t z (x ∷ l) h = (h.1, Steps-live s (wrapped s x) z l h.2)

pub Steps-split :
    (s : Os) (t y z : Ptr) (l k : List Ptr)
    → Steps s t (l ++ y ∷ k) z
    → Steps s t l y × ((y == null) ≡ false) × Steps s (wrapped s y) k z
Steps-split s t y z [] k h = h
Steps-split s t y z (x ∷ l) k h =
    let (first, live, rest) = Steps-split s (wrapped s x) y z l k h.2 in
    ((h.0, h.1, first), live, rest)

pub All-PassesOn :
    (s : Os) (first : Ptr) (ours : ℕ) (found : Found) (l : List Ptr)
    → All (λ x. (x == found.lower_priority) ≡ false) l
    → All
        (λ x. (os_task_status_is_running (s.task.status x) && ltb ours (s.task.priority x)) ≡ false)
        l
    → All (λ x. (wrapped s x == first) ≡ false) l
    → All (PassesOn s first ours found) l
All-PassesOn s first ours found [] a b c = tt
All-PassesOn s first ours found (x ∷ l) a b c =
    ((a.0, b.0, c.0), All-PassesOn s first ours found l a.1 b.1 c.1)

-- Nothing more is noted of a task at the caller's priority once there is a new task, and of one
-- below it once there is a task of lower priority.
pub noted_level :
    (s : Os) (ours : ℕ) (x : Ptr) (found : Found)
    → s.task.priority x ≡ ours
    → (found.new_task == null) ≡ false
    → noted s ours x found ≡ found
noted_level s ours x found e live =
    elim (Bool-cases (os_task_status_is_running (s.task.status x))) [
      | inl can ↦ simp (can, e, ==_refl, live)
      | inr cannot ↦ simp cannot
    ]

pub noted_below :
    (s : Os) (ours : ℕ) (x : Ptr) (found : Found)
    → s.task.priority x < ours
    → (found.lower_priority == null) ≡ false
    → noted s ours x found ≡ found
noted_below s ours x found lt live =
    let differ : (s.task.priority x == ours) ≡ false = ground (arith, lt) in
    elim (Bool-cases (os_task_status_is_running (s.task.status x))) [
      | inl can ↦ simp (can, differ, live)
      | inr cannot ↦ simp cannot
    ]

-- A falling list, none above `ours` and one below: those at `ours`, then one below, then the rest.
pub record Parted (key : Ptr → ℕ) (ours : ℕ) (l : List Ptr) : Type 0 where
  pub level : List Ptr
  pub lower : Ptr
  pub rest : List Ptr
  pub split : l ≡ level ++ lower ∷ rest
  pub at_ours : All (λ a. key a ≡ ours) level
  pub below : key lower < ours
  pub all_below : All (λ a. key a < ours) rest

pub Falling-Parted :
    (key : Ptr → ℕ) (ours : ℕ) (l : List Ptr) (r : Ptr)
    → Falling key l
    → All (λ a. key a ≤ ours) l
    → has r l ≡ true
    → key r < ours
    → Parted key ours l
Falling-Parted key ours [] r f low i lt = absurd (cc)
Falling-Parted key ours (x ∷ l) r f low i lt = elim (Bool-cases (key x == ours)) [
  | inl e ↦
      let p = Falling-Parted key ours l r f.1 low.1 (later e) lt in
      record {
        level = x ∷ p.level;
        lower = p.lower;
        rest = p.rest;
        split = ap (λ k. x ∷ k) p.split;
        at_ours = (==→eq _ _ e, p.at_ours);
        below = p.below;
        all_below = p.all_below;
      }
  | inr n ↦
      let under : key x < ours = omega (arith, low.0, ==→ne _ _ n) in
      record {
        level = [];
        lower = x;
        rest = l;
        split = refl;
        at_ours = tt;
        below = under;
        all_below = All-map _ _ l (λ a j le. omega (arith, le, under)) f.0;
      }
]
  where
    later : (key x == ours) ≡ true → has r l ≡ true
    later e = elim (Bool-cases (r == x)) [
      | inl same ↦ absurd (omega (arith, lt, ap key (==→eq r x same), ==→eq (key x) ours e))
      | inr n ↦ ground (arith, i)
    ]

pub Steps-wait :
    (s : Os) (p w : Ptr) (ws : List Ptr)
    → Chain s.task.nrp (s.task.nrp p) (w ∷ ws)
    → Steps s w (w ∷ ws) s.runqueue
Steps-wait s p w ws c = (refl, c.1, Steps-end s w ws c.2)

-- Around a member of a list without repetition.
pub not-has-split :
    (a : Ptr) (l k : List Ptr) → has a (l ++ k) ≡ false → (has a l ≡ false) × (has a k ≡ false)
not-has-split a l k o =
    let e : (has a l || has a k) ≡ false = sym (has-append a l k) ∙ o in
    (ground (arith, e), ground (arith, e))

pub Distinct-around :
    (l : List Ptr) (y : Ptr) (k : List Ptr)
    → Distinct (l ++ y ∷ k)
    → (has y l ≡ false) × (has y k ≡ false)
Distinct-around [] y k d = (refl, d.0)
Distinct-around (x ∷ l) y k d =
    let (before, after) = Distinct-around l y k d.1 in
    let (other, here) = not-has-split x l (y ∷ k) d.0 in
    (rw (==_sym y x) (ground (arith, before, here)), after)
