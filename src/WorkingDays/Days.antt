-- ===== src/WorkingDays/Days.antt =====
-- stock_working_days/stock_working_days.py: `_schedule_days`, with openerp's `get_next_day`,
-- `get_previous_day` and `get_working_intervals_of_day` as parameters.
use odoo_addons.Base.{
  ℕ, zero, suc, ◌≡◌, refl, ap, Bool, true, false, not, ◌||◌, List, [], ◌∷◌, ◌++◌, keep, take,
  if◌then◌else◌, Bool-cases, inl, inr,
}
use odoo_addons.Base.Int.{ℤ, pos, negsuc}

module _ {A : Type 0} (next previous : ℕ → ℕ) (has_calendar : Bool)
    (intervals_of_day : ℕ → List A) where
  abbrev pub some_interval : List A → Bool
  some_interval [] = false
  some_interval (x ∷ xs) = true

  -- `id is None or working_intervals`
  abbrev pub is_worked : ℕ → Bool
  is_worked day = not has_calendar || some_interval (intervals_of_day day)

  abbrev pub step : Bool → ℕ → ℕ
  step backwards day = if backwards then previous day else next day

  -- The `while` loop: the first number counts the rounds that are left of the thousand, the
  -- second the days that are still to be planned.
  pub schedule_loop : ℕ → Bool → ℕ → ℕ → List A
  schedule_loop zero backwards days day = []
  schedule_loop (suc rounds) backwards zero day = []
  schedule_loop (suc rounds) backwards (suc days) day =
      let planned = schedule_loop rounds backwards days (step backwards day) in
      let skipped = schedule_loop rounds backwards (suc days) (step backwards day) in
      if is_worked day then intervals_of_day day ++ planned else skipped

  -- `_schedule_days`
  pub schedule_days : ℤ → ℕ → List A
  schedule_days (pos days) day = schedule_loop 1000 false days day
  schedule_days (negsuc n) day = schedule_loop 1000 true (suc n) (previous day)

  -- The days that the loop can look at.
  abbrev pub walk : ℕ → Bool → ℕ → List ℕ
  walk zero backwards day = []
  walk (suc rounds) backwards day = day ∷ walk rounds backwards (step backwards day)

  abbrev pub intervals_of : List ℕ → List A
  intervals_of [] = []
  intervals_of (d ∷ ds) = intervals_of_day d ++ intervals_of ds

  -- The worked days among them.
  abbrev pub worked : ℕ → Bool → ℕ → List ℕ
  worked rounds backwards day = keep is_worked (walk rounds backwards day)

  schedule_loop-walk :
      (rounds : ℕ) (backwards : Bool) (days day : ℕ)
      → schedule_loop rounds backwards days day
        ≡ intervals_of (take days (worked rounds backwards day))
  unfolding schedule_loop
  schedule_loop-walk zero backwards zero day = refl
  schedule_loop-walk zero backwards (suc days) day = refl
  schedule_loop-walk (suc rounds) backwards zero day = refl
  schedule_loop-walk (suc rounds) backwards (suc days) day = elim (Bool-cases (is_worked day)) [
    | inl e ↦ rw e (
        ap (λ rest. intervals_of_day day ++ rest)
          (schedule_loop-walk rounds backwards days (step backwards day)))
    | inr e ↦ rw e (schedule_loop-walk rounds backwards (suc days) (step backwards day))
  ]

  -- The day that a schedule of the given number of days looks at first.
  abbrev pub first_day : ℤ → ℕ → ℕ
  first_day (pos n) day = day
  first_day (negsuc n) day = previous day

  abbrev pub is_negative : ℤ → Bool
  is_negative (pos n) = false
  is_negative (negsuc n) = true

  abbrev pub size : ℤ → ℕ
  size (pos n) = n
  size (negsuc n) = suc n

  -- The intervals of a schedule are those of the first days that are worked, as many as are asked
  -- for, among the thousand days from the date on, or among those before it for a negative number.
  pub schedule_days-walk :
      (days : ℤ) (day : ℕ)
      → schedule_days days day
        ≡ intervals_of (take (size days) (worked 1000 (is_negative days) (first_day days day)))
  unfolding schedule_days
  schedule_days-walk (pos n) day = schedule_loop-walk 1000 false n day
  schedule_days-walk (negsuc n) day = schedule_loop-walk 1000 true (suc n) (previous day)
