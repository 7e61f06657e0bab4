-- ===== src/WorkingDays/Week.antt =====
-- stock_working_days/stock_working_days.py: the days of the week in `schedule_working_days`.
--
-- Adding `relativedelta(weekday=…)` of dateutil is a parameter: `forward w d` is the first day of
-- the week `w` that is not before `d`, and `backward w d`, with `weekday(-1)`, the last that is
-- not after it.
use mathlib.Core.List.{append-nil, append_assoc}
use odoo_addons.Base.{
  ℕ, ◌+◌, ◌≤◌, ◌<◌, ◌≡◌, refl, ◌∙◌, Bool, true, false, List, [], ◌∷◌, ◌++◌, ltb, ◌==◌,
  if◌then◌else◌, arith, Bool-cases, inl, inr, ◌⊎◌, In, here, there, map, In-map, map-In, ap, sym,
}

pub record Weekdays : Type 0 where
  pub forward : ℕ → ℕ → ℕ
  pub backward : ℕ → ℕ → ℕ
  pub forward_ge : (w d : ℕ) → d ≤ forward w d
  pub forward_near : (w d : ℕ) → forward w d < d + 7
  pub forward_on : (w d : ℕ) → forward w (forward w d) ≡ forward w d
  pub backward_le : (w d : ℕ) → backward w d ≤ d
  pub backward_on : (w d : ℕ) → 7 ≤ d → forward w (backward w d) ≡ backward w d
  pub backward_last : (w d u : ℕ) → 7 ≤ d → forward w u ≡ u → u ≤ d → u ≤ backward w d

-- `max(dates)` of a first date and the rest
abbrev pub latest : ℕ → List ℕ → ℕ
latest d [] = d
latest d (e ∷ es) = let m = latest e es in if ltb d m then m else d

-- `max(dates)`, which is never asked for no dates.
abbrev pub latest_of : ℕ → List ℕ → ℕ
latest_of d [] = d
latest_of d (e ∷ es) = latest e es

module _ (week : Weekdays) where
  abbrev pub shifted : Bool → ℕ → ℕ → ℕ
  shifted is_positive newdate w =
      if is_positive then week.forward w newdate else week.backward w newdate

  -- The loop over the codes: the dates that it leaves in `dates`.
  pub day_dates : Bool → ℕ → List ℕ → List ℕ → List ℕ
  day_dates is_positive newdate [] dates = dates
  day_dates is_positive newdate (w ∷ ws) dates =
      let rest = day_dates is_positive newdate ws (dates ++ (shifted is_positive newdate w ∷ [])) in
      if week.forward w newdate == newdate then newdate ∷ [] else rest

  -- The date on one of the days of the week; no days are all days.
  pub on_days_of_week : Bool → ℕ → List ℕ → ℕ
  on_days_of_week is_positive newdate [] = newdate
  on_days_of_week is_positive newdate (w ∷ ws) =
      latest_of newdate (day_dates is_positive newdate (w ∷ ws) [])

latest-In : (d : ℕ) (ds : List ℕ) → In (latest d ds) (d ∷ ds)
latest-In d [] = here refl
latest-In d (e ∷ es) = elim (Bool-cases (ltb d (latest e es))) [
  | inl t ↦ rw t (there (latest-In e es))
  | inr t ↦ rw t (here refl)
]

latest-ge : (d : ℕ) (ds : List ℕ) {x : ℕ} → In x (d ∷ ds) → x ≤ latest d ds
latest-ge d [] (here q) = omega arith
latest-ge d [] (there m) = elim m [ ]
latest-ge d (e ∷ es) (here q) = ground arith
latest-ge d (e ∷ es) (there m) = let h = latest-ge e es m in ground arith

module _ (week : Weekdays) where
  -- The date falls on a day of the week that is asked for.
  abbrev pub Falls : List ℕ → ℕ → Type 0
  Falls codes d = (w : ℕ) × In w codes × (week.forward w d ≡ d)

  Falls-later : {w d : ℕ} {ws : List ℕ} → Falls ws d → Falls (w ∷ ws) d
  Falls-later (v, m, e) = (v, there m, e)

  -- The loop ends at the date if the date falls on one of the days, and collects a date for each
  -- of the days otherwise.
  day_dates-cases :
      (is_positive : Bool) (d : ℕ) (ws dates : List ℕ)
      → (Falls ws d × (day_dates week is_positive d ws dates ≡ d ∷ []))
        ⊎ (day_dates week is_positive d ws dates ≡ dates ++ map (shifted week is_positive d) ws)
  unfolding day_dates
  day_dates-cases is_positive d [] dates = inr (sym (append-nil dates))
  day_dates-cases is_positive d (w ∷ ws) dates = elim (Bool-cases (week.forward w d == d)) [
    | inl t ↦ inl ((w, here refl, (ground arith)), rw t refl)
    | inr t ↦
        elim (day_dates-cases is_positive d ws (dates ++ (shifted week is_positive d w ∷ []))) [
          | inl (f, q) ↦ inl (Falls-later f, rw t q)
          | inr q ↦ inr (
              rw t (
                q
                ∙ append_assoc dates (shifted week is_positive d w ∷ [])
                    (map (shifted week is_positive d) ws)))
        ]
  ]

  -- The date that is chosen is the date itself where that falls on one of the days, and else the
  -- latest of the dates of the days.
  chosen-cases :
      (is_positive : Bool) (d w : ℕ) (ws : List ℕ)
      → (Falls (w ∷ ws) d × (on_days_of_week week is_positive d (w ∷ ws) ≡ d))
        ⊎ (on_days_of_week week is_positive d (w ∷ ws)
            ≡ latest (shifted week is_positive d w) (map (shifted week is_positive d) ws))
  unfolding on_days_of_week
  chosen-cases is_positive d w ws = elim (day_dates-cases is_positive d (w ∷ ws) []) [
    | inl (f, q) ↦ inl (f, ap (latest_of d) q)
    | inr q ↦ inr (ap (latest_of d) q)
  ]

  chosen-In :
      (is_positive : Bool) (d w : ℕ) (ws : List ℕ)
      → (v : ℕ) × In v (w ∷ ws)
        × ((on_days_of_week week is_positive d (w ∷ ws) ≡ shifted week is_positive d v)
            ⊎ ((on_days_of_week week is_positive d (w ∷ ws) ≡ d) × (week.forward v d ≡ d)))
  chosen-In is_positive d w ws = elim (chosen-cases is_positive d w ws) [
    | inl ((v, m, e), q) ↦ (v, m, inr (q, e))
    | inr q ↦
        let (v, m, e) =
          In-map (shifted week is_positive d) (w ∷ ws) _
            (latest-In (shifted week is_positive d w) (map (shifted week is_positive d) ws)) in
        (v, m, inl (q ∙ sym e))
  ]

  -- Scheduled backwards, with days of the week given and from the eighth day of the calendar on,
  -- the date falls on one of the days, is not after the date that was computed, and no date that
  -- falls on one of the days lies between them.
  pub on_days-IsLast :
      (d w : ℕ) (ws : List ℕ)
      → 7 ≤ d
      → Falls (w ∷ ws) (on_days_of_week week false d (w ∷ ws))
        × (on_days_of_week week false d (w ∷ ws) ≤ d)
        × ((u : ℕ) → Falls (w ∷ ws) u → u ≤ d → u ≤ on_days_of_week week false d (w ∷ ws))
  on_days-IsLast d w ws h = (falls, before, last)
    where
      falls : Falls (w ∷ ws) (on_days_of_week week false d (w ∷ ws))
      falls =
          let (v, m, c) = chosen-In false d w ws in
          elim c [ inl q ↦ (v, m, rw q (week.backward_on v d h)) | inr (q, e) ↦ (v, m, rw q e) ]

      before : on_days_of_week week false d (w ∷ ws) ≤ d
      before =
          let (v, m, c) = chosen-In false d w ws in
          elim c [ inl q ↦ omega (arith, q, week.backward_le v d) | inr (q, e) ↦ omega (arith, q) ]

      last : (u : ℕ) → Falls (w ∷ ws) u → u ≤ d → u ≤ on_days_of_week week false d (w ∷ ws)
      last u (v, m, e) le = elim (chosen-cases false d w ws) [
        | inl (f, q) ↦ omega (arith, q)
        | inr q ↦ omega (
          arith,
          q,
          week.backward_last v d u h e le,
          latest-ge (week.backward w d) (map (shifted week false d) ws)
              (map-In (shifted week false d) m),
        )
      ]

  -- Scheduled forwards, with days of the week given, the date falls on one of the days, is less
  -- than a week after the date that was computed, and, unless it is that date, it is not before
  -- the next date of any of the days: the nearer ones are passed over.
  pub on_days-IsFarthest :
      (d w : ℕ) (ws : List ℕ)
      → Falls (w ∷ ws) (on_days_of_week week true d (w ∷ ws))
        × (on_days_of_week week true d (w ∷ ws) < d + 7)
        × ((on_days_of_week week true d (w ∷ ws) ≡ d)
            ⊎ ((v : ℕ) → In v (w ∷ ws) → week.forward v d ≤ on_days_of_week week true d (w ∷ ws)))
  on_days-IsFarthest d w ws = (falls, near, farthest)
    where
      falls : Falls (w ∷ ws) (on_days_of_week week true d (w ∷ ws))
      falls =
          let (v, m, c) = chosen-In true d w ws in
          elim c [ inl q ↦ (v, m, rw q (week.forward_on v d)) | inr (q, e) ↦ (v, m, rw q e) ]

      near : on_days_of_week week true d (w ∷ ws) < d + 7
      near =
          let (v, m, c) = chosen-In true d w ws in
          elim c [ inl q ↦ omega (arith, q, week.forward_near v d) | inr (q, e) ↦ omega (arith, q) ]

      farthest :
          (on_days_of_week week true d (w ∷ ws) ≡ d)
          ⊎ ((v : ℕ) → In v (w ∷ ws) → week.forward v d ≤ on_days_of_week week true d (w ∷ ws))
      farthest = elim (chosen-cases true d w ws) [
        | inl (f, q) ↦ inl q
        | inr q ↦ inr (λ v m. omega (
          arith,
          q,
          latest-ge (week.forward w d) (map (shifted week true d) ws)
              (map-In (shifted week true d) m),
        ))
      ]
