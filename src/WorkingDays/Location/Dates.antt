-- ===== src/WorkingDays/Location/Dates.antt =====
-- stock_working_days/stock_working_days.py: the dates of a location after the calls that filled the
-- table.
use odoo_addons.Base.{ap, ℕ, zero, suc, ◌≡◌, refl, Bool, List, []}
use odoo_addons.Base.Int.{ℤ, pos, negsuc}
use odoo_addons.WorkingDays.Week.{Weekdays}
use odoo_addons.WorkingDays.Cache.{Query}
use odoo_addons.WorkingDays.Cache.History.{
  Call, after, first_agreeing, or_date, schedule_days_get_date-after,
}
use odoo_addons.WorkingDays.Location.{
  Site, get_resource_and_calendar_for_location, is_positive, moved, location_query,
  schedule_days_of_week, schedule_working_days,
}

module _ (compute : ℕ → Query → ℕ) (week : Weekdays) where
  -- The date that openerp computed at the first call that may save its result and whose arguments
  -- agree with those of the location in the columns of the table, or computes for the location if
  -- there is none, moved to the days of the week.
  abbrev pub first_moved : List (Call ℕ) → Site → ℤ → ℕ → List ℕ → ℕ
  first_moved calls site nb_days day_date days_of_week =
      let q = location_query compute week site nb_days day_date in
      let own = compute (get_resource_and_calendar_for_location site).1 q in
      moved week (is_positive nb_days) (or_date (first_agreeing compute q calls) own) days_of_week

  abbrev pub date_after : List (Call ℕ) → Site → ℤ → ℕ → List ℕ → ℕ
  date_after calls site (pos zero) day_date days_of_week = day_date
  date_after calls site (pos (suc n)) day_date days_of_week =
      first_moved calls site (pos (suc n)) day_date days_of_week
  date_after calls site (negsuc n) day_date days_of_week =
      first_moved calls site (negsuc n) day_date days_of_week

  schedule_days_of_week-after :
      (calls : List (Call ℕ)) (site : Site) (b : Bool) (n : ℤ) (day_date : ℕ) (codes : List ℕ)
      → (schedule_days_of_week compute week site b n day_date codes (after compute calls [])).0
        ≡ first_moved calls site n day_date codes
  unfolding schedule_days_of_week
  schedule_days_of_week-after calls site b n day_date codes =
      let q = location_query compute week site n day_date in
      let calendar = (get_resource_and_calendar_for_location site).1 in
      ap (λ d. moved week (is_positive n) d codes)
        (schedule_days_get_date-after compute b calendar q calls)

  -- After any calls that began with an empty table, on any calendars, the date of a location for
  -- days that are not 0 is the one that openerp computed at the first call without
  -- `do_not_save_result` that has the same days, day, leaves, resource (0 is none) and interval,
  -- or, if there is none, the one that it computes on the calendar of the location, moved to the
  -- days of the week. For 0 days it is the date given.
  pub schedule_working_days-after :
      (calls : List (Call ℕ)) (site : Site) (do_not_save : Bool) (nb_days : ℤ) (day_date : ℕ)
      (codes : List ℕ)
      → (schedule_working_days compute week site do_not_save nb_days day_date codes
          (after compute calls [])).0
        ≡ date_after calls site nb_days day_date codes
  unfolding schedule_working_days
  schedule_working_days-after calls site b (pos zero) day_date codes = refl
  schedule_working_days-after calls site b (pos (suc n)) day_date codes =
      schedule_days_of_week-after calls site b (pos (suc n)) day_date codes
  schedule_working_days-after calls site b (negsuc n) day_date codes =
      schedule_days_of_week-after calls site b (negsuc n) day_date codes
