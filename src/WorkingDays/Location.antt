-- ===== src/WorkingDays/Location.antt =====
-- stock_working_days/stock_working_days.py: the dates of a location, and the procurement and push
-- rules that ask for them. Delays of rules are whole numbers of days.
pub mod Warehouses
pub mod Dates
use mathlib.Core.Path.{subst}
use odoo_addons.Base.{
  ap, sym, ◌∙◌, ℕ, zero, suc, ◌+◌, ◌*◌, ◌/◌, ◌%◌, ◌≤◌, ◌≡◌, refl, Bool, true, false, ◌&&◌, Option,
  none, some, List, [], ◌∷◌, ltb, leb, if◌then◌else◌, arith, Bool-cases, inl, inr, ◌⊎◌, In, here,
  there,
}
use odoo_addons.Base.Int.{ℤ, pos, negsuc}
use odoo_addons.WorkingDays.Week.{Weekdays, on_days_of_week}
use odoo_addons.WorkingDays.Cache.{Query, Delay, schedule_days_get_date}

pub record Resource : Type 0 where
  pub id : ℕ
  pub calendar_id : Option ℕ

-- A warehouse with the bounds of its view location in the tree of the locations.
pub record Warehouse : Type 0 where
  pub id : ℕ
  pub parent_left : ℕ
  pub parent_right : ℕ
  pub resource_id : Option Resource

-- What a location asks for: its place in the tree, its company's calendar, the warehouses by
-- identifier, and the default calendar of the add-on.
pub record Site : Type 0 where
  pub parent_left : ℕ
  pub company_calendar : Option ℕ
  pub warehouses : List Warehouse
  pub default_calendar : ℕ

abbrev pub contains : ℕ → Warehouse → Bool
contains left w = leb w.parent_left left && leb left w.parent_right

abbrev pub lower : Warehouse → Option Warehouse → Warehouse
lower w none = w
lower w (some v) = if leb w.id v.id then w else v

-- `get_warehouse`: `ORDER BY swh.id LIMIT 1` of the warehouses that contain the location.
unfoldable pub get_warehouse : ℕ → List Warehouse → Option Warehouse
get_warehouse left [] = none
get_warehouse left (w ∷ ws) =
    let rest = get_warehouse left ws in if contains left w then some (lower w rest) else rest

abbrev pub resource_of : Option Warehouse → Option Resource
resource_of none = none
resource_of (some w) = w.resource_id

abbrev pub or_default : ℕ → Option ℕ → ℕ
or_default d none = d
or_default d (some c) = c

-- `get_resource_and_calendar_for_location`
unfoldable pub get_resource_and_calendar_for_location : Site → Option ℕ × ℕ
unfolding get_warehouse
get_resource_and_calendar_for_location site =
    elim (resource_of (get_warehouse site.parent_left site.warehouses)) [
      | none ↦ (none, or_default site.default_calendar site.company_calendar)
      | some r ↦ (some r.id, or_default site.default_calendar r.calendar_id)
    ]

abbrev pub is_positive : ℤ → Bool
is_positive (pos n) = ltb 0 n
is_positive (negsuc n) = false

-- The day moved to one of the days of the week, at the same time of the day.
abbrev pub moved : Weekdays → Bool → ℕ → List ℕ → ℕ
moved week forwards time codes =
    on_days_of_week week forwards (time / 86400) codes * 86400 + time % 86400

module _ (compute : ℕ → Query → ℕ) (week : Weekdays) where
  -- `schedule_working_days` of a company
  pub company_schedule_working_days : Option ℕ → ℕ → Bool → ℤ → ℕ → List Delay → ℕ × List Delay
  company_schedule_working_days calendar default_calendar do_not_save (pos zero) day_date table =
      (day_date, table)
  company_schedule_working_days calendar default_calendar do_not_save (pos (suc n)) day_date table =
      schedule_days_get_date compute do_not_save (or_default default_calendar calendar)
        (record {
          days = pos (suc n);
          day_date = some day_date;
          compute_leaves = true;
          resource_id = none;
          default_interval = none;
        })
        table
  company_schedule_working_days calendar default_calendar do_not_save (negsuc n) day_date table =
      schedule_days_get_date compute do_not_save (or_default default_calendar calendar)
        (record {
          days = negsuc n;
          day_date = some day_date;
          compute_leaves = true;
          resource_id = none;
          default_interval = none;
        })
        table

  abbrev pub location_query : Site → ℤ → ℕ → Query
  location_query site nb_days day_date = record {
    days = nb_days;
    day_date = some day_date;
    compute_leaves = true;
    resource_id = (get_resource_and_calendar_for_location site).0;
    default_interval = none;
  }

  -- `schedule_working_days` for days that are not 0
  pub schedule_days_of_week : Site → Bool → ℤ → ℕ → List ℕ → List Delay → ℕ × List Delay
  schedule_days_of_week site do_not_save nb_days day_date days_of_week table =
      let (newdate, table') =
        schedule_days_get_date compute do_not_save (get_resource_and_calendar_for_location site).1
          (location_query site nb_days day_date) table in
      (moved week (is_positive nb_days) newdate days_of_week, table')

  -- `schedule_working_days` of a location
  pub schedule_working_days : Site → Bool → ℤ → ℕ → List ℕ → List Delay → ℕ × List Delay
  schedule_working_days site do_not_save (pos zero) day_date days_of_week table = (day_date, table)
  schedule_working_days site do_not_save (pos (suc n)) day_date days_of_week table =
      schedule_days_of_week site do_not_save (pos (suc n)) day_date days_of_week table
  schedule_working_days site do_not_save (negsuc n) day_date days_of_week table =
      schedule_days_of_week site do_not_save (negsuc n) day_date days_of_week table

  abbrev pub minus : ℕ → ℤ
  minus zero = pos zero
  minus (suc n) = negsuc n

  -- `_run_move_create`: the date of the move of a procurement whose rule has the delay.
  pub run_move_create : Site → ℕ → ℕ → List ℕ → List Delay → ℕ × List Delay
  run_move_create site delay proc_date days_of_week table =
      schedule_working_days site false (minus delay) proc_date days_of_week table

  -- `_get_orderpoint_date_planned`
  pub get_orderpoint_date_planned : Site → ℕ → ℕ → List Delay → ℕ × List Delay
  get_orderpoint_date_planned site seller_delay start_date table =
      schedule_working_days site false (pos seller_delay) start_date [] table

  -- `_prepare_push_apply`: the date of the next move.
  pub prepare_push_apply : Site → ℕ → ℕ → List Delay → ℕ × List Delay
  prepare_push_apply site delay date_expected table =
      schedule_working_days site false (pos (delay + 1)) date_expected [] table
