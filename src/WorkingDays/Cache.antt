-- ===== src/WorkingDays/Cache.antt =====
-- stock_working_days/stock_working_days.py: `schedule_days_get_date` of `RessourceCalendar`, with
-- the table `PreComputedCalendarDelays`. openerp's own computation is the parameter `compute`.
pub mod History
use odoo_addons.Base.{
  ℕ, ◌≡◌, refl, Bool, true, false, ◌&&◌, Option, none, some, List, [], ◌∷◌, ◌++◌, ◌==◌, same_id,
  if◌then◌else◌, arith, Bool-cases, Option-cases, inl, inr, ◌/◌,
}
use odoo_addons.Base.Int.{ℤ, leb_ℤ}

-- The arguments; a date is in seconds, and a resource or an interval that is not given is `none`.
pub record Query : Type 0 where
  pub days : ℤ
  pub day_date : Option ℕ
  pub compute_leaves : Bool
  pub resource_id : Option ℕ
  pub default_interval : Option ℕ

-- A row of the table: the day of the date, and 0 for no resource.
pub record Delay : Type 0 where
  pub days : ℤ
  pub day_date : Option ℕ
  pub compute_leaves : Bool
  pub resource_id : ℕ
  pub default_interval : Option ℕ
  pub result : ℕ

abbrev pub day_of : Option ℕ → Option ℕ
day_of none = none
day_of (some t) = some (t / 86400)

abbrev pub or_zero : Option ℕ → ℕ
or_zero none = 0
or_zero (some i) = i

abbrev pub same_bool : Bool → Bool → Bool
same_bool true b = b
same_bool false true = false
same_bool false false = true

-- The search domain
abbrev pub matches : Query → Delay → Bool
matches q d =
    leb_ℤ q.days d.days
    && leb_ℤ d.days q.days
    && same_id (day_of q.day_date) d.day_date
    && same_bool q.compute_leaves d.compute_leaves
    && or_zero q.resource_id == d.resource_id
    && same_id q.default_interval d.default_interval

abbrev pub dict_result : Query → ℕ → Delay
dict_result q date = record {
  days = q.days;
  day_date = day_of q.day_date;
  compute_leaves = q.compute_leaves;
  resource_id = or_zero q.resource_id;
  default_interval = q.default_interval;
  result = date;
}

-- `search(domain, limit=1)`
abbrev pub pre_compute_result : Query → List Delay → Option ℕ
pre_compute_result q [] = none
pre_compute_result q (d ∷ ds) = if matches q d then some d.result else pre_compute_result q ds

module _ {Calendar : Type 0} (compute : Calendar → Query → ℕ) where
  -- The date of a search, or openerp's, which is added to the table.
  abbrev pub found_or : Bool → Calendar → Query → List Delay → Option ℕ → ℕ × List Delay
  found_or do_not_save_result calendar q table (some date) = (date, table)
  found_or do_not_save_result calendar q table none =
      let date = compute calendar q in
      (date, if do_not_save_result then table else table ++ (dict_result q date ∷ []))

  -- `schedule_days_get_date`
  pub schedule_days_get_date : Bool → Calendar → Query → List Delay → ℕ × List Delay
  schedule_days_get_date do_not_save_result calendar q table =
      found_or do_not_save_result calendar q table (pre_compute_result q table)
