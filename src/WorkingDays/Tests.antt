-- ===== src/WorkingDays/Tests.antt =====
-- Runs of the working days on small calendars, with the days of the week counted from a Monday.
use odoo_addons.Base.{
  ℕ, Bool, suc, ◌+◌, ◌*◌, ◌-◌, ◌%◌, ◌≤◌, ◌≡◌, refl, true, false, none, some, List, [], ◌∷◌, take,
  leb, if◌then◌else◌, arith, In, here, there,
}
use odoo_addons.Base.Int.{ℤ, pos, negsuc}
use odoo_addons.WorkingDays.Days.{schedule_days, schedule_days-walk, intervals_of, worked}
use odoo_addons.WorkingDays.Week.{Weekdays, on_days_of_week, Falls, on_days-IsLast}
use odoo_addons.WorkingDays.Cache.{Query}
use odoo_addons.WorkingDays.Cache.History.{Call, after, first_agreeing}
use odoo_addons.WorkingDays.Location.{
  Warehouse, Site, get_warehouse, contains, schedule_working_days,
  get_resource_and_calendar_for_location, location_query, location_query,
}
use odoo_addons.WorkingDays.Location.Warehouses.{get_warehouse-IsFirst}
use odoo_addons.WorkingDays.Location.Dates.{date_after, schedule_working_days-after}

-- Monday to Friday, one interval each.
abbrev office : ℕ → List ℕ
office d = if leb 5 (d % 7) then [] else d ∷ []

schedule_days-walk_example :
    schedule_days suc (λ d. d - 1) true office (pos 3) 4
    ≡ intervals_of suc
        (λ d. d - 1)
        true
        office
        (take 3 (worked suc (λ d. d - 1) true office 1000 false 4))
schedule_days-walk_example = schedule_days-walk suc (λ d. d - 1) true office (pos 3) 4

abbrev mondays : Weekdays
mondays = record {
  forward = λ w d. d + (7 + w % 7 - d % 7) % 7;
  backward = λ w d. d - (7 + d % 7 - w % 7) % 7;
  forward_ge = λ w d. omega arith;
  forward_near = λ w d. omega arith;
  forward_on = λ w d. omega arith;
  backward_le = λ w d. omega arith;
  backward_on = λ w d h. omega arith;
  backward_last = λ w d u h e le. omega arith;
}

on_days-IsLast_example :
    Falls mondays (0 ∷ 2 ∷ []) (on_days_of_week mondays false 18 (0 ∷ 2 ∷ []))
    × (on_days_of_week mondays false 18 (0 ∷ 2 ∷ []) ≤ 18)
    × ((u : ℕ)
        → Falls mondays (0 ∷ 2 ∷ []) u
        → u ≤ 18
        → u ≤ on_days_of_week mondays false 18 (0 ∷ 2 ∷ []))
on_days-IsLast_example = on_days-IsLast mondays 18 0 (2 ∷ []) (omega arith)

-- Dates that depend on the calendar.
abbrev by_calendar : ℕ → Query → ℕ
by_calendar calendar q = calendar * 86400

abbrev north : Warehouse
north = record { id = 4; parent_left = 1; parent_right = 20; resource_id = none }

abbrev all_sites : Warehouse
all_sites = record {
  id = 7;
  parent_left = 0;
  parent_right = 40;
  resource_id = some (record { id = 8; calendar_id = none });
}

get_warehouse-IsFirst_example :
    (w : Warehouse) × (get_warehouse 3 (all_sites ∷ north ∷ []) ≡ some w)
    × In w (all_sites ∷ north ∷ [])
    × (contains 3 w ≡ true)
    × (w.id ≤ 4)
get_warehouse-IsFirst_example =
    get_warehouse-IsFirst 3 (all_sites ∷ north ∷ []) north (there (here refl)) refl

abbrev site : Site
site = record {
  parent_left = 3;
  company_calendar = some 5;
  warehouses = all_sites ∷ [];
  default_calendar = 1;
}

-- A call on calendar 9 with the columns of the location's, at another time of the day, after one
-- that saves nothing and one for another number of days.
abbrev call : Bool → ℕ → ℤ → Call ℕ
call do_not_save c n = record {
  do_not_save_result = do_not_save;
  calendar = c;
  query = record {
    days = n;
    day_date = some 172000;
    compute_leaves = true;
    resource_id = some 8;
    default_interval = none;
  };
}

abbrev calls : List (Call ℕ)
calls = call true 2 (negsuc 2) ∷ call false 3 (negsuc 1) ∷ call false 9 (negsuc 2) ∷ []

date_of_calendar_nine :
    first_agreeing by_calendar (location_query by_calendar mondays site (negsuc 2) 90000) calls
    ≡ some (9 * 86400)
unfolding get_resource_and_calendar_for_location get_warehouse
date_of_calendar_nine = refl

schedule_working_days-after_example :
    (schedule_working_days by_calendar mondays site false
      (negsuc 2)
      90000
      (0 ∷ [])
      (after by_calendar calls [])).0
    ≡ date_after by_calendar mondays calls site (negsuc 2) 90000 (0 ∷ [])
schedule_working_days-after_example =
    schedule_working_days-after by_calendar mondays calls site false (negsuc 2) 90000 (0 ∷ [])
