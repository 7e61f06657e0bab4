-- ===== src/StockJit/Levels/Tests.antt =====
-- stock_procurement_just_in_time: a small warehouse, and the theorems about levels at it.
use odoo_addons.Base.{ℕ, ◌≡◌, ◌≤◌, refl, true, false, Option, none, some, [], ◌∷◌, map, All}
use odoo_addons.Base.Int.{ℤ, pos, negsuc, ◌+ℤ◌, ◌-ℤ◌}
use odoo_addons.StockJit.Tables.{MoveState, ProcState, Location, Tables}
use odoo_addons.StockJit.Levels.{
  rank, compute_stock_levels_requirements, get_list_events, get_last_scheduled_date, scheduled_type,
  intermediate_items,
}
use odoo_addons.StockJit.Levels.Forecast.{
  forecast, compute_stock_levels_requirements-forecast, get_list_events-forecast,
  get_last_scheduled_date-ge,
}

abbrev stock : Location
stock = record { id = 1; parent_left = 10; parent_right = 20; holds_stock = true }

-- Ten pieces on hand; twelve leave on day 2, five arrive on day 1 and a procurement of eight is
-- planned on day 2. The move of day 0 is done and the last one is of another product.
abbrev warehouse : Tables
warehouse = record {
  locations =
      stock
      ∷ record { id = 2; parent_left = 12; parent_right = 13; holds_stock = true }
      ∷ record { id = 3; parent_left = 30; parent_right = 31; holds_stock = false }
      ∷ [];
  moves =
      record {
        id = 1;
        product_id = 7;
        product_qty = pos 12;
        date = 180000;
        state = MoveState.confirmed;
        location_id = 2;
        location_dest_id = 3;
        procurement_id = none;
      }
      ∷ record {
        id = 2;
        product_id = 7;
        product_qty = pos 5;
        date = 90000;
        state = MoveState.assigned;
        location_id = 3;
        location_dest_id = 2;
        procurement_id = none;
      }
      ∷ record {
        id = 3;
        product_id = 7;
        product_qty = pos 9;
        date = 100;
        state = MoveState.done;
        location_id = 3;
        location_dest_id = 2;
        procurement_id = none;
      }
      ∷ record {
        id = 4;
        product_id = 8;
        product_qty = pos 9;
        date = 100;
        state = MoveState.confirmed;
        location_id = 3;
        location_dest_id = 2;
        procurement_id = none;
      }
      ∷ [];
  procurements =
      record {
        id = 5;
        product_id = 7;
        qty = pos 8;
        date_planned = 200000;
        state = ProcState.confirmed;
        location_id = 1;
      }
      ∷ [];
  quants = record { product_id = 7; qty = pos 10; location_id = 2 } ∷ [];
  pols_in = [];
}

events-warehouse :
    map {B = Option ℕ × ℤ × ℤ}
      (λ l. (l.date, l.qty, l.move_qty))
      (get_list_events warehouse 7 stock)
    ≡ (some 1, pos 10, pos 10)
      ∷ (some 1, pos 15, pos 5)
      ∷ (some 2, pos 11, negsuc 11)
      ∷ (some 2, pos 11, pos 8)
      ∷ []
unfolding get_list_events ◌+ℤ◌ ◌-ℤ◌
events-warehouse = refl

last-warehouse : get_last_scheduled_date warehouse 7 stock ≡ some 2
unfolding get_last_scheduled_date
last-warehouse = refl

compute_stock_levels_requirements-forecast_example :
    compute_stock_levels_requirements warehouse 7 stock scheduled_type none false (some 190000)
    ≡ forecast scheduled_type 7 (intermediate_items warehouse 7 stock (some 190000))
compute_stock_levels_requirements-forecast_example =
    compute_stock_levels_requirements-forecast warehouse 7 stock scheduled_type (some 190000)

get_list_events-forecast_example :
    get_list_events warehouse 7 stock
    ≡ forecast (λ t. true) 7 (intermediate_items warehouse 7 stock none)
get_list_events-forecast_example = get_list_events-forecast warehouse 7 stock

get_last_scheduled_date-ge_example :
    All
      (λ l. rank l.date ≤ rank (get_last_scheduled_date warehouse 7 stock))
      (forecast scheduled_type 7 (intermediate_items warehouse 7 stock none))
get_last_scheduled_date-ge_example = get_last_scheduled_date-ge warehouse 7 stock
