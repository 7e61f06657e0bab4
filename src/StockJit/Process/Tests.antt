-- ===== src/StockJit/Process/Tests.antt =====
-- stock_procurement_just_in_time: runs of `process`, and the theorem about its events at one.
use odoo_addons.Base.{ℕ, ◌≡◌, refl, inl, true, false, Option, none, some, List, [], ◌∷◌}
use odoo_addons.Base.Int.{ℤ, pos, negsuc}
use odoo_addons.Base.Float.{cents}
use odoo_addons.StockJit.Levels.{MoveType, Level}
use odoo_addons.StockJit.Orderpoint.{Orderpoint, Config, FillStrategy}
use odoo_addons.StockJit.Process.{World, start, process, process_events, under, program}
use odoo_addons.StockJit.Process.Steps.{IsRounded, process_events-covers, reached}

abbrev five_to_ten : Orderpoint
five_to_ten = record {
  product_id = 7;
  location_id = 1;
  product_min_qty = pos 500;
  product_max_qty_operator = pos 1000;
  fill_strategy = FillStrategy.max;
  fill_duration = 0;
  qty_multiple = 100;
  uom_rounding = 1;
  product_rounding = 1;
}

abbrev no_delta : Config
no_delta = record {
  consider_end_contract_effect = false;
  relative_stock_delta = pos 0;
  absolute_stock_delta = pos 0;
  today = 3;
}

abbrev every_day : ℕ → ℕ → ℕ
every_day n t = t

abbrev event : Option ℕ → MoveType → ℕ → ℤ → Level
event proc type day qty = record {
  proc_id = proc;
  product_id = 7;
  location_id = 1;
  move_type = type;
  date = some day;
  qty = pos 0;
  move_qty = qty;
  move_id = none;
}

abbrev delivery_plan : List Level
delivery_plan =
    event none MoveType.existing 4 (pos 600) ∷ event none MoveType.outgoing 5 (negsuc 399) ∷ []

abbrev nothing_stored : World
nothing_stored = record { procs = []; created = [] }

-- A delivery of four pieces out of six: eight are procured, up to the maximum of ten.
delivery_supplied :
    (process cents every_day [] no_delta
      (λ i. true)
      five_to_ten
      delivery_plan
      (some 5)
      nothing_stored).world.created
    ≡ record { qty = pos 800; date = some 5 } ∷ []
unfolding program
delivery_supplied = refl

abbrev too_much : List Level
too_much =
    event none MoveType.existing 4 (pos 0) ∷ event (some 9) MoveType.planned 4 (pos 3000) ∷ []

-- A single planned procurement above the maximum is canceled on the last date, and nothing
-- replaces it: the loop ends at a stock of 0, below the minimum of 5.
oversupply_not_replaced :
    let s =
      process cents every_day [] no_delta
        (λ i. true)
        five_to_ten
        too_much
        (some 4)
        (record {
          procs =
              record {
                id = 9;
                done = false;
                protected_against_scheduler = false;
                date_planned = 350000;
              }
              ∷ [];
          created = [];
        }) in
    (s.stock_after_event ≡ pos 0) × (s.world.created ≡ [])
unfolding program
oversupply_not_replaced = (refl, refl)

plan_IsRounded : IsRounded cents every_day [] no_delta (λ i. true) five_to_ten delivery_plan
plan_IsRounded = record { same = refl; min = refl; zero = refl; quantities = (refl, (refl, tt)) }

process_events-covers_example :
    under cents every_day [] no_delta
      (λ i. true)
      five_to_ten
      (process_events cents every_day [] no_delta
        (λ i. true)
        five_to_ten
        delivery_plan
        delivery_plan
        (start nothing_stored)).stock_after_event
    ≡ false
unfolding program reached
process_events-covers_example =
    process_events-covers cents every_day [] no_delta (λ i. true) five_to_ten delivery_plan
      (event none MoveType.existing 4 (pos 600) ∷ []) (event none MoveType.outgoing 5 (negsuc 399))
      nothing_stored plan_IsRounded (inl refl)
