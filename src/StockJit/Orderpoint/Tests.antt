-- ===== src/StockJit/Orderpoint/Tests.antt =====
-- stock_procurement_just_in_time: a rule for 5 to 20 pieces in fours, and the theorems at it.
use odoo_addons.Base.{ℕ, ◌≡◌, refl, false, none, some, []}
use odoo_addons.Base.Int.{pos, ◌+ℤ◌, ◌-ℤ◌, max_ℤ, mod_ℤ, next_multiple, percent}
use odoo_addons.Base.Float.{cents}
use odoo_addons.StockJit.Orderpoint.{
  Orderpoint, Config, FillStrategy, get_max_qty, missing_qty, create_from_need, wanted_qty,
  allowed_qty, get_max_allowed_qty,
}
use odoo_addons.StockJit.Orderpoint.Reach.{Reaches, create_from_need-Reaches}
use odoo_addons.StockJit.Orderpoint.Allowed.{IsLeastMultiple, allowed_qty-IsLeastMultiple}

abbrev rule : Orderpoint
rule = record {
  product_id = 7;
  location_id = 1;
  product_min_qty = pos 500;
  product_max_qty_operator = pos 1900;
  fill_strategy = FillStrategy.max;
  fill_duration = 0;
  qty_multiple = 400;
  uom_rounding = 1;
  product_rounding = 1;
}

abbrev ten_percent : Config
ten_percent = record {
  consider_end_contract_effect = false;
  relative_stock_delta = pos 10;
  absolute_stock_delta = pos 100;
  today = 3;
}

abbrev every_day : ℕ → ℕ → ℕ
every_day n t = t

three_on_hand :
    create_from_need cents every_day [] ten_percent rule (some 4) (pos 300)
    ≡ some (record { qty = pos 1600; date = some 4 })
unfolding create_from_need missing_qty get_max_qty ◌-ℤ◌ ◌+ℤ◌ max_ℤ mod_ℤ
three_on_hand = refl

full_stock : create_from_need cents every_day [] ten_percent rule (some 4) (pos 1900) ≡ none
unfolding create_from_need missing_qty get_max_qty ◌-ℤ◌ ◌+ℤ◌ max_ℤ mod_ℤ
full_stock = refl

allowed_with_ten_percent :
    get_max_allowed_qty cents every_day [] ten_percent rule (some 4) ≡ pos 2100
unfolding get_max_allowed_qty allowed_qty wanted_qty get_max_qty ◌+ℤ◌ max_ℤ mod_ℤ next_multiple
    percent
allowed_with_ten_percent = refl

create_from_need-Reaches_example : Reaches cents every_day [] ten_percent rule (some 4) (pos 300)
unfolding get_max_qty
create_from_need-Reaches_example =
    create_from_need-Reaches cents every_day [] ten_percent rule (some 4) (pos 300) refl refl refl

allowed_qty-IsLeastMultiple_example :
    IsLeastMultiple cents every_day [] ten_percent rule 1900
      (allowed_qty cents every_day [] ten_percent rule (some 4))
unfolding wanted_qty get_max_qty
allowed_qty-IsLeastMultiple_example =
    allowed_qty-IsLeastMultiple cents every_day [] ten_percent rule (some 4) 1900 refl refl
