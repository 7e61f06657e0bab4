-- ===== src/PurchaseJit/Grouping/Tests.antt =====
-- Three procurements of a product: two in one period and one in a later period.
use odoo_addons.Base.{
  ℕ, ◌+◌, ◌-◌, ◌*◌, ◌≤◌, ◌≡◌, refl, sym, ap, Bool, true, Option, none, some, List, [], ◌∷◌, arith,
}
use odoo_addons.Base.Count.{times}
use odoo_addons.StockJit.Tables.{ProcState}
use odoo_addons.PurchaseJit.Assignment.{Procurement}
use odoo_addons.PurchaseJit.Grouping.{
  Place, DraftOrder, NewLine, Groups, Setting, get_purchase_line_procurements, get_purchase_date,
  group_product, group_round, group_procurements_by_orders,
}
use odoo_addons.PurchaseJit.Grouping.Conservation.{in_lines}
use odoo_addons.PurchaseJit.Grouping.Rounds.{Reaches, group_procurements-conserves}
use odoo_addons.PurchaseJit.Grouping.Limit.{has_line, group_product_ends_at_limit}

abbrev proc : ℕ → ℕ → ℕ → Procurement
proc id qty day = record {
  id = id;
  product_id = 3;
  product_qty = qty;
  product_uom = 1;
  date_planned = 86400 * day;
  state = ProcState.buy_to_run;
  purchase_line_id = none;
}

abbrev place : Place
place = record { picking_type_id = 1; location_id = 2; company_id = 1; partner_dest_id = none }

-- Periods of five days, and at most `limit` draft orders of ten days.
abbrev setting : ℕ → Setting
setting limit = record {
  compute_qty = λ from qty to. qty;
  uom_of = λ product. 1;
  moq_of = λ product. 10;
  period_end = λ p date. some (p.date_planned + 432000);
  schedule_date = λ p. p.date_planned;
  order_date = λ p date. date - 86400;
  place_of = λ p. place;
  period = λ date. (date, date + 864000);
  date_ref = 86400;
  nb_max = limit;
}

abbrev procs : List Procurement
procs = proc 1 4 1 ∷ proc 2 3 2 ∷ proc 3 9 20 ∷ []

reaches :
    (limit : ℕ) (p : Procurement) (date : ℕ)
    → Reaches ((setting limit).period_end p date) p.date_planned
reaches limit p date = omega arith

-- The first round has both procurements of the period, and the least quantity takes no other one.
first_round : get_purchase_line_procurements (setting 0) (proc 1 4 1) procs 86400 ≡ 1 ∷ 2 ∷ []
first_round = refl

lines_of : Option Groups → List NewLine
lines_of none = []
lines_of (some g) = g.dict_lines_to_create

grouped :
    lines_of (
      group_product (setting 0) 3 procs (record {
        orders = [];
        next_order_id = 50;
        dict_lines_to_create = [];
        not_assigned = 1 ∷ 2 ∷ 3 ∷ [];
        nb_draft_orders = 0;
      }))
    ≡ record { order_id = 50; product_id = 3; procurement_ids = 1 ∷ 2 ∷ [] }
      ∷ record { order_id = 51; product_id = 3; procurement_ids = 3 ∷ [] }
      ∷ []
unfolding group_product lines_of
grouped = refl

once : (i : ℕ) → times i (1 ∷ 2 ∷ 3 ∷ []) ≤ 1
once i = ground arith

group_procurements-conserves_example :
    (r : Groups) × (group_procurements_by_orders (setting 0) procs (1 ∷ 2 ∷ 3 ∷ []) [] 50 ≡ some r)
    × ((i : ℕ)
        → times i r.not_assigned + in_lines i r.dict_lines_to_create ≡ times i (1 ∷ 2 ∷ 3 ∷ []))
group_procurements-conserves_example =
    group_procurements-conserves (setting 0) procs (1 ∷ 2 ∷ 3 ∷ []) [] 50 (reaches 0) once once

-- The only order has a line, and the later procurement stays although the order is open for it.
abbrev full : Groups
full = record {
  orders = record { id = 50; place = place; date_order = some 0; date_order_max = none } ∷ [];
  next_order_id = 51;
  dict_lines_to_create = record { order_id = 50; product_id = 4; procurement_ids = 9 ∷ [] } ∷ [];
  not_assigned = 1 ∷ 2 ∷ 3 ∷ [];
  nb_draft_orders = 1;
}

left_over : List ℕ
left_over =
    (group_round (setting 1) (proc 1 4 1)
      (get_purchase_line_procurements (setting 1) (proc 1 4 1) procs 86400) full).0.not_assigned

stays : left_over ≡ 3 ∷ []
unfolding left_over
stays = refl

group_product_ends_at_limit_example :
    group_product (setting 1) 3 procs full
    ≡ some
        (group_round
          (setting 1)
          (proc 1 4 1)
          (get_purchase_line_procurements
            (setting 1)
            (proc 1 4 1)
            procs
            (get_purchase_date (setting 1) (proc 1 4 1)))
          full).0
group_product_ends_at_limit_example =
    group_product_ends_at_limit (setting 1) (reaches 1) 2 (proc 1 4 1)
      (proc 2 3 2 ∷ proc 3 9 20 ∷ []) full (omega arith) refl has_its_line
  where
    has_its_line :
        (order : DraftOrder)
        → some (record { id = 50; place = place; date_order = some 0; date_order_max = none })
          ≡ some order
        → has_line full order ≡ true
    has_its_line order e =
        ap (λ o. elim o as (λ x. Bool) [ none ↦ true | some found ↦ has_line full found ]) (sym e)
