-- ===== src/PurchaseJit/Links/Tests.antt =====
-- Two lines and three procurements: one changes its line, one loses it and one gets one.
use odoo_addons.Base.{
  true, ◌==◌, ℕ, ◌≡◌, refl, sym, Option, none, some, List, [], ◌∷◌, same_id, mem, In, here, there,
}
use odoo_addons.StockJit.Tables.{ProcState}
use odoo_addons.PurchaseJit.Assignment.{Procurement, Entry}
use odoo_addons.PurchaseJit.Links.{
  redistribute_procurements_in_lines, prepare_procurements_redistribution,
}
use odoo_addons.PurchaseJit.Links.Redistribution.{IsFor, redistribute-places}

abbrev proc : ℕ → ProcState → Option ℕ → Procurement
proc id state line_id = record {
  id = id;
  product_id = 3;
  product_qty = 5;
  product_uom = 1;
  date_planned = 20;
  state = state;
  purchase_line_id = line_id;
}

abbrev db : List Procurement
db =
    proc 1 ProcState.running (some 7)
    ∷ proc 2 ProcState.running (some 8)
    ∷ proc 3 ProcState.confirmed none
    ∷ []

abbrev entry : ℕ → List ℕ → Entry
entry line ids = record { order_id = 5; line_id = line; procurement_ids = ids }

abbrev entries : List Entry
entries = entry 7 (3 ∷ []) ∷ entry 8 (1 ∷ []) ∷ []

redistributed :
    redistribute_procurements_in_lines
      (7 ∷ 8 ∷ [])
      entries
      (prepare_procurements_redistribution entries db)
    ≡ proc 1 ProcState.running (some 8)
      ∷ proc 2 ProcState.buy_to_run none
      ∷ proc 3 ProcState.running (some 7)
      ∷ []
redistributed = refl

first_listed : IsFor 1 8 entries
first_listed e (here q) = rw (sym q) refl
first_listed e (there (here q)) = rw (sym q) refl
first_listed e (there (there m)) = elim m [ ]

all_there : (e : Entry) → In e entries → mem e.line_id (7 ∷ 8 ∷ []) ≡ true
all_there e (here q) = rw (sym q) refl
all_there e (there (here q)) = rw (sym q) refl
all_there e (there (there m)) = elim m [ ]

redistribute-places_example :
    (q : Procurement) × In q (
      redistribute_procurements_in_lines
        (7 ∷ 8 ∷ [])
        entries
        (prepare_procurements_redistribution entries db))
    × (q.id ≡ 1)
    × (same_id q.purchase_line_id (some 8) ≡ (8 == 8))
redistribute-places_example =
    redistribute-places (7 ∷ 8 ∷ []) entries db 8 {p = proc 1 ProcState.running (some 7)}
      (entry 8 (1 ∷ [])) (here refl) first_listed all_there (there (here refl))
