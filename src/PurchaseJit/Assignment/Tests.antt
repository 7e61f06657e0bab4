-- ===== src/PurchaseJit/Assignment/Tests.antt =====
-- A draft line that lacks six units, procurements of four and of five, and one that is done.
use odoo_addons.Base.{
  ℕ, ◌+◌, ◌≡◌, refl, false, Option, none, some, List, [], ◌∷◌, same_id, mem, arith, Bool-cases, inl,
  inr, if◌then◌else◌,
}
use odoo_addons.Base.Count.{times}
use odoo_addons.StockJit.Levels.Sort.{sort_by, insert_by}
use odoo_addons.StockJit.Tables.{ProcState}
use odoo_addons.PurchaseJit.Assignment.{
  OrderState, Line, Procurement, closed_ids, order_lines_query, get_dict_ordered_procs_by_product,
  take_procs, compute_procs_for_first_line_found, assign_lines, assign_product, assign_products,
  compute_which_procs_for_lines,
}
use odoo_addons.PurchaseJit.Assignment.Prefix.{FillsLine, take_procs-FillsLine}
use odoo_addons.PurchaseJit.Assignment.Conservation.{in_entries, compute_which_procs-conserves}

abbrev same_uom : ℕ → ℕ → ℕ → ℕ
same_uom from qty to = qty

abbrev line : Line
line = record {
  id = 7;
  order_id = 5;
  order_state = OrderState.draft;
  company_id = 1;
  location_id = 2;
  product_id = 3;
  product_uom = 1;
  remaining_qty = 6;
  date_planned = 20;
}

abbrev proc : ℕ → ℕ → ProcState → Option ℕ → Procurement
proc id qty state line_id = record {
  id = id;
  product_id = 3;
  product_qty = qty;
  product_uom = 1;
  date_planned = 20 + id;
  state = state;
  purchase_line_id = line_id;
}

abbrev procs : List Procurement
procs = proc 1 4 ProcState.confirmed none ∷ proc 2 5 ProcState.confirmed none ∷ []

abbrev db : List Procurement
db = proc 3 9 ProcState.done (some 7) ∷ procs

-- The line takes the first procurement and a part of the second, of which the rest is left.
assigned :
    let after = compute_which_procs_for_lines same_uom db (line ∷ []) 1 2 (2 ∷ 1 ∷ []) 100 in
    (after.0 ≡ 2 ∷ [])
    × (after.1.dict_procs_lines
        ≡ record { order_id = 5; line_id = 7; procurement_ids = 3 ∷ 1 ∷ 100 ∷ [] } ∷ [])
    × (after.1.splits ≡ record { split_from_id = 2; new_id = 100; product_qty = 2 } ∷ [])
unfolding compute_which_procs_for_lines assign_products assign_product assign_lines
    compute_procs_for_first_line_found take_procs order_lines_query
    get_dict_ordered_procs_by_product sort_by insert_by
assigned = (refl, refl, refl)

take_procs-FillsLine_example :
    FillsLine same_uom db line 6 100 procs (take_procs same_uom db line 6 100 procs)
take_procs-FillsLine_example = take_procs-FillsLine same_uom db line 6 100 procs

is_open : (i : ℕ) → (i ≡ 1) → (k : ℕ) → mem i (closed_ids db k) ≡ false
is_open i e k = elim (Bool-cases (same_id (some 7) (some k))) [
  | inl t ↦ rw e rw t refl
  | inr t ↦ rw e rw t refl
]

compute_which_procs-conserves_example :
    let after = compute_which_procs_for_lines same_uom db (line ∷ []) 1 2 (2 ∷ 1 ∷ []) 100 in
    times 1 after.0 + in_entries 1 after.1.dict_procs_lines ≡ (if mem 1 (2 ∷ 1 ∷ []) then 1 else 0)
compute_which_procs-conserves_example =
    compute_which_procs-conserves same_uom db (line ∷ []) 1 2 (2 ∷ 1 ∷ []) 100 1 (is_open 1 refl)
      (omega arith) refl
