-- ===== src/PurchaseJit/Assignment.antt =====
-- purchase_procurement_just_in_time/models/procurement.py: `compute_procs_for_first_line_found` and
-- `compute_which_procs_for_lines`.
--
-- The splits of procurements (stock_procurement_split) are a list of what each takes from which
-- procurement, and new procurements get the next free identifiers. `Prefix` shows what one line
-- takes, `Conservation` that no procurement is lost or taken twice, `Entries` which lines get some.
pub mod Prefix
pub mod Conservation
pub mod Entries
pub mod Rest
mod Tests
use odoo_addons.Base.{
  ℕ, zero, suc, ◌+◌, ◌-◌, Bool, true, false, not, ◌&&◌, ◌||◌, Option, none, some, List, [], ◌∷◌,
  ◌++◌, map, ltb, leb, ◌==◌, same_id, if◌then◌else◌, keep, mem,
}
use odoo_addons.StockJit.Levels.Sort.{sort_by}
use odoo_addons.StockJit.Tables.{ProcState}

pub data OrderState : Type 0 where
  draft sent confirmed approved except_picking except_invoice done cancel : OrderState

-- A row of `purchase_order_line` with what the query joins of its order.
pub record Line : Type 0 where
  pub id : ℕ
  pub order_id : ℕ
  pub order_state : OrderState
  pub company_id : ℕ
  pub location_id : ℕ
  pub product_id : ℕ
  pub product_uom : ℕ
  pub remaining_qty : ℕ
  pub date_planned : ℕ

-- A row of `procurement_order`.
pub record Procurement : Type 0 where
  pub id : ℕ
  pub product_id : ℕ
  pub product_qty : ℕ
  pub product_uom : ℕ
  pub date_planned : ℕ
  pub state : ProcState
  pub purchase_line_id : Option ℕ

-- `old_proc.split(qty)`: the new procurement takes `qty` from the old one.
pub record Split : Type 0 where
  pub split_from_id : ℕ
  pub new_id : ℕ
  pub product_qty : ℕ

-- What the loop over the procurements leaves: the identifiers for the line, the procurements, of
-- which one may be split, and the quantity that the line still lacks.
pub record Taken : Type 0 where
  pub ids : List ℕ
  pub procurements : List Procurement
  pub remaining_qty : ℕ
  pub splits : List Split
  pub next_id : ℕ

abbrev pub is_closed : ProcState → Bool
is_closed ProcState.done = true
is_closed ProcState.cancel = true
is_closed ProcState.confirmed = false
is_closed ProcState.exception = false
is_closed ProcState.running = false
is_closed ProcState.buy_to_run = false

-- `state in ['done', 'cancel']` of the procurements that are linked to the line
abbrev pub closed_ids : List Procurement → ℕ → List ℕ
closed_ids db line =
    map (λ p. p.id) (keep (λ p. same_id p.purchase_line_id (some line) && is_closed p.state) db)

-- The entries of `dict_procs_lines`: order, line and procurements.
pub record Entry : Type 0 where
  pub order_id : ℕ
  pub line_id : ℕ
  pub procurement_ids : List ℕ

abbrev pub add_entry : Line → List ℕ → List Entry → List Entry
add_entry line ids [] =
    record { order_id = line.order_id; line_id = line.id; procurement_ids = ids } ∷ []
add_entry line ids (e ∷ es) =
    let rest = add_entry line ids es in
    if e.order_id == line.order_id && e.line_id == line.id
    then record e { procurement_ids = e.procurement_ids ++ ids } ∷ es
    else e ∷ rest

-- `forbidden_order_states`
abbrev pub is_forbidden : OrderState → Bool
is_forbidden OrderState.done = true
is_forbidden OrderState.cancel = true
is_forbidden OrderState.draft = false
is_forbidden OrderState.sent = false
is_forbidden OrderState.confirmed = false
is_forbidden OrderState.approved = false
is_forbidden OrderState.except_picking = false
is_forbidden OrderState.except_invoice = false

abbrev pub is_draft_order : OrderState → Bool
is_draft_order OrderState.draft = true
is_draft_order OrderState.done = false
is_draft_order OrderState.cancel = false
is_draft_order OrderState.sent = false
is_draft_order OrderState.confirmed = false
is_draft_order OrderState.approved = false
is_draft_order OrderState.except_picking = false
is_draft_order OrderState.except_invoice = false

-- `pol.date_planned ASC, pol.remaining_qty DESC`
abbrev pub line_order : Line → Line → Bool
line_order a b =
    ltb a.date_planned b.date_planned
    || a.date_planned == b.date_planned && leb b.remaining_qty a.remaining_qty

-- `ORDER_LINES_QUERY`, for draft orders or for the others.
pub order_lines_query : List Line → Bool → ℕ → ℕ → ℕ → List Line
unfolding sort_by
order_lines_query lines drafts company location product = sort_by line_order (
    keep
      (λ l.
        not (is_forbidden l.order_state)
        && ltb 0 l.remaining_qty
        && l.company_id == company
        && l.location_id == location
        && l.product_id == product
        && (if drafts then is_draft_order l.order_state else not (is_draft_order l.order_state)))
      lines)

abbrev pub product_order : Procurement → Procurement → Bool
product_order a b =
    ltb a.date_planned b.date_planned
    || a.date_planned == b.date_planned && leb a.product_qty b.product_qty

abbrev pub add_product : Procurement → List (ℕ × List Procurement) → List (ℕ × List Procurement)
add_product p [] = (p.product_id, p ∷ []) ∷ []
add_product p ((k, ps) ∷ groups) =
    let rest = add_product p groups in
    if k == p.product_id then (k, ps ++ (p ∷ [])) ∷ groups else (k, ps) ∷ rest

abbrev pub by_product : List (ℕ × List Procurement) → List Procurement → List (ℕ × List Procurement)
by_product groups [] = groups
by_product groups (p ∷ ps) = by_product (add_product p groups) ps

-- `get_dict_ordered_procs_by_product`
pub get_dict_ordered_procs_by_product :
    List Procurement → (Procurement → Procurement → Bool) → List ℕ → List (ℕ × List Procurement)
unfolding sort_by
get_dict_ordered_procs_by_product db order procurement_ids =
    by_product [] (sort_by order (keep (λ p. mem p.id procurement_ids) db))

-- The variables that the assignment carries from line to line.
pub record Assigned : Type 0 where
  pub procurements : List Procurement
  pub dict_procs_lines : List Entry
  pub splits : List Split
  pub next_id : ℕ

module _ (compute_qty : ℕ → ℕ → ℕ → ℕ) (db : List Procurement) where
  -- The loop over the procurements: the quantity is what the line still lacks, in its unit.
  pub take_procs : Line → ℕ → ℕ → List Procurement → Taken
  take_procs line remaining next [] = record {
    ids = [];
    procurements = [];
    remaining_qty = remaining;
    splits = [];
    next_id = next;
  }
  take_procs line remaining next (p ∷ ps) =
      let proc_qty = compute_qty p.product_uom p.product_qty line.product_uom in
      let t = take_procs line (remaining - proc_qty) next ps in
      let whole : Taken = record t { ids = p.id ∷ t.ids; procurements = p ∷ t.procurements } in
      let part = compute_qty line.product_uom remaining p.product_uom in
      if leb proc_qty remaining
      then whole
      else if ltb 0 remaining
      then record {
        ids = next ∷ [];
        procurements = record p { product_qty = p.product_qty - part } ∷ ps;
        remaining_qty = 0;
        splits = record { split_from_id = p.id; new_id = next; product_qty = part } ∷ [];
        next_id = suc next;
      }
      else record {
        ids = [];
        procurements = p ∷ ps;
        remaining_qty = remaining;
        splits = [];
        next_id = next;
      }

  -- `compute_procs_for_first_line_found`
  pub compute_procs_for_first_line_found : Line → Assigned → Assigned
  compute_procs_for_first_line_found line a =
      let t = take_procs line line.remaining_qty a.next_id a.procurements in
      let ids = closed_ids db line.id ++ t.ids in
      record {
        procurements = keep (λ p. not (mem p.id ids)) t.procurements;
        dict_procs_lines = add_entry line ids a.dict_procs_lines;
        splits = a.splits ++ t.splits;
        next_id = t.next_id;
      }

  -- `while corresponding_procurements and purchase_line_ids`
  pub assign_lines : List Line → Assigned → Assigned
  assign_lines [] a = a
  assign_lines (line ∷ lines) a =
      let rest = assign_lines lines (compute_procs_for_first_line_found line a) in
      elim a.procurements [ [] ↦ a | p ∷ ps ↦ rest ]

  module _ (lines : List Line) (company location : ℕ) where
    -- The body of the loop over the products: the lines that run, then those of drafts.
    pub assign_product : ℕ → Assigned → Assigned
    unfolding order_lines_query
    assign_product product a =
        assign_lines (order_lines_query lines true company location product)
          (assign_lines (order_lines_query lines false company location product) a)

    abbrev pub not_assigned : Assigned → List ℕ
    not_assigned a = map (λ p. p.id) a.procurements

    pub assign_products : List (ℕ × List Procurement) → Assigned → List ℕ × Assigned
    assign_products [] a = ([], a)
    assign_products ((product, procs) ∷ rest) a =
        let first = assign_product product (record a { procurements = procs }) in
        let others = assign_products rest first in (not_assigned first ++ others.0, others.1)

    -- `compute_which_procs_for_lines`: the procurements that no line takes, and the assignment.
    pub compute_which_procs_for_lines : List ℕ → ℕ → List ℕ × Assigned
    unfolding get_dict_ordered_procs_by_product
    compute_which_procs_for_lines procurement_ids next_id =
        assign_products (get_dict_ordered_procs_by_product db product_order procurement_ids)
          (record { procurements = []; dict_procs_lines = []; splits = []; next_id = next_id })
