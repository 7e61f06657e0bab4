-- ===== src/PurchaseJit/Schedule.antt =====
-- purchase_procurement_just_in_time/models/procurement.py: `purchase_schedule_procurements`, which
-- composes the assignment, the grouping and the redistribution, with what it calls between them, and
-- `split` of stock_procurement_split/stock_procurement_split.py.
--
-- The supplier of a product in the company, the first dates of a purchase and the first possible
-- delivery of a product, which depend on calendars, are parameters, as are the products that have
-- suppliers besides a given one. Of a new line, the order and the product are kept.
pub mod Splits
pub mod NewLines
pub mod Relinking
pub mod Following
pub mod Placing
mod Tests
use odoo_addons.Base.{
  ℕ, suc, ◌+◌, ◌-◌, Bool, true, false, not, ◌&&◌, Option, none, some, List, [], ◌∷◌, ◌++◌, map,
  same_id, if◌then◌else◌, keep, mem, any, length, ltb, ◌==◌,
}
use odoo_addons.StockJit.Tables.{ProcState}
use odoo_addons.PurchaseJit.Assignment.{
  Line, Procurement, Split, Entry, by_product, compute_which_procs_for_lines,
}
use odoo_addons.PurchaseJit.Grouping.{
  Place, DraftOrder, NewLine, Groups, Setting, without, is_empty, create_nb_max_draft_orders,
  group_procurements_by_orders,
}
use odoo_addons.PurchaseJit.Links.{
  write_if, add_link, remove_procs_from_lines, prepare_procurements_redistribution,
  redistribute_procurements_in_lines, Launched, launch_procurement_redistribution,
}

-- A line that `create_draft_lines` creates.
pub record DraftLine : Type 0 where
  pub id : ℕ
  pub order_id : ℕ
  pub product_id : ℕ

pub record Purchases : Type 0 where
  pub procurements : List Procurement
  pub lines : List Line
  pub orders : List DraftOrder
  pub new_lines : List DraftLine
  pub next_id : ℕ
  pub next_order_id : ℕ
  pub next_line_id : ℕ

-- The supplier, the settings and what is read of other tables.
pub record Buying : Type 0 where
  pub setting : Setting
  pub company_of : ℕ → ℕ
  pub location_of : ℕ → ℕ
  pub supplier_of : ℕ → Option ℕ
  pub has_other_supplier : ℕ → ℕ → Bool
  pub has_group_period : Bool
  pub ignore_past_procurements : Bool
  pub min_draft_procurements_date : ℕ → ℕ
  pub first_purchase_dates : List ℕ → List (Place × ℕ)
  pub jobify : Bool
  pub redistribute_in_separate_jobs : Bool
  pub fill_orders_in_separate_jobs : Bool

-- The jobs that are put: one for each order to redistribute, and one for the first order to fill,
-- with the lines of the orders that it goes on with.
pub record Jobs : Type 0 where
  pub redistribute : List (List Entry)
  pub fill_job : Option (List NewLine × List NewLine)

pub data Outcome : Type 0 where
  nothing_to_do : Outcome
  not_same_company not_same_location not_same_seller endless index_error : Outcome
  scheduled : Purchases → Jobs → Outcome

abbrev pub split_copies : Split → List Procurement → List Procurement
split_copies s db =
    map {A = Procurement} {B = Procurement}
      (λ p. record p { id = s.new_id; product_qty = s.product_qty })
      (keep (λ p. p.id == s.split_from_id) db)

-- `split`, with the state of the procurement that is split.
abbrev pub split_procurement : Split → List Procurement → List Procurement
split_procurement s db =
    write_if (λ p. p.id == s.split_from_id)
      (λ p. record p { product_qty = p.product_qty - s.product_qty }) db
    ++ split_copies s db

abbrev pub split_procurements : List Split → List Procurement → List Procurement
split_procurements [] db = db
split_procurements (s ∷ ss) db = split_procurements ss (split_procurement s db)

-- The value that all items of a list have, if it has any.
abbrev pub same_value : List ℕ → Option ℕ
same_value [] = none
same_value (x ∷ xs) = if any (λ y. not (y == x)) xs then none else some x

-- `create_draft_lines`: the lines and the procurements, or nothing when a line has no procurement,
-- which the index of the last one does not allow.
abbrev pub create_draft_lines :
    ℕ → List NewLine → List Procurement → Option (List DraftLine × List Procurement)
create_draft_lines next [] db = some ([], db)
create_draft_lines next (l ∷ ls) db =
    let rest =
      create_draft_lines (suc next) ls
        (write_if (λ p. mem p.id l.procurement_ids) (add_link next) db) in
    let line : DraftLine = record { id = next; order_id = l.order_id; product_id = l.product_id } in
    if any (λ p. mem p.id l.procurement_ids) db
    then elim rest as (λ x. Option (List DraftLine × List Procurement)) [
      | none ↦ none
      | some r ↦ some (line ∷ r.0, r.1)
    ]
    else none

-- The products of procurements, each once.
abbrev pub products_of : List ℕ → List Procurement → List ℕ
products_of ids db = map (λ g. g.0) (by_product [] (keep (λ p. mem p.id ids) db))

module _ (b : Buying) where
  abbrev pub is_of_other_seller : ℕ → Procurement → Bool
  is_of_other_seller seller p =
      b.has_other_supplier p.product_id seller
      && not (same_id (b.supplier_of p.product_id) (some seller))

  -- `check_procs_same_sellers`
  abbrev pub check_procs_same_sellers : ℕ → List ℕ → List Procurement → Bool
  check_procs_same_sellers seller ids db =
      not (any (λ p. mem p.id ids && is_of_other_seller seller p) db)

  abbrev pub remove_past_of : List ℕ → List Procurement → List ℕ → List ℕ
  remove_past_of [] db ids = ids
  remove_past_of (product ∷ products) db ids =
      let past =
        keep (λ p. mem p.id ids && ltb p.date_planned (b.min_draft_procurements_date product)) db in
      remove_past_of products db (without ids (map (λ p. p.id) past))

  -- `remove_past_procurements_if_needed`
  abbrev pub remove_past_procurements_if_needed : List Procurement → List ℕ → List ℕ
  remove_past_procurements_if_needed db ids =
      if b.ignore_past_procurements then remove_past_of (products_of ids db) db ids else ids

  abbrev pub create_orders : List (Place × ℕ) → Groups → Groups
  create_orders [] g = g
  create_orders ((place, date) ∷ rest) g =
      create_orders rest
        (create_nb_max_draft_orders b.setting.period place b.setting.nb_max b.setting.nb_max date g)

  -- The draft orders that there are before the grouping.
  abbrev pub create_draft_orders : List ℕ → List DraftOrder → ℕ → Groups
  create_draft_orders ids orders next_order_id =
      let g : Groups = record {
        orders = orders;
        next_order_id = next_order_id;
        dict_lines_to_create = [];
        not_assigned = [];
        nb_draft_orders = 0;
      } in
      if ltb 0 b.setting.nb_max && b.has_group_period && not (is_empty ids)
      then create_orders (b.first_purchase_dates ids) g
      else g

  -- `launch_draft_lines_creation`
  abbrev pub launch_draft_lines_creation : List NewLine → Jobs → Purchases → Outcome
  launch_draft_lines_creation [] jobs st = Outcome.scheduled st jobs
  launch_draft_lines_creation (l ∷ ls) jobs st =
      if b.jobify && b.fill_orders_in_separate_jobs
      then Outcome.scheduled st (record jobs {
        fill_job = some (
          keep (λ x. x.order_id == l.order_id) (l ∷ ls),
          keep (λ x. not (x.order_id == l.order_id)) (l ∷ ls),
        );
      })
      else elim (create_draft_lines st.next_line_id (l ∷ ls) st.procurements) [
        | none ↦ Outcome.index_error
        | some r ↦
            Outcome.scheduled
              (record st {
                procurements = r.1;
                new_lines = st.new_lines ++ r.0;
                next_line_id = st.next_line_id + length r.0;
              })
              jobs
      ]

  -- The new lines, after the redistribution or after its jobs are put.
  abbrev pub fill_orders : List NewLine → Purchases → Launched → Outcome
  fill_orders ls st (Launched.jobs js) =
      launch_draft_lines_creation ls (record { redistribute = js; fill_job = none }) st
  fill_orders ls st (Launched.redistributed after) =
      launch_draft_lines_creation ls (record { redistribute = []; fill_job = none })
        (record st { procurements = after })

  -- From the grouping to the new lines.
  abbrev pub link_procurements : List Entry → Groups → Purchases → Outcome
  link_procurements entries g st =
      let db =
        prepare_procurements_redistribution entries
          (remove_procs_from_lines g.not_assigned st.procurements) in
      fill_orders g.dict_lines_to_create
        (record st { orders = g.orders; next_order_id = g.next_order_id; procurements = db })
        (launch_procurement_redistribution (map (λ l. l.id) st.lines) entries b.jobify
          b.redistribute_in_separate_jobs db)

  -- After the checks, for the company and the location of the procurements.
  pub schedule_checked : ℕ → ℕ → List ℕ → Purchases → Outcome
  schedule_checked company location ids st =
      let assignment =
        compute_which_procs_for_lines b.setting.compute_qty st.procurements st.lines company
          location ids st.next_id in
      let db = split_procurements assignment.1.splits st.procurements in
      let to_group = remove_past_procurements_if_needed db assignment.0 in
      let g = create_draft_orders to_group st.orders st.next_order_id in
      elim (group_procurements_by_orders b.setting db to_group g.orders g.next_order_id) [
        | none ↦ Outcome.endless
        | some grouped ↦
            link_procurements assignment.1.dict_procs_lines grouped
              (record st { procurements = db; next_id = assignment.1.next_id })
      ]

  -- The supplier of the first procurement that is given.
  abbrev pub seller_of : ℕ → List Procurement → Option ℕ
  seller_of id [] = none
  seller_of id (p ∷ ps) =
      let rest = seller_of id ps in if p.id == id then b.supplier_of p.product_id else rest

  abbrev pub check_seller : Option ℕ → List ℕ → List Procurement → Bool
  check_seller none ids db = false
  check_seller (some seller) ids db = check_procs_same_sellers seller ids db

  -- The checks in their order, for the company, the location and the test of the seller.
  abbrev pub schedule_if : Option ℕ → Option ℕ → Bool → List ℕ → Purchases → Outcome
  schedule_if none location same_seller ids st = Outcome.not_same_company
  schedule_if (some company) none same_seller ids st = Outcome.not_same_location
  schedule_if (some company) (some location) false ids st = Outcome.not_same_seller
  schedule_if (some company) (some location) true ids st = schedule_checked company location ids st

  -- `purchase_schedule_procurements`
  abbrev pub purchase_schedule_procurements : List ℕ → Purchases → Outcome
  purchase_schedule_procurements [] st = Outcome.nothing_to_do
  purchase_schedule_procurements (id ∷ ids) st =
      schedule_if (same_value (map b.company_of (id ∷ ids)))
        (same_value (map b.location_of (id ∷ ids)))
        (check_seller (seller_of id st.procurements) (id ∷ ids) st.procurements) (id ∷ ids) st
