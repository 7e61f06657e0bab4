-- ===== src/PurchaseJit/Grouping.antt =====
-- purchase_procurement_just_in_time/models/procurement.py: `group_procurements_by_orders` and what
-- it calls.
--
-- Dates are seconds. The dates of a procurement and of the period of its supplier, which depend on
-- calendars, the conversion of units, the least quantity of a supplier (0 for none) and the place of
-- a procurement are parameters. The loop over a product takes fuel; `none` is the loop that goes on.
pub mod Conservation
pub mod Rounds
pub mod Limit
pub mod Filled
mod Tests
use odoo_addons.Base.{
  ℕ, zero, suc, ◌+◌, ◌-◌, ◌*◌, ◌%◌, Bool, true, false, not, ◌&&◌, ◌||◌, Option, none, some, List,
  [], ◌∷◌, ◌++◌, map, same_id, is_some, if◌then◌else◌, keep, mem, any, ltb, leb, length, ◌==◌,
}
use odoo_addons.PurchaseJit.Assignment.{Procurement, get_dict_ordered_procs_by_product}

-- What `get_corresponding_draft_order_main_domain` compares.
pub record Place : Type 0 where
  pub picking_type_id : ℕ
  pub location_id : ℕ
  pub company_id : ℕ
  pub partner_dest_id : Option ℕ

-- A draft order of the seller; an order without dates is in no search by dates.
pub record DraftOrder : Type 0 where
  pub id : ℕ
  pub place : Place
  pub date_order : Option ℕ
  pub date_order_max : Option ℕ

pub record NewLine : Type 0 where
  pub order_id : ℕ
  pub product_id : ℕ
  pub procurement_ids : List ℕ

-- The variables that the loops change, and the orders of the database.
pub record Groups : Type 0 where
  pub orders : List DraftOrder
  pub next_order_id : ℕ
  pub dict_lines_to_create : List NewLine
  pub not_assigned : List ℕ
  pub nb_draft_orders : ℕ

abbrev main_domain : Place → DraftOrder → Bool
main_domain place order =
    order.place.picking_type_id == place.picking_type_id
    && order.place.location_id == place.location_id
    && order.place.company_id == place.company_id
    && (if is_some place.partner_dest_id
        then same_id order.place.partner_dest_id place.partner_dest_id
        else true)

abbrev pub day_start : ℕ → ℕ
day_start date = date - date % 86400

abbrev starts_until : Option ℕ → ℕ → Bool
starts_until none date = false
starts_until (some d) date = leb d (day_start date + 86399)

abbrev ends_after : Option ℕ → ℕ → Bool
ends_after none date = true
ends_after (some d) date = ltb (day_start date) d

abbrev is_available : Place → ℕ → DraftOrder → Bool
is_available place purchase_date order =
    main_domain place order
    && starts_until order.date_order purchase_date
    && ends_after order.date_order_max purchase_date

abbrev pub first_of : {A : Type 0} → List A → Option A
first_of [] = none
first_of (x ∷ xs) = some x

abbrev is_dated : DraftOrder → Bool
is_dated order = is_some order.date_order && is_some order.date_order_max

-- The search and the creation, with the two flags of the context.
abbrev pub get_corresponding_draft_order :
    (ℕ → ℕ × ℕ) → ℕ → Place → Bool → Bool → ℕ → Groups → Option DraftOrder × Groups
get_corresponding_draft_order period nb_max place force_creation forbid_creation purchase_date g =
    let allowed_creation = nb_max == 0 || ltb (length (keep is_dated g.orders)) nb_max in
    let dates = period purchase_date in
    let order : DraftOrder = record {
      id = g.next_order_id;
      place = place;
      date_order = some dates.0;
      date_order_max = some dates.1;
    } in
    let created : Option DraftOrder × Groups =
      if (allowed_creation || force_creation) && not forbid_creation
      then (
        some order,
        record g { orders = g.orders ++ (order ∷ []); next_order_id = suc g.next_order_id },
      )
      else (none, g) in
    elim (if force_creation
      then none
      else first_of (keep (is_available place purchase_date) g.orders)) [
        | some found ↦ (some found, g)
        | none ↦ created
      ]

-- `create_nb_max_draft_orders`: each order begins a day after the end of the one before.
abbrev pub create_nb_max_draft_orders : (ℕ → ℕ × ℕ) → Place → ℕ → ℕ → ℕ → Groups → Groups
create_nb_max_draft_orders period place nb_max zero ref_date g = g
create_nb_max_draft_orders period place nb_max (suc n) ref_date g =
    create_nb_max_draft_orders period place nb_max n ((period ref_date).1 + 86400)
      (get_corresponding_draft_order period nb_max place true false ref_date g).1

abbrev pub add_line : ℕ → ℕ → List ℕ → List NewLine → List NewLine
add_line order_id product_id ids [] =
    record { order_id = order_id; product_id = product_id; procurement_ids = ids } ∷ []
add_line order_id product_id ids (l ∷ ls) =
    let rest = add_line order_id product_id ids ls in
    if l.order_id == order_id && l.product_id == product_id
    then record l { procurement_ids = l.procurement_ids ++ ids } ∷ ls
    else l ∷ rest

-- `self - others` of recordsets.
abbrev pub without : List ℕ → List ℕ → List ℕ
without ids others = keep (λ i. not (mem i others)) ids

abbrev pub is_empty : List ℕ → Bool
is_empty [] = true
is_empty (x ∷ xs) = false

-- What the grouping reads of its supplier, of products and of the settings.
pub record Setting : Type 0 where
  pub compute_qty : ℕ → ℕ → ℕ → ℕ
  pub uom_of : ℕ → ℕ
  pub moq_of : ℕ → ℕ
  pub period_end : Procurement → ℕ → Option ℕ
  pub schedule_date : Procurement → ℕ
  pub order_date : Procurement → ℕ → ℕ
  pub place_of : Procurement → Place
  pub period : ℕ → ℕ × ℕ
  pub date_ref : ℕ
  pub nb_max : ℕ

module _ (s : Setting) where
  abbrev pub qty_of : Procurement → Procurement → ℕ
  qty_of first p = s.compute_qty p.product_uom p.product_qty (s.uom_of first.product_id)

  abbrev pub line_qty : Procurement → List Procurement → ℕ
  line_qty first [] = 0
  line_qty first (p ∷ ps) = qty_of first p + line_qty first ps

  -- The loop of `add_procs_to_reach_moq`.
  abbrev pub reach_moq : Procurement → ℕ → ℕ → List Procurement → List Procurement
  reach_moq first moq qty [] = []
  reach_moq first moq qty (p ∷ ps) =
      let rest = reach_moq first moq (qty + qty_of first p) ps in
      if ltb moq (qty + qty_of first p) then [] else p ∷ rest

  abbrev pub add_procs_to_reach_moq :
      Procurement → List Procurement → List Procurement → List Procurement
  add_procs_to_reach_moq first in_period after_period =
      let moq = s.moq_of first.product_id in
      let qty = line_qty first in_period in
      let added = reach_moq first moq qty after_period in
      if ltb 0 moq && ltb qty moq then in_period ++ added else in_period

  abbrev pub until : Option ℕ → List Procurement → List Procurement
  until none procs = procs
  until (some end_date) procs = keep (λ p. leb p.date_planned end_date) procs

  -- `get_purchase_line_procurements`, for procurements of which `first` is the first.
  abbrev pub get_purchase_line_procurements : Procurement → List Procurement → ℕ → List ℕ
  get_purchase_line_procurements first procs purchase_date =
      let in_period = until (s.period_end first purchase_date) procs in
      let after_period = keep (λ p. not (mem p.id (map (λ x. x.id) in_period))) procs in
      map (λ p. p.id) (add_procs_to_reach_moq first in_period after_period)

  abbrev pub get_purchase_date : Procurement → ℕ
  get_purchase_date first =
      let date = s.schedule_date first in
      let ordered = s.order_date first date in
      if leb date s.date_ref
      then s.date_ref
      else if ltb ordered s.date_ref
      then s.date_ref
      else ordered

  -- A line for the procurements in an order.
  abbrev pub assign_to : DraftOrder → ℕ → List ℕ → Groups → Groups
  assign_to order product_id ids g =
      let is_known = any (λ l. l.order_id == order.id) g.dict_lines_to_create in
      record g {
        dict_lines_to_create = add_line order.id product_id ids g.dict_lines_to_create;
        not_assigned = without g.not_assigned ids;
        nb_draft_orders = if is_known then g.nb_draft_orders else suc g.nb_draft_orders;
      }

  -- The end of a round, for the order that was found: the groups, and whether the product is left.
  abbrev pub end_round : Option DraftOrder → ℕ → List ℕ → Groups → Groups × Bool
  end_round none product_id ids g = (g, ltb 0 s.nb_max)
  end_round (some order) product_id ids g =
      let g' = assign_to order product_id ids g in
      if is_empty ids then (g, false) else (g', ltb 0 s.nb_max && g'.nb_draft_orders == s.nb_max)

  -- The body of the loop over the procurements of a product.
  abbrev pub group_round : Procurement → List ℕ → Groups → Groups × Bool
  group_round first ids g =
      let found =
        get_corresponding_draft_order s.period s.nb_max (s.place_of first) false (ltb 0 s.nb_max)
          (get_purchase_date first) g in
      end_round found.0 first.product_id ids found.1

  -- `while procurement_dicts`
  unfoldable pub group_product : ℕ → List Procurement → Groups → Option Groups
  group_product n [] g = some g
  group_product zero (p ∷ ps) g = none
  group_product (suc n) (p ∷ ps) g =
      let ids = get_purchase_line_procurements p (p ∷ ps) (get_purchase_date p) in
      let round = group_round p ids g in
      group_product n (if round.1 then [] else keep (λ x. not (mem x.id ids)) (p ∷ ps)) round.0

  abbrev pub group_products : List (ℕ × List Procurement) → Groups → Option Groups
  group_products [] g = some g
  group_products ((product, procs) ∷ rest) g = elim (group_product (length procs) procs g) [
    | none ↦ none
    | some g' ↦ group_products rest g'
  ]

  abbrev pub group_order : Procurement → Procurement → Bool
  group_order a b =
      ltb a.date_planned b.date_planned
      || a.date_planned == b.date_planned
        && (ltb a.product_qty b.product_qty || a.product_qty == b.product_qty && leb a.id b.id)

  -- `group_procurements_by_orders`, of the procurements with these identifiers.
  pub group_procurements_by_orders : List Procurement → List ℕ → List DraftOrder → ℕ → Option Groups
  group_procurements_by_orders db ids orders next_order_id =
      group_products (get_dict_ordered_procs_by_product db group_order ids) (record {
        orders = orders;
        next_order_id = next_order_id;
        dict_lines_to_create = [];
        not_assigned = ids;
        nb_draft_orders = 0;
      })
