-- ===== src/PurchaseJit/Scheduling.antt =====
-- purchase_procurement_just_in_time/models: `launch_purchase_schedule` and
-- `launch_purchase_schedule_seller` of procurement.py, and `launch_purchase_scheduler_by_supplier` of
-- partner.py.
--
-- The first possible delivery of a product, which depends on calendars, is a parameter. The loops take
-- fuel; `none` is a loop that goes on.
pub mod Partition
mod Tests
use odoo_addons.Base.{
  ℕ, zero, suc, ◌+◌, ◌*◌, Bool, true, false, not, ◌&&◌, ◌||◌, Option, none, some, List, [], ◌∷◌,
  ◌++◌, map, same_id, is_some, if◌then◌else◌, keep, mem, any, ltb, leb, length, ◌==◌,
}
use odoo_addons.StockJit.Levels.Sort.{sort_by}
use odoo_addons.PurchaseJit.Assignment.{Line}
use odoo_addons.PurchaseJit.Lines.{is_with_moves}

pub record ToBuy : Type 0 where
  pub id : ℕ
  pub company_id : ℕ
  pub product_id : ℕ
  pub location_id : ℕ
  pub date_planned : ℕ
  pub purchase_line_id : Option ℕ
  pub is_active : Bool

-- An item of `dict_procs`.
pub record SellerGroup : Type 0 where
  pub company_id : ℕ
  pub location_id : ℕ
  pub procurements : List ToBuy

-- What the loop has done: exceptions, links removed for the past, and `dict_procs`.
pub record Plan : Type 0 where
  pub exceptions : List ℕ
  pub removed : List ℕ
  pub dict_procs : List SellerGroup

abbrev pub ids_of : List ToBuy → List ℕ
ids_of ps = map (λ p. p.id) ps

-- The domain of the procurements that go with the first one.
abbrev pub in_domain : ToBuy → ToBuy → Bool
in_domain first p =
    p.company_id == first.company_id
    && p.product_id == first.product_id
    && p.location_id == first.location_id

abbrev pub add_group : ToBuy → List ToBuy → List SellerGroup → List SellerGroup
add_group first ps [] =
    record { company_id = first.company_id; location_id = first.location_id; procurements = ps }
    ∷ []
add_group first ps (g ∷ gs) =
    let rest = add_group first ps gs in
    if g.company_id == first.company_id && g.location_id == first.location_id
    then record g { procurements = g.procurements ++ ps } ∷ gs
    else g ∷ rest

-- `if procurements`
abbrev pub add_if_any : ToBuy → List ToBuy → List SellerGroup → List SellerGroup
add_if_any first [] gs = gs
add_if_any first (p ∷ ps) gs = add_group first (p ∷ ps) gs

abbrev line_date : Line → Line → Bool
line_date a b = leb a.date_planned b.date_planned

abbrev earliest : ℕ → List Line → ℕ
earliest date [] = date
earliest date (l ∷ ls) = if ltb l.date_planned date then l.date_planned else date

module _ (delivery_date : ℕ → ℕ) (lines : List Line)
    (has_seller no_scheduler ignore_past : Bool) where
  -- `min_date`: the first delivery that is possible, or that of an order that is there already.
  pub min_date : ℕ → ℕ
  min_date product = earliest (delivery_date product) (
      sort_by line_date (
        keep (λ l. is_with_moves l.order_state && l.product_id == product && ltb 0 l.remaining_qty)
          lines))

  abbrev pub is_past : ToBuy → ToBuy → Bool
  is_past first p =
      ignore_past && in_domain first p && leb p.date_planned (min_date first.product_id)

  -- `domain`, after the lines on the past have extended it.
  abbrev pub is_planned : ToBuy → ToBuy → Bool
  is_planned first p =
      in_domain first p
      && (if ignore_past then ltb (min_date first.product_id) p.date_planned else true)

  abbrev pub without_line : ToBuy → Bool
  without_line p = not (is_some p.purchase_line_id)

  -- A round: the procurements that are left to run, and what was done.
  abbrev pub seller_round : ToBuy → List ToBuy → Plan → List ToBuy × Plan
  seller_round first ps plan =
      if not has_seller || no_scheduler
      then (
        keep (λ p. not (in_domain first p)) ps,
        record plan {
          exceptions = plan.exceptions ++ ids_of (keep without_line (keep (in_domain first) ps));
        },
      )
      else (
        keep (λ p. not (is_planned first p)) (keep (λ p. not (is_past first p)) ps),
        record plan {
          removed = plan.removed ++ ids_of (keep (is_past first) ps);
          dict_procs = add_if_any first (keep (is_planned first) ps) plan.dict_procs;
        },
      )

  -- `while procurements_to_run`
  unfoldable pub seller_loop : ℕ → List ToBuy → Plan → Option Plan
  seller_loop n [] plan = some plan
  seller_loop zero (p ∷ ps) plan = none
  seller_loop (suc n) (p ∷ ps) plan =
      let round = seller_round p (p ∷ ps) plan in seller_loop n round.0 round.1

  -- The loop of `launch_purchase_schedule_seller`, for the procurements with these identifiers; each
  -- of the groups then gets a job.
  pub launch_purchase_schedule_seller : List ToBuy → List ℕ → Option Plan
  launch_purchase_schedule_seller db procurement_ids =
      let to_run = keep (λ p. mem p.id procurement_ids && p.is_active) db in
      seller_loop (length to_run) to_run (record { exceptions = []; removed = []; dict_procs = [] })

-- A row of the query of procurements by seller.
pub record SellerRow : Type 0 where
  pub procurement_id : ℕ
  pub seller_id : ℕ
  pub product_id : ℕ

abbrev pub add_seller : ℕ → List ℕ → List (ℕ × List ℕ) → List (ℕ × List ℕ)
add_seller seller ids [] = (seller, ids) ∷ []
add_seller seller ids ((k, xs) ∷ rest) =
    let others = add_seller seller ids rest in
    if k == seller then (k, xs ++ ids) ∷ rest else (k, xs) ∷ others

abbrev is_empty_list : List ℕ → Bool
is_empty_list [] = true
is_empty_list (x ∷ xs) = false

abbrev pub is_selected : Bool → List ℕ → List ℕ → SellerRow → Bool
is_selected compute_all suppliers products row =
    compute_all || mem row.seller_id suppliers || mem row.product_id products

-- A row of a supplier that is not active any more is left out, unless the dictionary has it already.
abbrev pub add_row :
    Bool → List ℕ → List ℕ → List ℕ → SellerRow → List (ℕ × List ℕ) → List (ℕ × List ℕ)
add_row compute_all suppliers products active row d =
    if is_selected compute_all suppliers products row
      && (mem row.seller_id (map (λ x. x.0) d) || mem row.seller_id active)
    then add_seller row.seller_id (row.procurement_id ∷ []) d
    else d

abbrev pub by_seller :
    Bool → List ℕ → List ℕ → List ℕ → List SellerRow → List (ℕ × List ℕ) → List (ℕ × List ℕ)
by_seller compute_all suppliers products active [] d = d
by_seller compute_all suppliers products active (row ∷ rows) d =
    by_seller compute_all suppliers products active rows
      (add_row compute_all suppliers products active row d)

pub data SellerJob : Type 0 where
  sanitize_draft_orders : ℕ → SellerJob
  purchase_schedule_seller : ℕ → List ℕ → SellerJob

-- `_is_valid_supplier_for_scheduler`
abbrev pub is_valid_supplier : Bool → List ℕ → ℕ → Bool
is_valid_supplier compute_all suppliers seller =
    compute_all || is_empty_list suppliers || mem seller suppliers

abbrev pub seller_job : ℕ × List ℕ → SellerJob
seller_job (seller, []) = SellerJob.sanitize_draft_orders seller
seller_job (seller, p ∷ ps) = SellerJob.purchase_schedule_seller seller (p ∷ ps)

-- `launch_purchase_schedule`: the jobs, or `none` where the stock scheduler runs and the job retries.
abbrev pub launch_purchase_schedule :
    Bool → Bool → List ℕ → List ℕ → List ℕ → List ℕ → List SellerRow → Option (List SellerJob)
launch_purchase_schedule stock_scheduler_runs compute_all all_suppliers suppliers products active
      rows =
    let sellers =
      if compute_all && not (is_empty_list all_suppliers) then all_suppliers else suppliers in
    let d =
      by_seller compute_all suppliers products active rows (map (λ seller. (seller, [])) sellers) in
    if stock_scheduler_runs
    then none
    else some (map seller_job (keep (λ x. is_valid_supplier compute_all suppliers x.0) d))

-- `while next_scheduler_date <= dt.now()`, of launch_purchase_scheduler_by_supplier
abbrev pub next_date : ℕ → ℕ → ℕ → ℕ → Option ℕ
next_date zero now frequency date = if ltb now date then some date else none
next_date (suc n) now frequency date =
    let later = next_date n now frequency (date + 86400 * frequency) in
    if ltb now date then some date else later
