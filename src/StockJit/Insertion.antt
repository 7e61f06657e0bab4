-- ===== src/StockJit/Insertion.antt =====
-- stock_procurement_just_in_time: the lines that `_procure_orderpoint_confirm` gives to the controller.
-- The SQL of `insert_new_controller_lines` is written as filters over its tables, one table after
-- the other; `GROUP BY` keeps the first of equal values.
mod Sequences
mod Survival
mod Tests
use odoo_addons.Base.{
  ℕ, zero, suc, ◌≡◌, Bool, true, false, not, ◌&&◌, ◌||◌, Option, none, some, List, [], ◌∷◌, ◌++◌,
  map, ltb, ◌==◌, is_some, same_id, if◌then◌else◌, keep, any, mem,
}
use odoo_addons.StockJit.Controller.{Line, write_where}

-- A product with what the query joins of its template.
pub record Product : Type 0 where
  pub id : ℕ
  pub active : Bool
  pub product_tmpl_id : ℕ
  pub template_active : Bool
  pub categ_id : ℕ

pub record Route : Type 0 where
  pub id : ℕ
  pub active : Bool

pub record Rule : Type 0 where
  pub route_id : ℕ
  pub location_id : ℕ
  pub active : Bool
  -- `action = 'manufacture'`
  pub manufactures : Bool

-- `stock.location.scheduler.sequence`
pub record SchedulerSequence : Type 0 where
  pub location_id : ℕ
  pub name : ℕ
  pub exclude_non_manufactured_products : Bool
  pub exclude_manufactured_products : Bool

pub record StockRule : Type 0 where
  pub id : ℕ
  pub product_id : ℕ
  pub location_id : ℕ

-- The relations hold pairs of a route and a category, or of a route and a template.
pub record Catalogue : Type 0 where
  pub products : List Product
  pub routes : List Route
  pub rules : List Rule
  pub route_categ : List (ℕ × ℕ)
  pub route_product : List (ℕ × ℕ)
  pub sequences : List SchedulerSequence

abbrev pub related : List (ℕ × ℕ) → ℕ → ℕ → Bool
related pairs a b = any (λ p. p.0 == a && p.1 == b) pairs

-- The route takes part in the first or the second query of `manufactured_products`.
abbrev pub leads_to : Catalogue → Product → ℕ → Bool
leads_to db p route =
    related db.route_categ route p.categ_id || related db.route_product route p.product_tmpl_id

-- `manufactured_products`
pub is_manufactured_product : Catalogue → ℕ → ℕ → Bool
is_manufactured_product db product location =
    any
      (λ p.
        p.id == product
        && p.active
        && p.template_active
        && any
            (λ route.
              route.active
              && leads_to db p route.id
              && any
                  (λ rule.
                    rule.route_id == route.id
                    && rule.active
                    && rule.manufactures
                    && rule.location_id == location)
                  db.rules)
            db.routes)
      db.products

-- The first of equal values.
abbrev pub distinct : List ℕ → List ℕ
distinct [] = []
distinct (x ∷ xs) = x ∷ keep (λ y. not (y == x)) (distinct xs)

abbrev pub takes : Catalogue → StockRule → SchedulerSequence → Bool
takes db op s =
    s.location_id == op.location_id
    && (not s.exclude_non_manufactured_products
        || is_manufactured_product db op.product_id op.location_id)
    && (not s.exclude_manufactured_products
        || not (is_manufactured_product db op.product_id op.location_id))

-- The sequences of a rule whose product is active.
abbrev pub sequences_of : Catalogue → StockRule → List ℕ
sequences_of db op =
    if any (λ p. p.id == op.product_id && p.active) db.products
    then distinct (map (λ s. s.name) (keep (takes db op) db.sequences))
    else []

abbrev pub rows_of : StockRule → List ℕ → List (Option ℕ × ℕ)
rows_of op sequences = map (λ s. (some op.id, s)) sequences

-- `orderpoints_to_insert`: pairs of a rule and a sequence.
pub orderpoints_to_insert : Catalogue → List StockRule → List (Option ℕ × ℕ)
orderpoints_to_insert db [] = []
orderpoints_to_insert db (op ∷ ops) =
    rows_of op (sequences_of db op) ++ orderpoints_to_insert db ops

-- `list_sequences`
abbrev pub list_sequences : List (Option ℕ × ℕ) → List ℕ
list_sequences rows = distinct (map (λ r. r.1) rows)

abbrev pub new_line : ℕ → ℕ → Bool → Option ℕ → ℕ → Line
new_line company id run_procs orderpoint sequence = record {
  id = id;
  orderpoint_id = orderpoint;
  location_sequence = sequence;
  run_procs = run_procs;
  job_uuid = none;
  job_creation_date = none;
  date_done = none;
  done = false;
  company_id = company;
}

abbrev pub number : ℕ → List (ℕ → Line) → List Line
number id [] = []
number id (f ∷ fs) = f id ∷ number (suc id) fs

-- `insert_new_controller_lines`, with the first identifier that is free.
pub insert_new_controller_lines : Catalogue → List StockRule → ℕ → ℕ → List Line
unfolding orderpoints_to_insert
insert_new_controller_lines db orderpoints company next_id =
    let rows = orderpoints_to_insert db orderpoints in
    number next_id (
      map (λ r id. new_line company id false r.0 r.1) rows
      ++ map (λ s id. new_line company id true none s) (list_sequences rows))

abbrev pub before : ℕ → Option ℕ → Bool
before limit none = true
before limit (some d) = ltb d limit

-- `delete_old_controller_lines`, with the date that the lines are kept from.
pub delete_old_controller_lines : ℕ → List Line → List Line
delete_old_controller_lines last_date_done ls =
    keep (λ l. not (l.done && before last_date_done l.date_done)) ls

-- `SET done = TRUE, job_uuid = msg` on the lines of the company that are not started
abbrev pub is_not_started : ℕ → Line → Bool
is_not_started company l = not l.done && not (is_some l.job_uuid) && l.company_id == company

abbrev pub invalidate : ℕ → ℕ → List Line → List Line
invalidate company msg ls =
    write_where (is_not_started company) (λ l. record l { done = true; job_uuid = some msg }) ls

abbrev pub invalidated : Option ℕ → ℕ → List Line → List Line
invalidated none msg ls = ls
invalidated (some company) msg ls = invalidate company msg ls

-- The lines after `_procure_orderpoint_confirm` for the rules that it selects; the company of the
-- user stands in where none is given.
pub procure_orderpoint_confirm :
    Catalogue → List StockRule → Option ℕ → ℕ → ℕ → ℕ → ℕ → List Line → List Line
unfolding delete_old_controller_lines insert_new_controller_lines
procure_orderpoint_confirm db orderpoints company_id user_company msg last_date_done next_id ls =
    delete_old_controller_lines last_date_done (invalidated company_id msg ls)
    ++ insert_new_controller_lines db orderpoints
        (elim company_id [ none ↦ user_company | some c ↦ c ]) next_id
