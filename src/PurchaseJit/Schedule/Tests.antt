-- ===== src/PurchaseJit/Schedule/Tests.antt =====
-- A line lacks six units, procurements of four and of five: the second is split, and the rest of it
-- gets a new line.
use odoo_addons.Base.{
  ℕ, ◌+◌, ◌*◌, ◌-◌, ◌≤◌, ◌≡◌, refl, true, false, ◌⊎◌, Option, none, some, [], ◌∷◌, same_id, mem, In,
  here, arith, Bool-cases, inl, inr,
}
use odoo_addons.Base.Count.{times}
use odoo_addons.StockJit.Tables.{ProcState}
use odoo_addons.PurchaseJit.Assignment.{
  OrderState, Line, Procurement, closed_ids, compute_which_procs_for_lines,
}
use odoo_addons.PurchaseJit.Assignment.Entries.{is_open_line}
use odoo_addons.PurchaseJit.Grouping.{Place, Setting}
use odoo_addons.PurchaseJit.Grouping.Rounds.{Reaches}
use odoo_addons.PurchaseJit.Schedule.{
  DraftLine, Purchases, Buying, Outcome, link_procurements, purchase_schedule_procurements,
}
use odoo_addons.PurchaseJit.Schedule.Splits.{IsFreshFrom}
use odoo_addons.PurchaseJit.Schedule.Relinking.{no_jobs}
use odoo_addons.PurchaseJit.Schedule.Placing.{purchase_schedule-places}

abbrev line : Line
line = record {
  id = 7;
  order_id = 5;
  order_state = OrderState.draft;
  company_id = 1;
  location_id = 2;
  product_id = 3;
  product_uom = 1;
  remaining_qty = 6;
  date_planned = 20;
}

abbrev proc : ℕ → ℕ → Option ℕ → Procurement
proc id qty line_id = record {
  id = id;
  product_id = 3;
  product_qty = qty;
  product_uom = 1;
  date_planned = 86400 * id;
  state = ProcState.running;
  purchase_line_id = line_id;
}

abbrev place : Place
place = record { picking_type_id = 1; location_id = 2; company_id = 1; partner_dest_id = none }

abbrev setting : Setting
setting = record {
  compute_qty = λ from qty to. qty;
  uom_of = λ product. 1;
  moq_of = λ product. 0;
  period_end = λ p date. some (p.date_planned + 432000);
  schedule_date = λ p. p.date_planned;
  order_date = λ p date. date - 86400;
  place_of = λ p. place;
  period = λ date. (date, date + 864000);
  date_ref = 86400;
  nb_max = 2;
}

abbrev buying : Buying
buying = record {
  setting = setting;
  company_of = λ id. 1;
  location_of = λ id. 2;
  supplier_of = λ product. some 40;
  has_other_supplier = λ product seller. true;
  has_group_period = true;
  ignore_past_procurements = false;
  min_draft_procurements_date = λ product. 0;
  first_purchase_dates = λ ids. (place, 86400) ∷ [];
  jobify = false;
  redistribute_in_separate_jobs = true;
  fill_orders_in_separate_jobs = true;
}

abbrev state : Purchases
state = record {
  procurements = proc 1 4 none ∷ proc 2 5 (some 7) ∷ [];
  lines = line ∷ [];
  orders = [];
  new_lines = [];
  next_id = 100;
  next_order_id = 50;
  next_line_id = 30;
}

-- The steps after the assignment: an entry for the line and a new line.
linked :
    link_procurements buying
      (record { order_id = 5; line_id = 7; procurement_ids = 1 ∷ [] } ∷ [])
      (record {
        orders = [];
        next_order_id = 51;
        dict_lines_to_create =
            record { order_id = 50; product_id = 3; procurement_ids = 2 ∷ [] } ∷ [];
        not_assigned = [];
        nb_draft_orders = 1;
      })
      state
    ≡ Outcome.scheduled
        (record state {
          procurements = proc 1 4 (some 7) ∷ proc 2 5 (some 30) ∷ [];
          new_lines = record { id = 30; order_id = 50; product_id = 3 } ∷ [];
          next_order_id = 51;
          next_line_id = 31;
        })
        no_jobs
linked = refl

reaches : (p : Procurement) (date : ℕ) → Reaches (buying.setting.period_end p date) p.date_planned
reaches p date = omega arith

once : (i : ℕ) → times i (1 ∷ 2 ∷ []) ≤ 1
once i = ground arith

fresh : IsFreshFrom 100 state.procurements
fresh i = (ground arith, λ h. ground (arith, h))

still_open : (k : ℕ) → mem 1 (closed_ids state.procurements k) ≡ false
still_open k = elim (Bool-cases (same_id (some 7) (some k))) [
  | inl t ↦ rw t refl
  | inr t ↦ rw t refl
]

purchase_schedule-places_example :
    let left =
      (compute_which_procs_for_lines setting.compute_qty state.procurements state.lines 1 2
        (1 ∷ 2 ∷ [])
        100).0 in
    (r : Purchases) × (purchase_schedule_procurements buying (1 ∷ 2 ∷ []) state
      ≡ Outcome.scheduled r no_jobs)
    × (q : Procurement) × In q r.procurements
    × (q.id ≡ 1)
    × (((l : Line) × In l state.lines
          × (is_open_line 1 2 l ≡ true)
          × (q.purchase_line_id ≡ some l.id))
        ⊎ ((l : DraftLine) × In l r.new_lines × (30 ≤ l.id) × (q.purchase_line_id ≡ some l.id))
        ⊎ ((mem 1 left ≡ true) × (q.purchase_line_id ≡ none))
        ⊎ ((false ≡ true) × (q.purchase_line_id ≡ none)))
purchase_schedule-places_example =
    purchase_schedule-places buying state 1 2 1 (2 ∷ []) (proc 1 4 none) refl refl refl refl reaches
      once (λ i. ground arith) fresh (here refl) refl still_open
