-- ===== src/InvoiceDunning.antt =====
-- account_invoice_dunning/models/dunning.py: the dunnings of invoices.
--
-- The state is the list of the dunnings; both fields between invoices and dunnings are one relation,
-- which the dunnings hold. The identifier of a new dunning is a parameter of each step.
pub mod Unique
mod Tests
use odoo_addons.Base.{
  ℕ, suc, Bool, true, false, not, ◌&&◌, Option, none, some, List, [], ◌∷◌, ◌++◌, map, if◌then◌else◌,
  keep, mem, leb, length, ◌==◌,
}
use odoo_addons.StockJit.Levels.Sort.{sort_by}

pub record DunningType : Type 0 where
  pub id : ℕ
  pub number : ℕ
  pub company_id : ℕ

pub data DunningState : Type 0 where
  draft send cancel done : DunningState

pub record Dunning : Type 0 where
  pub id : ℕ
  pub state : DunningState
  pub partner_id : ℕ
  pub company_id : ℕ
  pub dunning_type_id : ℕ
  pub invoice_ids : List ℕ
  pub date_done : Option ℕ

pub data InvoiceState : Type 0 where
  draft open_invoice paid cancel : InvoiceState

pub data InvoiceType : Type 0 where
  out_invoice in_invoice out_refund in_refund : InvoiceType

pub record Invoice : Type 0 where
  pub id : ℕ
  pub partner_id : ℕ
  pub company_id : ℕ
  pub state : InvoiceState
  pub invoice_type : InvoiceType

abbrev pub is_draft_dunning : DunningState → Bool
is_draft_dunning DunningState.draft = true
is_draft_dunning DunningState.send = false
is_draft_dunning DunningState.cancel = false
is_draft_dunning DunningState.done = false

abbrev pub is_sent : DunningState → Bool
is_sent DunningState.send = true
is_sent DunningState.draft = false
is_sent DunningState.cancel = false
is_sent DunningState.done = false

abbrev pub is_open_invoice : InvoiceState → Bool
is_open_invoice InvoiceState.open_invoice = true
is_open_invoice InvoiceState.draft = false
is_open_invoice InvoiceState.paid = false
is_open_invoice InvoiceState.cancel = false

abbrev pub is_sale : InvoiceType → Bool
is_sale InvoiceType.out_invoice = true
is_sale InvoiceType.in_invoice = false
is_sale InvoiceType.out_refund = false
is_sale InvoiceType.in_refund = false

-- `_get_existing_dunning_domain`
abbrev pub is_existing_dunning : ℕ → ℕ → ℕ → Dunning → Bool
is_existing_dunning partner type company d =
    d.partner_id == partner
    && d.dunning_type_id == type
    && d.company_id == company
    && is_draft_dunning d.state

-- The dunnings of an invoice that were sent.
abbrev pub sent_dunnings : List Dunning → Invoice → List Dunning
sent_dunnings db inv = keep (λ d. mem inv.id d.invoice_ids && is_sent d.state) db

-- `_compute_dunning_number`
abbrev pub dunning_number : List Dunning → Invoice → ℕ
dunning_number db inv = length (sent_dunnings db inv)

abbrev pub by_number : DunningType → DunningType → Bool
by_number a b = leb a.number b.number

abbrev pub first_type : List DunningType → Option DunningType
first_type [] = none
first_type (t ∷ ts) = some t

pub get_next_dunning_type : List DunningType → List Dunning → Invoice → Option DunningType
get_next_dunning_type types db inv = first_type (
    sort_by by_number (
      keep
        (λ t.
          not (mem t.id (map (λ d. d.dunning_type_id) (sent_dunnings db inv)))
          && t.company_id == inv.company_id)
        types))

-- `[(4, id)]` on the invoices of a dunning.
abbrev pub add_invoice : ℕ → Dunning → Dunning
add_invoice inv d =
    if mem inv d.invoice_ids then d else record d { invoice_ids = d.invoice_ids ++ (inv ∷ []) }

abbrev pub add_to_existing : Invoice → DunningType → Dunning → Dunning
add_to_existing inv t d =
    if is_existing_dunning inv.partner_id t.id inv.company_id d then add_invoice inv.id d else d

abbrev pub prepare_invoice_dunning : ℕ → Invoice → DunningType → Dunning
prepare_invoice_dunning id inv t = record {
  id = id;
  state = DunningState.draft;
  partner_id = inv.partner_id;
  company_id = inv.company_id;
  dunning_type_id = t.id;
  invoice_ids = inv.id ∷ [];
  date_done = none;
}

-- The dunnings afterwards and those of the result, or an error: an invoice that is not open or no
-- sale, one without a next type, and several dunnings where one was to be written.
pub data Outcome : Type 0 where
  created : List Dunning → List ℕ → Outcome
  not_open not_sale no_next_dunning several : Outcome

-- The dunnings after the step for one invoice, for the dunnings that exist.
abbrev pub write_dunning :
    ℕ → Invoice → DunningType → List Dunning → List Dunning → Option (List Dunning × ℕ)
write_dunning next_id inv t db [] =
    some (db ++ (prepare_invoice_dunning next_id inv t ∷ []), next_id)
write_dunning next_id inv t db (d ∷ []) = some (map (add_to_existing inv t) db, d.id)
write_dunning next_id inv t db (d ∷ e ∷ ds) = none

abbrev pub add_result : ℕ → List ℕ → List ℕ
add_result id ids = if mem id ids then ids else ids ++ (id ∷ [])

pub action_create_dunning : List DunningType → List Invoice → ℕ → List Dunning → List ℕ → Outcome
action_create_dunning types [] next_id db result = Outcome.created db result
action_create_dunning types (inv ∷ invs) next_id db result =
    let next_type = get_next_dunning_type types db inv in
    let written : Option (List Dunning × ℕ) = elim next_type [
      | none ↦ none
      | some t ↦
          write_dunning next_id inv t db
            (keep (is_existing_dunning inv.partner_id t.id inv.company_id) db)
    ] in
    let rest : Outcome = elim written [
      | none ↦ Outcome.several
      | some (db', id) ↦ action_create_dunning types invs (suc next_id) db' (add_result id result)
    ] in
    if not (is_open_invoice inv.state)
    then Outcome.not_open
    else if not (is_sale inv.invoice_type)
    then Outcome.not_sale
    else elim next_type [ none ↦ Outcome.no_next_dunning | some t ↦ rest ]

-- A write of the state of the dunnings with these identifiers.
abbrev pub write_state : DunningState → Option ℕ → List ℕ → List Dunning → List Dunning
write_state state date ids db =
    map (λ d. if mem d.id ids then record d { state = state; date_done = date } else d) db

abbrev pub keep_date : DunningState → List ℕ → List Dunning → List Dunning
keep_date state ids db = map (λ d. if mem d.id ids then record d { state = state } else d) db

abbrev pub action_done : List ℕ → List Dunning → List Dunning
action_done ids db = keep_date DunningState.done ids db

abbrev pub action_cancel_dunning : List ℕ → List Dunning → List Dunning
action_cancel_dunning ids db = keep_date DunningState.cancel ids db

-- `action_print_dunning`, and `send_mail` of the wizard for a dunning.
abbrev pub action_print_dunning : ℕ → ℕ → List Dunning → List Dunning
action_print_dunning today id db = write_state DunningState.send (some today) (id ∷ []) db
