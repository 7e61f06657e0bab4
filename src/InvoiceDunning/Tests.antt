-- ===== src/InvoiceDunning/Tests.antt =====
-- Two invoices of a partner, and a dunning of the first type that was sent for one of them.
use odoo_addons.Base.{
  ℕ, ◌≡◌, refl, Option, none, some, List, [], ◌∷◌, arith, Bool-cases, inl, inr, ◌==◌, ◌&&◌, false,
}
use odoo_addons.StockJit.Levels.Sort.{sort_by, insert_by}
use odoo_addons.InvoiceDunning.{
  DunningType, DunningState, Dunning, InvoiceState, InvoiceType, Invoice, Outcome,
  get_next_dunning_type, action_create_dunning, action_print_dunning,
}
use odoo_addons.InvoiceDunning.Unique.{IsUnique, IsFine, action_create_dunning-IsFine}

abbrev types : List DunningType
types =
    record { id = 22; number = 2; company_id = 1 }
    ∷ record { id = 21; number = 1; company_id = 1 }
    ∷ []

abbrev invoice : ℕ → InvoiceState → Invoice
invoice id state = record {
  id = id;
  partner_id = 5;
  company_id = 1;
  state = state;
  invoice_type = InvoiceType.out_invoice;
}

abbrev dunning : ℕ → DunningState → ℕ → List ℕ → Option ℕ → Dunning
dunning id state type invoices date = record {
  id = id;
  state = state;
  partner_id = 5;
  company_id = 1;
  dunning_type_id = type;
  invoice_ids = invoices;
  date_done = date;
}

abbrev sent : List Dunning
sent = dunning 1 DunningState.send 21 (7 ∷ []) (some 3) ∷ []

abbrev invoices : List Invoice
invoices =
    invoice 7 InvoiceState.open_invoice
    ∷ invoice 8 InvoiceState.open_invoice
    ∷ invoice 9 InvoiceState.open_invoice
    ∷ []

-- The first invoice goes on to the second type, the others share a draft of the first type.
three :
    action_create_dunning types invoices 2 sent []
    ≡ Outcome.created
        (dunning 1 DunningState.send 21 (7 ∷ []) (some 3)
          ∷ dunning 2 DunningState.draft 22 (7 ∷ []) none
          ∷ dunning 3 DunningState.draft 21 (8 ∷ 9 ∷ []) none
          ∷ [])
        (2 ∷ 3 ∷ [])
unfolding action_create_dunning get_next_dunning_type sort_by insert_by
three = refl

paid_invoice :
    action_create_dunning types (invoice 7 InvoiceState.paid ∷ []) 2 sent [] ≡ Outcome.not_open
unfolding action_create_dunning get_next_dunning_type sort_by insert_by
paid_invoice = refl

printed :
    action_print_dunning 4 2 (dunning 2 DunningState.draft 22 (7 ∷ []) none ∷ [])
    ≡ dunning 2 DunningState.send 22 (7 ∷ []) (some 4) ∷ []
printed = refl

sent-IsUnique : IsUnique sent
sent-IsUnique partner type company =
    elim (Bool-cases (5 == partner && 21 == type && 1 == company && false)) [
      | inl h ↦ rw h omega arith
      | inr h ↦ rw h omega arith
    ]

action_create_dunning-IsFine_example : IsFine (action_create_dunning types invoices 2 sent [])
action_create_dunning-IsFine_example =
    action_create_dunning-IsFine types invoices 2 sent [] sent-IsUnique
