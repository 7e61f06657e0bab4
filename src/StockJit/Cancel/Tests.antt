-- ===== src/StockJit/Cancel/Tests.antt =====
-- Runs of cancellations of two procurements.
use odoo_addons.Base.{ℕ, ◌≡◌, refl, Bool, true, false, none, some, List, [], ◌∷◌, In, here, there}
use odoo_addons.Base.Int.{pos}
use odoo_addons.StockJit.Tables.{MoveState, ProcState}
use odoo_addons.StockJit.Cancel.{
  Context, Uom, Proc, ProcMove, Store, forbidden, cancel, moves_to_cancel, propagate_context,
}
use odoo_addons.StockJit.Cancel.Guards.{cancel-forbidden, propagate_context-spares}

abbrev unit : Uom
unit = record { id = 1; rounding = 1 }

abbrev proc : ℕ → ProcState → Bool → Proc
proc i state protected = record {
  id = i;
  state = state;
  protected_against_scheduler = protected;
  rule_moves = true;
  product_qty = pos 5;
  product_uos_qty = pos 5;
  product_uom = unit;
  product_uos = none;
  uom_id = unit;
  to_delete = false;
}

abbrev move : ℕ → ℕ → MoveState → ProcMove
move i p state = record {
  id = i;
  procurement_id = some p;
  state = state;
  product_qty = pos 5;
  to_delete = false;
}

abbrev store : Store
store = record {
  procs = proc 1 ProcState.cancel true ∷ proc 2 ProcState.cancel false ∷ [];
  moves = move 11 1 MoveState.cancel ∷ move 12 2 MoveState.cancel ∷ move 13 2 MoveState.done ∷ [];
}

abbrev scheduler : Context
scheduler = record {
  is_scheduler = true;
  propagation_cancel = false;
  unlink_all_chain = true;
  do_not_try_to_cancel_done_moves = false;
  ignore_move_ids = [];
}

abbrev nothing : Context → List ℕ → Store → Store
nothing context ids s = s

-- `records in records` for at most one record.
abbrev single : List ℕ → Bool
single [] = false
single (i ∷ []) = true
single (i ∷ j ∷ is) = false

cancel-forbidden_example :
    (q : Proc) × In q (proc 2 ProcState.cancel false ∷ proc 1 ProcState.cancel true ∷ [])
    × (cancel nothing single scheduler
          (proc 2 ProcState.cancel false ∷ proc 1 ProcState.cancel true ∷ [])
          store
        ≡ forbidden q.id)
cancel-forbidden_example =
    cancel-forbidden nothing single scheduler
      (proc 2 ProcState.cancel false ∷ proc 1 ProcState.cancel true ∷ []) store
      (proc 1 ProcState.cancel true) (there (here refl)) refl refl refl

propagate_context-spares_example : ¬ In 13 (
    moves_to_cancel
      (propagate_context scheduler (proc 2 ProcState.cancel false) store)
      (11 ∷ 13 ∷ [])
      store)
propagate_context-spares_example =
    propagate_context-spares scheduler (proc 2 ProcState.cancel false) store store (11 ∷ 13 ∷ [])
      (move 13 2 MoveState.done) refl (there (there (here refl))) refl refl
