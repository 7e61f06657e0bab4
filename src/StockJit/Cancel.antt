-- ===== src/StockJit/Cancel.antt =====
-- stock_procurement_just_in_time: the cancellation of procurements and of their moves.
--
-- Parameters: openerp's own `cancel` of procurements (`super_cancel`), the conversion of units
-- (`compute_qty_obj`), the float tools, and `in_itself`, what `records in records` comes to for a
-- recordset of the identifiers.
mod Guards
mod Tests
use odoo_addons.Base.{
  ℕ, zero, suc, ◌≡◌, Bool, true, false, not, ◌&&◌, ◌||◌, Option, none, some, List, [], ◌∷◌, ◌++◌,
  map, ◌==◌, same_id, if◌then◌else◌, keep, any, mem,
}
use odoo_addons.Base.Int.{ℤ, pos, negsuc, sum_ℤ, ltb_ℤ}
use odoo_addons.Base.Float.{FloatTools}
use odoo_addons.StockJit.Tables.{MoveState, ProcState}

pub record Context : Type 0 where
  pub is_scheduler : Bool
  pub propagation_cancel : Bool
  pub unlink_all_chain : Bool
  pub do_not_try_to_cancel_done_moves : Bool
  pub ignore_move_ids : List ℕ

pub record Uom : Type 0 where
  pub id : ℕ
  pub rounding : ℕ

pub record Proc : Type 0 where
  pub id : ℕ
  pub state : ProcState
  pub protected_against_scheduler : Bool
  -- `rule_id.action == 'move'`
  pub rule_moves : Bool
  pub product_qty : ℤ
  pub product_uos_qty : ℤ
  pub product_uom : Uom
  pub product_uos : Option Uom
  -- The unit of the product.
  pub uom_id : Uom
  pub to_delete : Bool

pub record ProcMove : Type 0 where
  pub id : ℕ
  pub procurement_id : Option ℕ
  pub state : MoveState
  pub product_qty : ℤ
  pub to_delete : Bool

pub record Store : Type 0 where
  pub procs : List Proc
  pub moves : List ProcMove

-- `ForbiddenCancelProtectedProcurement` carries the procurement.
pub data Outcome : Type 0 where
  canceled : Store → Outcome
  forbidden : ℕ → Outcome

abbrev pub is_done : MoveState → Bool
is_done MoveState.done = true
is_done MoveState.draft = false
is_done MoveState.waiting = false
is_done MoveState.confirmed = false
is_done MoveState.assigned = false
is_done MoveState.cancel = false

abbrev pub is_cancel : MoveState → Bool
is_cancel MoveState.cancel = true
is_cancel MoveState.draft = false
is_cancel MoveState.waiting = false
is_cancel MoveState.confirmed = false
is_cancel MoveState.assigned = false
is_cancel MoveState.done = false

abbrev pub is_canceled : ProcState → Bool
is_canceled ProcState.cancel = true
is_canceled ProcState.confirmed = false
is_canceled ProcState.exception = false
is_canceled ProcState.running = false
is_canceled ProcState.done = false
is_canceled ProcState.buy_to_run = false

abbrev pub is_protected : Context → Proc → Bool
is_protected context p =
    p.protected_against_scheduler && context.is_scheduler && not context.propagation_cancel

-- `check_can_be_canceled`: the procurement that the exception names, if it is raised.
pub check_can_be_canceled : Context → List Proc → Option ℕ
check_can_be_canceled context [] = none
check_can_be_canceled context (p ∷ ps) =
    let rest = check_can_be_canceled context ps in
    if is_protected context p then some p.id else rest

abbrev pub moves_of : ℕ → List ProcMove → List ProcMove
moves_of i moves = keep (λ m. same_id m.procurement_id (some i)) moves

abbrev pub find_proc : ℕ → List Proc → Option Proc
find_proc i [] = none
find_proc i (p ∷ ps) = let rest = find_proc i ps in if p.id == i then some p else rest

abbrev pub has_state_cancel : Option Proc → Bool
has_state_cancel none = false
has_state_cancel (some p) = is_canceled p.state

-- Moves and procurements to be unlinked.
pub record ToUnlink : Type 0 where
  pub moves : List ℕ
  pub procurements : List ℕ

-- `remove_done_moves` of one procurement.
abbrev pub qty_done : Store → Proc → ℤ
qty_done s p =
    sum_ℤ (map (λ m. m.product_qty) (keep (λ m. is_done m.state) (moves_of p.id s.moves)))

module _ (tools : FloatTools) (compute_qty_obj : Uom → ℤ → Uom → ℤ) where
  abbrev pub done_uos_qty : Proc → ℤ → ℤ
  done_uos_qty p done = elim p.product_uos [
    | none ↦ tools.float_round (compute_qty_obj p.uom_id done p.product_uom) p.product_uom.rounding
    | some uos ↦ tools.float_round (compute_qty_obj p.uom_id done uos) uos.rounding
  ]

  abbrev pub without_done : Store → Proc → Proc
  without_done s p =
      if p.rule_moves
        && ltb_ℤ (pos 0) (tools.float_compare (qty_done s p) (pos 0) p.uom_id.rounding)
      then record p {
        product_qty =
            tools.float_round (compute_qty_obj p.uom_id (qty_done s p) p.product_uom)
              p.product_uom.rounding;
        product_uos_qty = done_uos_qty p (qty_done s p);
      }
      else p

  -- `remove_done_moves`
  pub remove_done_moves : List ℕ → Store → Store
  remove_done_moves ids s = record s {
    procs = map (λ p. if mem p.id ids then without_done s p else p) s.procs;
  }

module _ (super_cancel : Context → List ℕ → Store → Store) (in_itself : List ℕ → Bool) where
  -- The loop over the moves of procurement `i`.
  abbrev pub collect_move : Store → ℕ → ToUnlink → ProcMove → ToUnlink
  collect_move s i t m =
      if is_cancel m.state
      then record {
        moves = t.moves ++ (m.id ∷ []);
        procurements =
            if not (in_itself t.procurements)
              && has_state_cancel (find_proc i s.procs)
              && not (any (λ n. is_done n.state) (moves_of i s.moves))
            then t.procurements ++ (i ∷ [])
            else t.procurements;
      }
      else t

  pub collect_moves : Store → ℕ → List ProcMove → ToUnlink → ToUnlink
  collect_moves s i [] t = t
  collect_moves s i (m ∷ ms) t = collect_moves s i ms (collect_move s i t m)

  pub collect : Store → List ℕ → ToUnlink → ToUnlink
  collect s [] t = t
  collect s (i ∷ is) t = collect s is (collect_moves s i (moves_of i s.moves) t)

  abbrev pub mark : ToUnlink → Store → Store
  mark t s = record {
    procs = map (λ p. if mem p.id t.procurements then record p { to_delete = true } else p) s.procs;
    moves = map (λ m. if mem m.id t.moves then record m { to_delete = true } else m) s.moves;
  }

  abbrev pub mark_chain : Context → List ℕ → Store → Store
  mark_chain context ids s =
      if context.unlink_all_chain
      then mark (collect s ids (record { moves = []; procurements = [] })) s
      else s

  -- The cancellation, unless the exception names a procurement.
  abbrev pub cancel_unless : Option ℕ → Context → List ℕ → Store → Outcome
  cancel_unless none context ids s = canceled (mark_chain context ids (super_cancel context ids s))
  cancel_unless (some i) context ids s = forbidden i

  -- `cancel`
  pub cancel : Context → List Proc → Store → Outcome
  unfolding check_can_be_canceled
  cancel context recs s =
      cancel_unless (check_can_be_canceled context recs) context (map (λ p. p.id) recs) s

-- The moves that `action_cancel` hands to openerp.
pub moves_to_cancel : Context → List ℕ → Store → List ℕ
moves_to_cancel context ids s =
    map (λ m. m.id)
      (keep
        (λ m.
          mem m.id ids
          && not (mem m.id context.ignore_move_ids)
          && not (context.do_not_try_to_cancel_done_moves && is_done m.state))
        s.moves)

-- The context in which `propagate_cancel` calls openerp.
pub propagate_context : Context → Proc → Store → Context
propagate_context context p s = record context {
  ignore_move_ids =
      if p.rule_moves
      then map (λ m. m.id)
          (keep (λ m. is_done m.state || is_cancel m.state) (moves_of p.id s.moves))
      else [];
  propagation_cancel = true;
}

-- A job `job_delete_cancelled_moves_and_procs`.
pub data DeleteJob : Type 0 where
  delete_procurements : List ℕ → DeleteJob
  delete_moves : List ℕ → DeleteJob

-- `delete_cancelled_moves_and_procs`: a job for each record, or one call for all of a model.
pub delete_cancelled_moves_and_procs : Bool → Store → List DeleteJob
delete_cancelled_moves_and_procs jobify s =
    let procs = map (λ p. p.id) (keep (λ p. p.to_delete) s.procs) in
    let moves = map (λ m. m.id) (keep (λ m. m.to_delete) s.moves) in
    if jobify
    then map (λ i. delete_procurements (i ∷ [])) procs ++ map (λ i. delete_moves (i ∷ [])) moves
    else delete_procurements procs ∷ delete_moves moves ∷ []
