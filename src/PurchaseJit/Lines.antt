-- ===== src/PurchaseJit/Lines.antt =====
-- purchase_procurement_just_in_time/models/purchase.py: `PurchaseOrderLineJustInTime`, and the
-- quantities of a line of purchase_improved/purchase_improved.py.
--
-- A state is the list of the stock moves. Quantities are whole numbers of the rounding of their
-- unit, below zero as well. The price of a new move and the state that openerp's confirmation and
-- assignment give it are parameters.
pub mod Adjust
mod Tests
use odoo_addons.Base.{
  ℕ, Bool, true, false, not, ◌&&◌, ◌||◌, Option, none, some, List, [], ◌∷◌, ◌++◌, map, same_id,
  is_some, if◌then◌else◌, keep, ◌==◌, any,
}
use odoo_addons.Base.Int.{ℤ, pos, ◌+ℤ◌, ◌-ℤ◌, ltb_ℤ}
use odoo_addons.StockJit.Tables.{MoveState}
use odoo_addons.PurchaseJit.Assignment.{OrderState}

pub data ProductType : Type 0 where
  product consu service : ProductType

pub record OrderLine : Type 0 where
  pub id : ℕ
  pub order_state : OrderState
  pub product_type : Option ProductType
  pub product_uom_id : ℕ
  pub product_uom : ℕ
  pub product_qty : ℤ

-- `product_qty` is in the unit of the product.
pub record Move : Type 0 where
  pub purchase_line_id : Option ℕ
  pub state : MoveState
  pub product_qty : ℤ
  pub origin_returned_move_id : Option ℕ
  pub price_unit : ℕ

abbrev pub is_done_move : MoveState → Bool
is_done_move MoveState.done = true
is_done_move MoveState.draft = false
is_done_move MoveState.cancel = false
is_done_move MoveState.waiting = false
is_done_move MoveState.confirmed = false
is_done_move MoveState.assigned = false

abbrev pub is_over_move : MoveState → Bool
is_over_move MoveState.done = true
is_over_move MoveState.cancel = true
is_over_move MoveState.draft = false
is_over_move MoveState.waiting = false
is_over_move MoveState.confirmed = false
is_over_move MoveState.assigned = false

abbrev pub is_draft_move : MoveState → Bool
is_draft_move MoveState.draft = true
is_draft_move MoveState.done = false
is_draft_move MoveState.cancel = false
is_draft_move MoveState.waiting = false
is_draft_move MoveState.confirmed = false
is_draft_move MoveState.assigned = false

abbrev pub of_line : OrderLine → Move → Bool
of_line line m = same_id m.purchase_line_id (some line.id)

abbrev pub is_delivery : OrderLine → Move → Bool
is_delivery line m =
    of_line line m && is_done_move m.state && not (is_some m.origin_returned_move_id)

abbrev pub is_return : OrderLine → Move → Bool
is_return line m = of_line line m && is_done_move m.state && is_some m.origin_returned_move_id

-- `get_running_moves_for_line`, as a test.
abbrev pub is_running : OrderLine → Move → Bool
is_running line m =
    of_line line m && not (is_over_move m.state) && not (is_some m.origin_returned_move_id)

abbrev pub value_if : (Move → Bool) → Move → ℤ
value_if p m = if p m then m.product_qty else pos 0

-- The sum of the quantities of the moves that meet a test.
abbrev pub total_qty : (Move → Bool) → List Move → ℤ
total_qty p [] = pos 0
total_qty p (m ∷ ms) = value_if p m +ℤ total_qty p ms

pub record Remaining : Type 0 where
  pub delivered_qty_pol_uom : ℤ
  pub remaining_qty_pol_uom : ℤ
  pub returned_qty_pol_uom : ℤ
  pub qty_running_pol_uom : ℤ

abbrev pub is_stocked : Option ProductType → Bool
is_stocked none = false
is_stocked (some ProductType.service) = false
is_stocked (some ProductType.product) = true
is_stocked (some ProductType.consu) = true

abbrev pub is_service : Option ProductType → Bool
is_service none = false
is_service (some ProductType.service) = true
is_service (some ProductType.product) = false
is_service (some ProductType.consu) = false

-- `get_purchase_order_states_with_moves`
abbrev pub is_with_moves : OrderState → Bool
is_with_moves OrderState.approved = true
is_with_moves OrderState.draft = false
is_with_moves OrderState.sent = false
is_with_moves OrderState.confirmed = false
is_with_moves OrderState.except_picking = false
is_with_moves OrderState.except_invoice = false
is_with_moves OrderState.done = false
is_with_moves OrderState.cancel = false

abbrev pub with_default : Option ℕ → ℕ → ℕ
with_default none d = d
with_default (some a) d = a

-- The moves after an operation, or `PurchaseLineQtyUnderReceivedQty`.
pub data Outcome : Type 0 where
  updated : List Move → Outcome
  under_received : ℤ → Outcome

-- `write({'product_uom_qty': 0})` and `action_cancel()` on the moves that run.
abbrev pub set_null : OrderLine → Move → Move
set_null line m = if is_running line m then record m { product_qty = pos 0 } else m

abbrev pub cancel_move : OrderLine → Move → Move
cancel_move line m = if is_running line m then record m { state = MoveState.cancel } else m

-- `float_compare(q, 0.0) == 0`
abbrev pub is_zero : ℤ → Bool
is_zero q = not (ltb_ℤ q (pos 0)) && not (ltb_ℤ (pos 0) q)

-- The values that a write gives for the quantity, the unit and the price.
pub record Vals : Type 0 where
  pub product_qty : Option ℤ
  pub product_uom : Option ℕ
  pub price_unit : Option ℕ

module _ (compute_qty : ℕ → ℤ → ℕ → ℤ) (price_of : OrderLine → ℕ)
    (confirmed_state : MoveState) where
  pub compute_remaining_qty : OrderLine → Option ℕ → List Move → Remaining
  compute_remaining_qty line line_uom_id moves =
      let delivered =
        compute_qty line.product_uom_id (total_qty (is_delivery line) moves) line.product_uom in
      let returned =
        compute_qty line.product_uom_id (total_qty (is_return line) moves) line.product_uom in
      let uom = with_default line_uom_id line.product_uom in
      if is_stocked line.product_type
      then record {
        delivered_qty_pol_uom = delivered;
        remaining_qty_pol_uom = line.product_qty -ℤ delivered +ℤ returned;
        returned_qty_pol_uom = returned;
        qty_running_pol_uom =
            compute_qty line.product_uom_id (total_qty (is_running line) moves) uom;
      }
      else record {
        delivered_qty_pol_uom = pos 0;
        remaining_qty_pol_uom = pos 0;
        returned_qty_pol_uom = pos 0;
        qty_running_pol_uom = pos 0;
      }

  -- `_prepare_order_line_move`: the move for what neither came nor runs, if there is such.
  pub prepare_order_line_move : OrderLine → List Move → List Move
  unfolding compute_remaining_qty
  prepare_order_line_move line moves =
      let data_remaining_qty = compute_remaining_qty line none moves in
      let qty_to_add =
        data_remaining_qty.remaining_qty_pol_uom -ℤ data_remaining_qty.qty_running_pol_uom in
      let move : Move = record {
        purchase_line_id = some line.id;
        state = confirmed_state;
        product_qty = compute_qty line.product_uom qty_to_add line.product_uom_id;
        origin_returned_move_id = none;
        price_unit = price_of line;
      } in
      if is_zero qty_to_add then [] else move ∷ []

  -- The moves that `_create_stock_moves` makes for a line.
  pub create_stock_moves : OrderLine → List Move → List Move
  create_stock_moves line moves =
      let prepared = prepare_order_line_move line moves in
      if is_stocked line.product_type then prepared else []

  -- `adjust_moves_qties`: the moves that run are set to zero before others are made and cancelled
  -- after that, so that the order does not look received meanwhile. For a service the moves to
  -- cancel are none, as `compute_remaining_qty` gives none for it.
  pub adjust_moves_qties : OrderLine → ℤ → Option ℕ → List Move → Outcome
  unfolding compute_remaining_qty
  adjust_moves_qties line target_qty line_uom_id moves =
      let data_remaining_qty = compute_remaining_qty line line_uom_id moves in
      let delivered = data_remaining_qty.delivered_qty_pol_uom in
      let returned = data_remaining_qty.returned_qty_pol_uom in
      let running = data_remaining_qty.qty_running_pol_uom in
      let final_running_qty = target_qty -ℤ delivered +ℤ returned in
      let is_over_qty = ltb_ℤ final_running_qty running in
      let zeroed = if is_over_qty then map (set_null line) moves else moves in
      let still_running = if is_over_qty then pos 0 else running in
      let created =
        if ltb_ℤ still_running final_running_qty then create_stock_moves line zeroed else [] in
      let old = if is_over_qty then map (cancel_move line) zeroed else zeroed in
      if is_service line.product_type
      then updated moves
      else if ltb_ℤ target_qty (delivered -ℤ returned)
      then under_received (delivered -ℤ returned)
      else updated (old ++ created)

  -- `_get_remaining_qty`, the field `remaining_qty`.
  abbrev pub get_remaining_qty : OrderLine → List Move → ℤ
  get_remaining_qty line moves = (compute_remaining_qty line none moves).remaining_qty_pol_uom

  -- `update_moves`, of a line on which the new values are written.
  pub update_moves : OrderLine → ℤ → Option ℕ → List Move → Outcome
  update_moves line product_qty product_uom moves =
      let qty_done = line.product_qty -ℤ get_remaining_qty line moves in
      let uom = with_default product_uom line.product_uom in
      let qty_done_pol_uom = compute_qty line.product_uom_id qty_done uom in
      let adjusted = adjust_moves_qties line product_qty product_uom moves in
      if ltb_ℤ product_qty qty_done_pol_uom
      then under_received qty_done_pol_uom
      else if is_with_moves line.order_state
      then adjusted
      else updated moves

  abbrev set_vals : OrderLine → Vals → OrderLine
  set_vals line v = record line {
    product_qty = elim v.product_qty [ none ↦ line.product_qty | some q ↦ q ];
    product_uom = with_default v.product_uom line.product_uom;
  }

  -- `active_moves.write({'price_unit': ...})`
  abbrev pub set_price : OrderLine → Option ℕ → Move → Move
  set_price line price m =
      if of_line line m && not (is_over_move m.state) && not (is_draft_move m.state)
      then record m { price_unit = with_default price m.price_unit }
      else m

  abbrev pub set_prices : OrderLine → Option ℕ → Outcome → Outcome
  set_prices line price (updated moves) = updated (map (set_price line price) moves)
  set_prices line price (under_received q) = under_received q

  -- `write`, for one line.
  pub write_line : OrderLine → Vals → Bool → List Move → OrderLine × Outcome
  write_line line v no_update_moves moves =
      let line' = set_vals line v in
      let adjusted : Outcome = elim v.product_qty [
        | none ↦ updated moves
        | some q ↦
            if no_update_moves then updated moves else update_moves line' q v.product_uom moves
      ] in
      (line', set_prices line' v.price_unit adjusted)

  -- The moves that `create` of a line makes.
  pub create_purchase_line : OrderLine → Bool → List Move → List Move
  create_purchase_line line no_update_moves moves =
      let created = create_stock_moves line moves in
      if not (is_zero line.product_qty)
        && not (any (of_line line) moves)
        && not no_update_moves
        && is_with_moves line.order_state
      then moves ++ created
      else moves
