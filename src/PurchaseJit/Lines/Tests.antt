-- ===== src/PurchaseJit/Lines/Tests.antt =====
-- A line of eight units of which two came and six run, and which is set to five.
use odoo_addons.Base.{◌≡◌, refl, none, some, List, [], ◌∷◌, ℕ, false}
use odoo_addons.Base.Int.{ℤ, pos, ◌+ℤ◌, ◌-ℤ◌}
use odoo_addons.StockJit.Tables.{MoveState}
use odoo_addons.PurchaseJit.Assignment.{OrderState}
use odoo_addons.PurchaseJit.Lines.{
  ProductType, OrderLine, Move, Outcome, compute_remaining_qty, prepare_order_line_move,
  create_stock_moves, adjust_moves_qties, update_moves, write_line,
}
use odoo_addons.PurchaseJit.Lines.Adjust.{Adjusted}
use odoo_addons.PurchaseJit.Lines.Adjust.Running.{adjust_moves_qties-Adjusted}

abbrev same_uom : ℕ → ℤ → ℕ → ℤ
same_uom from qty to = qty

abbrev price : OrderLine → ℕ
price l = 30

abbrev line : OrderLine
line = record {
  id = 7;
  order_state = OrderState.approved;
  product_type = some ProductType.product;
  product_uom_id = 1;
  product_uom = 1;
  product_qty = pos 5;
}

abbrev move : ℤ → MoveState → Move
move qty state = record {
  purchase_line_id = some 7;
  state = state;
  product_qty = qty;
  origin_returned_move_id = none;
  price_unit = 30;
}

abbrev moves : List Move
moves = move (pos 2) MoveState.done ∷ move (pos 6) MoveState.assigned ∷ []

-- The move that runs is cancelled at zero, and one of three units is made.
written :
    write_line same_uom price MoveState.assigned
      (record line { product_qty = pos 8 })
      (record { product_qty = some (pos 5); product_uom = none; price_unit = none })
      false
      moves
    ≡ (
      line,
      Outcome.updated (
          move (pos 2) MoveState.done
          ∷ move (pos 0) MoveState.cancel
          ∷ move (pos 3) MoveState.assigned
          ∷ []),
    )
unfolding write_line update_moves adjust_moves_qties create_stock_moves prepare_order_line_move
    compute_remaining_qty ◌-ℤ◌ ◌+ℤ◌
written = refl

-- Less than what came is refused.
refused :
    adjust_moves_qties same_uom price MoveState.assigned line (pos 1) none moves
    ≡ Outcome.under_received (pos 2)
unfolding adjust_moves_qties create_stock_moves prepare_order_line_move compute_remaining_qty ◌-ℤ◌
    ◌+ℤ◌
refused = refl

adjust_moves_qties-Adjusted_example :
    Adjusted same_uom line
      (pos 5)
      moves
      (adjust_moves_qties same_uom price MoveState.assigned line (pos 5) none moves)
adjust_moves_qties-Adjusted_example =
    adjust_moves_qties-Adjusted same_uom price MoveState.assigned line refl refl
      (record { converts_sum = λ a b. refl; converts_back = λ a. refl }) (pos 5) moves refl
