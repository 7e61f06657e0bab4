-- ===== src/PurchaseJit/Lines/Adjust.antt =====
-- purchase_procurement_just_in_time/models/purchase.py: what an adjustment changes of the moves.
pub mod Running
use odoo_addons.Base.{
  ℕ, ◌≡◌, refl, sym, ap, ◌∙◌, Bool, true, false, not, ◌&&◌, Option, none, some, List, [], ◌∷◌, ◌++◌,
  map, same_id, is_some, if◌then◌else◌, ltb, leb, arith, ◌==◌, Bool-cases, inl, inr, ==_iff,
}
use odoo_addons.Base.Int.{
  ℤ, pos, ◌+ℤ◌, ◌-ℤ◌, ◌≤ℤ◌, ◌<ℤ◌, ltb_ℤ, int_laws, +ℤ_assoc, +ℤ_parts, pos_part, neg_part,
}
use odoo_addons.StockJit.Tables.{MoveState}
use odoo_addons.PurchaseJit.Lines.{
  OrderLine, Move, Outcome, is_done_move, is_over_move, of_line, is_delivery, is_return, is_running,
  value_if, total_qty, is_stocked, is_service, set_null, cancel_move, with_default, ProductType,
  compute_remaining_qty, prepare_order_line_move, create_stock_moves, adjust_moves_qties, is_zero,
}

pub over_done : (s : MoveState) → is_over_move s ≡ false → is_done_move s ≡ false
over_done MoveState.done h = h
over_done MoveState.cancel h = refl
over_done MoveState.draft h = refl
over_done MoveState.waiting h = refl
over_done MoveState.confirmed h = refl
over_done MoveState.assigned h = refl

pub zero_add : (a : ℤ) → pos 0 +ℤ a ≡ a
zero_add a = omega int_laws

pub add_zero : (a : ℤ) → a +ℤ pos 0 ≡ a
add_zero a = omega int_laws

pub +ℤ_cong : {a b c d : ℤ} → a ≡ b → c ≡ d → a +ℤ c ≡ b +ℤ d
+ℤ_cong {a} {b} {c} {d} h k = ap (λ x. x +ℤ c) h ∙ ap (λ x. b +ℤ x) k

module _ (p : Move → Bool) where
  total_qty-append : (xs ys : List Move) → total_qty p (xs ++ ys) ≡ total_qty p xs +ℤ total_qty p ys
  total_qty-append [] ys = sym (zero_add (total_qty p ys))
  total_qty-append (x ∷ xs) ys =
      ap (λ a. value_if p x +ℤ a) (total_qty-append xs ys)
      ∙ sym (+ℤ_assoc (value_if p x) (total_qty p xs) (total_qty p ys))

  pub total_qty-map :
      (f : Move → Move)
      → ((m : Move) → value_if p (f m) ≡ value_if p m)
      → (ms : List Move) → total_qty p (map f ms) ≡ total_qty p ms
  total_qty-map f same [] = refl
  total_qty-map f same (m ∷ ms) = +ℤ_cong (same m) (total_qty-map f same ms)

  pub total_qty-map_zero :
      (f : Move → Move)
      → ((m : Move) → value_if p (f m) ≡ pos 0)
      → (ms : List Move) → total_qty p (map f ms) ≡ pos 0
  total_qty-map_zero f none_left [] = refl
  total_qty-map_zero f none_left (m ∷ ms) =
      +ℤ_cong (none_left m) (total_qty-map_zero f none_left ms) ∙ zero_add (pos 0)

module _ (line : OrderLine) where
  running_delivery : (m : Move) → is_running line m ≡ true → is_delivery line m ≡ false
  running_delivery m h = ground (arith, over_done m.state)

  running_return : (m : Move) → is_running line m ≡ true → is_return line m ≡ false
  running_return m h = ground (arith, over_done m.state)

  pub value_if-delivery_null :
      (m : Move) → value_if (is_delivery line) (set_null line m) ≡ value_if (is_delivery line) m
  value_if-delivery_null m = elim (Bool-cases (is_running line m)) [
    | inl t ↦ rw t rw (running_delivery m t) refl
    | inr t ↦ rw t refl
  ]

  pub value_if-return_null :
      (m : Move) → value_if (is_return line) (set_null line m) ≡ value_if (is_return line) m
  value_if-return_null m = elim (Bool-cases (is_running line m)) [
    | inl t ↦ rw t rw (running_return m t) refl
    | inr t ↦ rw t refl
  ]

  pub value_if-running_null : (m : Move) → value_if (is_running line) (set_null line m) ≡ pos 0
  value_if-running_null m = elim (Bool-cases (is_running line m)) [
    | inl t ↦ rw t rw t refl
    | inr t ↦ rw t rw t refl
  ]

  pub value_if-delivery_cancel :
      (m : Move) → value_if (is_delivery line) (cancel_move line m) ≡ value_if (is_delivery line) m
  value_if-delivery_cancel m = elim (Bool-cases (is_running line m)) [
    | inl t ↦ rw t rw (running_delivery m t) ground arith
    | inr t ↦ rw t refl
  ]

  pub value_if-return_cancel :
      (m : Move) → value_if (is_return line) (cancel_move line m) ≡ value_if (is_return line) m
  value_if-return_cancel m = elim (Bool-cases (is_running line m)) [
    | inl t ↦ rw t rw (running_return m t) ground arith
    | inr t ↦ rw t refl
  ]

  pub value_if-running_cancel : (m : Move) → value_if (is_running line) (cancel_move line m) ≡ pos 0
  value_if-running_cancel m = elim (Bool-cases (is_running line m)) [
    | inl t ↦ rw t ground arith
    | inr t ↦ rw t rw t refl
  ]

  pub stocked_service : (t : Option ProductType) → is_stocked t ≡ true → is_service t ≡ false
  stocked_service none h = refl
  stocked_service (some ProductType.product) h = refl
  stocked_service (some ProductType.consu) h = refl
  stocked_service (some ProductType.service) h = cc

module _ (compute_qty : ℕ → ℤ → ℕ → ℤ) (line : OrderLine) where
  abbrev pub in_line_uom : (Move → Bool) → List Move → ℤ
  in_line_uom p ms = compute_qty line.product_uom_id (total_qty p ms) line.product_uom

  abbrev pub delivered : List Move → ℤ
  delivered ms = in_line_uom (is_delivery line) ms

  abbrev pub returned : List Move → ℤ
  returned ms = in_line_uom (is_return line) ms

  abbrev pub running : List Move → ℤ
  running ms = in_line_uom (is_running line) ms

  -- The units of the line and of its product convert without loss.
  pub record Converts : Type 0 where
    pub converts_sum :
        (a b : ℤ)
        → compute_qty line.product_uom_id (a +ℤ b) line.product_uom
          ≡ compute_qty line.product_uom_id a line.product_uom
            +ℤ compute_qty line.product_uom_id b line.product_uom
    pub converts_back :
        (a : ℤ)
        → compute_qty line.product_uom_id
            (compute_qty line.product_uom a line.product_uom_id)
            line.product_uom
          ≡ a

  -- What an adjustment to a quantity promises of each of its outcomes.
  abbrev pub Adjusted : ℤ → List Move → Outcome → Type 0
  Adjusted target moves (Outcome.updated after) =
      (running after ≡ target -ℤ delivered moves +ℤ returned moves)
      × (delivered after ≡ delivered moves)
      × (returned after ≡ returned moves)
  Adjusted target moves (Outcome.under_received q) =
      (target <ℤ q) × (q ≡ delivered moves -ℤ returned moves)

  module _ (laws : Converts) where
    pub converts_zero : compute_qty line.product_uom_id (pos 0) line.product_uom ≡ pos 0
    converts_zero =
        let e =
          ap (λ q. compute_qty line.product_uom_id q line.product_uom) (sym (zero_add (pos 0)))
          ∙ laws.converts_sum (pos 0) (pos 0) in
        double (compute_qty line.product_uom_id (pos 0) line.product_uom) e
      where
        double : (a : ℤ) → a ≡ a +ℤ a → a ≡ pos 0
        double a h = omega (int_laws, +ℤ_parts a a, ap pos_part h, ap neg_part h)

    pub in_line_uom-append :
        (p : Move → Bool) (xs ys : List Move)
        → in_line_uom p (xs ++ ys) ≡ in_line_uom p xs +ℤ in_line_uom p ys
    in_line_uom-append p xs ys =
        ap (λ q. compute_qty line.product_uom_id q line.product_uom) (total_qty-append p xs ys)
        ∙ laws.converts_sum (total_qty p xs) (total_qty p ys)
