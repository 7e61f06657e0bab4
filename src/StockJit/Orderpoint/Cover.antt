-- ===== src/StockJit/Orderpoint/Cover.antt =====
-- stock_procurement_just_in_time: a procurement made for a need brings the stock to the minimum.
use mathlib.Core.Path.{subst}
use odoo_addons.Base.{
  ℕ, ◌≤◌, ◌<◌, ◌≡◌, sym, true, false, Option, some, inl, inr, List, Bool-cases, arith, if_true,
}
use odoo_addons.Base.Int.{
  ℤ, pos, negsuc, ◌+ℤ◌, ◌-ℤ◌, ◌≤ℤ◌, ◌<ℤ◌, int_laws, ltb_ℤ, le-max_left, le-max_right, mod_ℤ,
}
use odoo_addons.Base.Float.{FloatTools, sign_of}
use odoo_addons.StockJit.Tables.{StockMove}
use odoo_addons.StockJit.Orderpoint.{
  Orderpoint, Config, NewProc, missing_qty, to_multiple, has_multiple, create_from_need,
  is_under_stock_min, above,
}

mod_ℤ-le : (a : ℤ) (m : ℕ) → 0 < m → mod_ℤ a m ≤ m
unfolding mod_ℤ
mod_ℤ-le (pos n) m h = omega arith
mod_ℤ-le (negsuc n) m h = omega arith

module _ (tools : FloatTools) (r : ℕ) where
  -- The number is rounded.
  abbrev pub Grid : ℤ → Type 0
  Grid a = tools.float_round a r ≡ a

  pub below-lt :
      (a b : ℤ) → Grid a → Grid b → ltb_ℤ (tools.float_compare a b r) (pos 0) ≡ true → a <ℤ b
  below-lt a b ga gb h =
      let e : ltb_ℤ (sign_of a b) (pos 0) ≡ true = rw (tools.compare_rounds a b r, ga, gb) at h in
      ground arith

  pub not_below :
      (a b : ℤ) → Grid a → Grid b → b ≤ℤ a → ltb_ℤ (tools.float_compare a b r) (pos 0) ≡ false
  not_below a b ga gb h = rw (tools.compare_rounds a b r, ga, gb) (ground arith)

  pub above_of-lt :
      (a b : ℤ) → Grid a → Grid b → b <ℤ a → ltb_ℤ (pos 0) (tools.float_compare a b r) ≡ true
  above_of-lt a b ga gb h = rw (tools.compare_rounds a b r, ga, gb) (ground arith)

  pub Grid-zero : (a : ℤ) → Grid a → Grid (pos 0)
  Grid-zero a g = let e : a -ℤ a ≡ pos 0 = omega int_laws in rw e at (tools.round_sub a a r g g)

module _ (tools : FloatTools) (schedule : ℕ → ℕ → ℕ) (moves : List StockMove) (config : Config)
    (op : Orderpoint) where
  missing-ge :
      (date : Option ℕ) (stock : ℤ)
      → op.product_min_qty -ℤ stock ≤ℤ missing_qty tools schedule moves config op date stock
  unfolding missing_qty
  missing-ge date stock = omega (int_laws, le-max_left, le-max_right)

  to_multiple-ge : (q : ℤ) → q ≤ℤ to_multiple tools schedule moves config op q
  to_multiple-ge q = elim (Bool-cases (has_multiple tools schedule moves config op)) [
    | inl h ↦
        let low = mod_ℤ-le q op.qty_multiple (ground arith) in
        elim (Bool-cases (
          above tools schedule moves config op (pos (mod_ℤ q op.qty_multiple)) (pos 0)
            op.uom_rounding)) [
              | inl e ↦ rw (h, e) (omega int_laws)
              | inr e ↦ rw (h, e) (omega int_laws)
            ]
    | inr h ↦ rw h (omega int_laws)
  ]

  -- The stock with the procurement that `create_from_need` makes for it.
  abbrev pub Covers : Option ℕ → ℤ → Type 0
  Covers date stock =
      (p : NewProc) × (create_from_need tools schedule moves config op date stock ≡ some p)
      × Grid tools op.product_rounding (stock +ℤ p.qty)
      × (op.product_min_qty ≤ℤ stock +ℤ p.qty)
      × (is_under_stock_min tools schedule moves config op (stock +ℤ p.qty) ≡ false)

  -- Below the minimum a procurement is always made, and with it the stock is no longer below the
  -- minimum. The stock and the minimum are rounded quantities, and the rule's unit has the
  -- rounding of the product's.
  pub create_from_need-Covers :
      (date : Option ℕ) (stock : ℤ)
      → op.uom_rounding ≡ op.product_rounding
      → Grid tools op.product_rounding stock
      → Grid tools op.product_rounding op.product_min_qty
      → is_under_stock_min tools schedule moves config op stock ≡ true
      → Covers date stock
  unfolding create_from_need is_under_stock_min
  create_from_need-Covers date stock same gs gm h =
      let u = op.uom_rounding in
      let r = op.product_rounding in
      let low : stock <ℤ op.product_min_qty = below-lt tools r stock op.product_min_qty gs gm h in
      let lack = op.product_min_qty -ℤ stock in
      let missing = missing_qty tools schedule moves config op date stock in
      let wanted = to_multiple tools schedule moves config op missing in
      let q = tools.float_round wanted u in
      let more : lack ≤ℤ wanted = omega (arith, missing-ge date stock, to_multiple-ge missing) in
      let gs' = subst (λ n. Grid tools n stock) (sym same) gs in
      let gm' = subst (λ n. Grid tools n op.product_min_qty) (sym same) gm in
      let gl : Grid tools u lack = tools.round_sub op.product_min_qty stock u gm' gs' in
      let enough : lack ≤ℤ q = rw gl at (tools.round_mono lack wanted u more) in
      let gq : Grid tools u q = tools.round_round wanted u in
      let gz : Grid tools u (pos 0) = Grid-zero tools u stock gs' in
      let positive : pos 0 <ℤ q = omega int_laws in
      let g' = subst (λ n. Grid tools n (stock +ℤ q)) same (tools.round_add stock q u gs' gq) in
      let up : op.product_min_qty ≤ℤ stock +ℤ q = omega int_laws in
      (
        record { qty = q; date = date },
        if_true _ _ (above_of-lt tools u q (pos 0) gq gz positive),
        g',
        up,
        not_below tools r (stock +ℤ q) op.product_min_qty g' gm up,
      )
