-- ===== src/StockJit/Orderpoint/Reach.antt =====
-- stock_procurement_just_in_time: `create_from_need`, how far its procurement takes the stock.

use odoo_addons.Base.{
  ℕ, ◌+◌, ◌<◌, ◌≡◌, ◌⊎◌, refl, ap, ◌∙◌, true, Option, none, some, inl, inr, List, Bool-cases, arith,
}
use odoo_addons.Base.Int.{ℤ, pos, ◌-ℤ◌, ◌≤ℤ◌, ◌<ℤ◌, int_laws, ltb_ℤ, max_ℤ, pos_part, neg_part}
use odoo_addons.Base.Float.{FloatTools}
use odoo_addons.StockJit.Tables.{StockMove}
use odoo_addons.StockJit.Orderpoint.{
  Orderpoint, Config, NewProc, seconds_of, get_max_qty, with_min, missing_qty, to_multiple,
  create_from_need,
}
use odoo_addons.StockJit.Orderpoint.Cover.{Grid, above_of-lt, Grid-zero}
use odoo_addons.StockJit.Orderpoint.Multiple.{
  not_above, pos_of, Fits, to_multiple-Fits, to_multiple-zero,
}

max_left : (a b : ℤ) → b ≤ℤ a → max_ℤ a b ≡ a
unfolding max_ℤ
max_left a b h = ground arith

max_of_le : (a b : ℤ) → a ≤ℤ b → max_ℤ a b ≡ b
unfolding max_ℤ
max_of_le a b h = ground arith

module _ (tools : FloatTools) (schedule : ℕ → ℕ → ℕ) (moves : List StockMove) (config : Config)
    (op : Orderpoint) where
  -- The stock that a procurement for a need is to bring: the maximum of the strategy at the start of
  -- the day after the need, or after the present day, or the minimum if that is more.
  abbrev pub wanted_stock : Option ℕ → ℤ
  wanted_stock date =
      let end_cover : ℕ = elim date [
        | none ↦ seconds_of (config.today + 1)
        | some d ↦ seconds_of (d + 1)
      ] in
      let maximum = get_max_qty tools schedule moves config op (some end_cover) in
      max_ℤ op.product_min_qty (with_min tools schedule moves config op maximum)

  -- A need that gets no procurement, or the one that it gets.
  abbrev pub Reaches : Option ℕ → ℤ → Type 0
  Reaches date stock =
      ((wanted_stock date ≤ℤ stock)
        × (create_from_need tools schedule moves config op date stock ≡ none))
      ⊎ ((stock <ℤ wanted_stock date)
          × (p : NewProc) × (create_from_need tools schedule moves config op date stock ≡ some p)
          × (p.date ≡ date)
          × Fits tools schedule moves config op (wanted_stock date) stock p.qty)

  -- For a stock, a wanted stock and a multiple that are rounded quantities: a need gets no
  -- procurement if the stock is at least the wanted stock, which is the maximum of the strategy at
  -- the start of the day after the need, or after the present day for a need without a date, with
  -- the minimum on top for a duration whose end of contract is not considered, or the minimum if
  -- that is more. Otherwise it gets one of the date of the need. Without a multiple, that brings
  -- the stock exactly to the wanted stock; with one, its quantity is a multiple that brings the
  -- stock there, by less than one multiple above it.
  pub create_from_need-Reaches :
      (date : Option ℕ) (stock : ℤ)
      → Grid tools op.uom_rounding stock
      → Grid tools op.uom_rounding (wanted_stock date)
      → Grid tools op.uom_rounding (pos op.qty_multiple)
      → Reaches date stock
  unfolding create_from_need missing_qty
  create_from_need-Reaches date stock gs gw gm =
      let u = op.uom_rounding in
      let wanted = wanted_stock date in
      let gl : Grid tools u (wanted -ℤ stock) = tools.round_sub wanted stock u gw gs in
      let gz = Grid-zero tools u stock gs in
      elim (Bool-cases (ltb_ℤ stock wanted)) [
        | inl short ↦
            let low : stock <ℤ wanted = ground (arith, short) in
            let n = pos_part (wanted -ℤ stock) in
            let e : wanted -ℤ stock ≡ pos n = pos_of (wanted -ℤ stock) (omega int_laws) in
            let m : missing_qty tools schedule moves config op date stock ≡ pos n =
              max_left (wanted -ℤ stock) (pos 0) (omega int_laws) ∙ e in
            let (gq, more, fits) =
              to_multiple-Fits tools schedule moves config op wanted stock n (rw e at gl) gm e in
            let q = to_multiple tools schedule moves config op (pos n) in
            let some_n : 0 < n = positive wanted stock n e low in
            let up : ltb_ℤ (pos 0) (tools.float_compare q (pos 0) u) ≡ true =
              above_of-lt tools u q (pos 0) gq gz (omega (arith, more)) in
            inr (low, record { qty = q; date = date }, rw m rw gq rw up refl, refl, fits)
        | inr covered ↦
            let high : wanted ≤ℤ stock = ground (arith, covered) in
            let m : missing_qty tools schedule moves config op date stock ≡ pos 0 =
              max_of_le (wanted -ℤ stock) (pos 0) (omega int_laws) in
            let none_above = not_above tools u (pos 0) (pos 0) gz gz (omega arith) in
            inl (
              high,
              rw m rw (to_multiple-zero tools schedule moves config op gz) rw gz rw none_above refl,
            )
      ]
    where
      positive : (w s : ℤ) (n : ℕ) → w -ℤ s ≡ pos n → s <ℤ w → 0 < n
      positive w s n e h = omega (int_laws, ap pos_part e, ap neg_part e)
