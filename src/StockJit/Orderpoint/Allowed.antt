-- ===== src/StockJit/Orderpoint/Allowed.antt =====
-- stock_procurement_just_in_time: the quantity above which the stock of a rule is an oversupply.
use native.Mathlib.Nat.{div-add-mod, mod-lt}
use odoo_addons.Base.{
  ℕ, ◌+◌, ◌-◌, ◌*◌, ◌/◌, ◌%◌, ◌≤◌, ◌<◌, ◌≡◌, ◌∙◌, ap, true, Option, inl, inr, List, ◌==◌,
  Bool-cases, ==_iff, ◌≢◌, arith, ltb,
}
use odoo_addons.Base.Int.{
  ℤ, pos, negsuc, ◌+ℤ◌, ◌≤ℤ◌, int_laws, max_ℤ, mod_ℤ, next_multiple, percent,
}
use odoo_addons.Base.Float.{FloatTools}
use odoo_addons.StockJit.Tables.{StockMove}
use odoo_addons.StockJit.Orderpoint.{
  Orderpoint, Config, wanted_qty, allowed_qty, get_max_allowed_qty,
}

percent-le : (p : ℕ) (a : ℤ) → p ≤ 100 → pos 0 ≤ℤ a → percent (pos p) a ≤ℤ a
unfolding percent
percent-le p (pos a) h k = let m : p * a ≤ 100 * a = grind arith in omega arith
percent-le p (negsuc a) h k = absurd (omega arith)

max_right : (a b : ℤ) → a ≤ℤ b → max_ℤ a b ≡ b
unfolding max_ℤ
max_right a b h = ground arith

module _ (tools : FloatTools) (schedule : ℕ → ℕ → ℕ) (moves : List StockMove) (config : Config)
    (op : Orderpoint) where
  -- A relative delta of at most 100 percent never changes the quantity that is allowed.
  pub relative_delta_void :
      (date : Option ℕ) (p : ℕ)
      → config.relative_stock_delta ≡ pos p
      → p ≤ 100
      → pos 0 ≤ℤ config.absolute_stock_delta
      → pos 0 ≤ℤ allowed_qty tools schedule moves config op date
      → get_max_allowed_qty tools schedule moves config op date
        ≡ allowed_qty tools schedule moves config op date +ℤ config.absolute_stock_delta
  unfolding get_max_allowed_qty
  relative_delta_void date p e h k l =
      let a = allowed_qty tools schedule moves config op date in
      ap (λ (q : ℤ). max_ℤ (percent q a) (a +ℤ config.absolute_stock_delta)) e
      ∙ max_right (percent (pos p) a) (a +ℤ config.absolute_stock_delta)
          (omega (int_laws, percent-le p a h l))

next_multiple-pos : (n m : ℕ) → 0 < m → next_multiple (pos n) m ≡ pos (m * (n / m + 1))
unfolding next_multiple
next_multiple-pos n m h =
    let e : n + (m - n % m) ≡ m * (n / m + 1) = omega (arith, div-add-mod n m, mod-lt n h) in
    ground (arith, e)

module _ (tools : FloatTools) (schedule : ℕ → ℕ → ℕ) (moves : List StockMove) (config : Config)
    (op : Orderpoint) where
  -- A rule with a multiple is allowed the least multiple that is not below its maximum.
  abbrev pub IsLeastMultiple : ℕ → ℤ → Type 0
  IsLeastMultiple n allowed =
      (k : ℕ) × (allowed ≡ pos (op.qty_multiple * k))
      × (n ≤ op.qty_multiple * k)
      × (op.qty_multiple * k < n + op.qty_multiple)

  -- With a multiple above 1 and a maximum of at least 0, the quantity allowed before the deltas is
  -- the least multiple that is not below the maximum.
  pub allowed_qty-IsLeastMultiple :
      (date : Option ℕ) (n : ℕ)
      → ltb tools.one op.qty_multiple ≡ true
      → wanted_qty tools schedule moves config op date ≡ pos n
      → IsLeastMultiple n (allowed_qty tools schedule moves config op date)
  unfolding allowed_qty mod_ℤ
  allowed_qty-IsLeastMultiple date n h e =
      let m = op.qty_multiple in
      let m_pos : 0 < m = ground arith in
      elim (Bool-cases (n % m == 0)) [
        | inl exact ↦
            let z : n % m ≡ 0 = (==_iff (n % m) 0).0 exact in
            let v : n ≡ m * (n / m) = omega (arith, div-add-mod n m) in
            (n / m, rw (e, h, exact) (ap pos v), omega arith, omega arith)
        | inr part ↦
            let z : n % m ≢ 0 = λ q. let t = (==_iff (n % m) 0).1 q in cc in
            (
              n / m + 1,
              rw (e, h, part) (next_multiple-pos n m m_pos),
              omega (arith, div-add-mod n m, mod-lt n m_pos),
              omega (arith, div-add-mod n m),
            )
      ]
