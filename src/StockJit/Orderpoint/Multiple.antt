-- ===== src/StockJit/Orderpoint/Multiple.antt =====
-- stock_procurement_just_in_time: `create_from_need`, the multiple that a quantity is brought to.
use native.Mathlib.Nat.{div-add-mod, mod-lt}
use odoo_addons.Base.{
  ℕ, zero, suc, ◌+◌, ◌-◌, ◌*◌, ◌/◌, ◌%◌, ◌≤◌, ◌<◌, ◌≡◌, ◌⊎◌, refl, sym, ap, ◌∙◌, true, false, inl,
  inr, List, Bool-cases, arith, ltb,
}
use mathlib.Core.Path.{subst}
use odoo_addons.Base.Int.{
  ℤ, pos, negsuc, ◌+ℤ◌, ◌-ℤ◌, ◌≤ℤ◌, ◌<ℤ◌, int_laws, ltb_ℤ, mod_ℤ, pos_part, neg_part, -ℤ_parts,
  eq_of_parts,
}
use odoo_addons.Base.Float.{FloatTools}
use odoo_addons.StockJit.Tables.{StockMove}
use odoo_addons.StockJit.Orderpoint.{Orderpoint, Config, to_multiple, has_multiple}
use odoo_addons.StockJit.Orderpoint.Cover.{Grid, above_of-lt, Grid-zero}

back : (w s : ℤ) → s +ℤ (w -ℤ s) ≡ w
back w s = omega int_laws

pos_add : (a b : ℕ) → pos a +ℤ pos b ≡ pos (a + b)
pos_add a b = omega int_laws

exact : (w s : ℤ) (k : ℕ) → s +ℤ pos k ≡ w → w ≤ℤ s +ℤ pos k
exact w s k r = omega (arith, ap pos_part r, ap neg_part r)

exact_below : (w s : ℤ) (k m : ℕ) → s +ℤ pos k ≡ w → 0 < m → s +ℤ pos k <ℤ w +ℤ pos m
exact_below w s k m r h = omega (int_laws, ap pos_part r, ap neg_part r)

at_least :
    (w s : ℤ) (k m : ℕ) → s +ℤ pos k ≡ w → k % m < m → w ≤ℤ s +ℤ (pos k +ℤ (pos m -ℤ pos (k % m)))
at_least w s k m r h = omega (int_laws, ap pos_part r, ap neg_part r)

below_next :
    (w s : ℤ) (k m : ℕ)
    → s +ℤ pos k ≡ w
    → 0 < k % m
    → s +ℤ (pos k +ℤ (pos m -ℤ pos (k % m))) <ℤ w +ℤ pos m
below_next w s k m r h = omega (int_laws, ap pos_part r, ap neg_part r)

pub pos_of : (a : ℤ) → pos 0 ≤ℤ a → a ≡ pos (pos_part a)
pos_of (pos n) h = refl
pos_of (negsuc n) h = absurd (omega arith)

pos_sub : (n m : ℕ) → m ≤ n → pos n -ℤ pos m ≡ pos (n - m)
pos_sub n m h =
    eq_of_parts (pos n -ℤ pos m) (pos (n - m))
      (omega (arith, -ℤ_parts (pos n) (pos m), h, parts (pos n -ℤ pos m)))
  where
    parts : (a : ℤ) → pos_part a * neg_part a ≡ 0
    parts (pos k) = omega arith
    parts (negsuc k) = omega arith

module _ (tools : FloatTools) (u : ℕ) where
  pub not_above :
      (a b : ℤ)
      → Grid tools u a
      → Grid tools u b
      → a ≤ℤ b
      → ltb_ℤ (pos 0) (tools.float_compare a b u) ≡ false
  not_above a b ga gb h = rw (tools.compare_rounds a b u, ga, gb) (ground arith)

  Grid-multiple :
      (n m k : ℕ)
      → Grid tools u (pos n)
      → Grid tools u (pos m)
      → m * k ≤ n
      → Grid tools u (pos (n - m * k))
  Grid-multiple n m zero gn gm h =
      let e : n ≡ n - m * 0 = omega arith in subst (λ x. Grid tools u (pos x)) e gn
  Grid-multiple n m (suc k) gn gm h =
      let rest = Grid-multiple n m k gn gm (omega (arith, h)) in
      let e : pos (n - m * k) -ℤ pos m ≡ pos (n - m * suc k) =
        pos_sub (n - m * k) m (omega (arith, h)) ∙ ap pos (omega arith) in
      subst (Grid tools u) e (tools.round_sub (pos (n - m * k)) (pos m) u rest gm)

  Grid-mod : (n m : ℕ) → Grid tools u (pos n) → Grid tools u (pos m) → Grid tools u (pos (n % m))
  Grid-mod n m gn gm =
      let e : n - m * (n / m) ≡ n % m = omega (arith, div-add-mod n m) in
      subst (λ x. Grid tools u (pos x)) e
        (Grid-multiple n m (n / m) gn gm (omega (arith, div-add-mod n m)))

module _ (tools : FloatTools) (schedule : ℕ → ℕ → ℕ) (moves : List StockMove) (config : Config)
    (op : Orderpoint) where
  -- A quantity for what lacks to the stock: exact without a multiple, or the least multiple.
  abbrev pub Fits : ℤ → ℤ → ℤ → Type 0
  Fits wanted stock q =
      ((has_multiple tools schedule moves config op ≡ false) × (stock +ℤ q ≡ wanted))
      ⊎ ((has_multiple tools schedule moves config op ≡ true)
          × ((k : ℕ) × (q ≡ pos (op.qty_multiple * k)))
          × (wanted ≤ℤ stock +ℤ q)
          × (stock +ℤ q <ℤ wanted +ℤ pos op.qty_multiple))

  -- The quantity is rounded, not less than it was, and fits.
  abbrev pub IsFit : ℤ → ℤ → ℤ → ℤ → Type 0
  IsFit wanted stock n q = Grid tools op.uom_rounding q × (n ≤ℤ q) × Fits wanted stock q

  whole-Fits :
      (wanted stock : ℤ) (n : ℕ)
      → Grid tools op.uom_rounding (pos n)
      → has_multiple tools schedule moves config op ≡ true
      → n % op.qty_multiple ≡ 0
      → stock +ℤ pos n ≡ wanted
      → IsFit wanted stock (pos n) (pos n)
  whole-Fits wanted stock n gn e z reach =
      let m = op.qty_multiple in
      (
        gn,
        omega arith,
        inr (
          e,
          (n / m, ap pos (omega (arith, div-add-mod n m, z))),
          exact wanted stock n reach,
          exact_below wanted stock n m reach (ground (arith, e)),
        ),
      )

  part-Fits :
      (wanted stock : ℤ) (n : ℕ)
      → let m = op.qty_multiple in
        Grid tools op.uom_rounding (pos n)
        → Grid tools op.uom_rounding (pos m -ℤ pos (n % m))
        → has_multiple tools schedule moves config op ≡ true
        → 0 < n % m
        → stock +ℤ pos n ≡ wanted
        → IsFit wanted stock (pos n) (pos n +ℤ (pos m -ℤ pos (n % m)))
  part-Fits wanted stock n gn gl e some_left reach =
      let m = op.qty_multiple in
      let low : n % m < m = mod-lt n (ground (arith, e)) in
      let v : pos n +ℤ (pos m -ℤ pos (n % m)) ≡ pos (m * (n / m + 1)) =
        ap (λ x. pos n +ℤ x) (pos_sub m (n % m) (omega (arith, low)))
        ∙ pos_add n (m - n % m)
        ∙ ap pos (omega (arith, div-add-mod n m, low)) in
      (
        tools.round_add (pos n) (pos m -ℤ pos (n % m)) op.uom_rounding gn gl,
        omega (int_laws, low),
        inr (
          e,
          (n / m + 1, v),
          at_least wanted stock n m reach low,
          below_next wanted stock n m reach some_left,
        ),
      )

  -- What `to_multiple` makes of a rounded quantity is rounded, and fits.
  pub to_multiple-Fits :
      (wanted stock : ℤ) (n : ℕ)
      → Grid tools op.uom_rounding (pos n)
      → Grid tools op.uom_rounding (pos op.qty_multiple)
      → wanted -ℤ stock ≡ pos n
      → IsFit wanted stock (pos n) (to_multiple tools schedule moves config op (pos n))
  unfolding mod_ℤ
  to_multiple-Fits wanted stock n gn gm lack =
      let u = op.uom_rounding in
      let m = op.qty_multiple in
      let reach : stock +ℤ pos n ≡ wanted = ap (λ x. stock +ℤ x) (sym lack) ∙ back wanted stock in
      elim (Bool-cases (has_multiple tools schedule moves config op)) [
        | inr e ↦ rw e (gn, omega arith, inl (refl, reach))
        | inl e ↦
            let gr = Grid-mod tools u n m gn gm in
            let gz = Grid-zero tools u (pos n) gn in
            elim (Bool-cases (ltb 0 (n % m))) [
              | inl part ↦
                  let left : 0 < n % m = ground (arith, part) in
                  let up : ltb_ℤ (pos 0) (tools.float_compare (pos (n % m)) (pos 0) u) ≡ true =
                    above_of-lt tools u (pos (n % m)) (pos 0) gr gz (omega (arith, left)) in
                  let fit =
                    part-Fits wanted stock n gn (tools.round_sub (pos m) (pos (n % m)) u gm gr) e
                      left reach in
                  rw e rw up (rw e at fit)
              | inr whole ↦
                  let z : n % m ≡ 0 = ground (arith, whole) in
                  let no : ltb_ℤ (pos 0) (tools.float_compare (pos (n % m)) (pos 0) u) ≡ false =
                    not_above tools u (pos (n % m)) (pos 0) gr gz (omega (arith, z)) in
                  let fit = whole-Fits wanted stock n gn e z reach in rw e rw no (rw e at fit)
            ]
      ]

  pub to_multiple-zero :
      Grid tools op.uom_rounding (pos 0)
      → to_multiple tools schedule moves config op (pos 0) ≡ pos 0
  unfolding mod_ℤ
  to_multiple-zero gz = elim (Bool-cases (has_multiple tools schedule moves config op)) [
    | inr e ↦ rw e refl
    | inl e ↦
        let z : 0 % op.qty_multiple ≡ 0 = ground arith in
        let no = not_above tools op.uom_rounding (pos 0) (pos 0) gz gz (omega arith) in
        rw e rw z rw no refl
  ]
