-- ===== src/PurchaseJit/Grouping/Conservation.antt =====
-- purchase_procurement_just_in_time/models/procurement.py: the grouping ends and loses nothing.
use odoo_addons.Base.{
  ℕ, ◌+◌, ◌≤◌, ◌≡◌, refl, sym, ap, ◌∙◌, Bool, false, not, ◌&&◌, Option, none, some, List, [], ◌∷◌,
  ◌++◌, map, ltb, leb, ◌==◌, if◌then◌else◌, keep, mem, arith, Bool-cases, inl, inr,
}
use odoo_addons.Base.Count.{times, times-append, times-eq-zero, times-keep_absent}
use odoo_addons.PurchaseJit.Assignment.{Procurement}
use odoo_addons.PurchaseJit.Assignment.Prefix.{ids_of}
use odoo_addons.PurchaseJit.Grouping.{
  NewLine, Setting, add_line, without, line_qty, reach_moq, add_procs_to_reach_moq, until,
  get_purchase_line_procurements,
}

abbrev pub in_lines : ℕ → List NewLine → ℕ
in_lines i [] = 0
in_lines i (l ∷ ls) = times i l.procurement_ids + in_lines i ls

module _ (i : ℕ) where
  pub in_lines-add_line :
      (order_id product_id : ℕ) (ids : List ℕ) (ls : List NewLine)
      → in_lines i (add_line order_id product_id ids ls) ≡ in_lines i ls + times i ids
  in_lines-add_line order_id product_id ids [] = omega arith
  in_lines-add_line order_id product_id ids (l ∷ ls) =
      elim (Bool-cases (l.order_id == order_id && l.product_id == product_id)) [
        | inl t ↦ rw t omega (arith, times-append i l.procurement_ids ids)
        | inr t ↦ rw t omega (arith, in_lines-add_line order_id product_id ids ls)
      ]

  map_self : (xs : List ℕ) → times i (map (λ x. x) xs) ≡ times i xs
  map_self [] = refl
  map_self (x ∷ xs) = omega (arith, map_self xs)

  pub times-without :
      (ids others : List ℕ)
      → times i (without ids others) ≡ (if mem i others then 0 else times i ids)
  times-without ids others =
      sym (map_self (without ids others))
      ∙ times-keep_absent (λ x. x) i others ids
      ∙ ap (λ n. if mem i others then 0 else n) (map_self ids)

  times-keep_le :
      (p : Procurement → Bool) (ps : List Procurement)
      → times i (ids_of (keep p ps)) ≤ times i (ids_of ps)
  times-keep_le p [] = omega arith
  times-keep_le p (x ∷ ps) = elim (Bool-cases (p x)) [
    | inl t ↦ rw t omega (arith, times-keep_le p ps)
    | inr t ↦ rw t omega (arith, times-keep_le p ps)
  ]

  times-ids_append :
      (xs ys : List Procurement)
      → times i (ids_of (xs ++ ys)) ≡ times i (ids_of xs) + times i (ids_of ys)
  times-ids_append [] ys = omega arith
  times-ids_append (x ∷ xs) ys = omega (arith, times-ids_append xs ys)

  not_mem : (xs : List ℕ) → mem i xs ≡ false → times i xs ≡ 0
  not_mem xs h = times-eq-zero i xs h

  module _ (s : Setting) where
    times-reach_moq :
        (first : Procurement) (moq qty : ℕ) (ps : List Procurement)
        → times i (ids_of (reach_moq s first moq qty ps)) ≤ times i (ids_of ps)
    times-reach_moq first moq qty [] = omega arith
    times-reach_moq first moq qty (p ∷ ps) =
        let next_qty =
          qty + s.compute_qty p.product_uom p.product_qty (s.uom_of first.product_id) in
        elim (Bool-cases (ltb moq next_qty)) [
          | inl t ↦ rw t omega arith
          | inr t ↦ rw t omega (arith, times-reach_moq first moq next_qty ps)
        ]

    times-add_procs :
        (first : Procurement) (xs ys : List Procurement)
        → times i (ids_of (add_procs_to_reach_moq s first xs ys))
          ≤ times i (ids_of xs) + times i (ids_of ys)
    times-add_procs first xs ys =
        let qty = line_qty s first xs in
        let moq = s.moq_of first.product_id in
        elim (Bool-cases (ltb 0 moq && ltb qty moq)) [
          | inl t ↦ rw t omega (
            arith,
            times-ids_append xs (reach_moq s first moq qty ys),
            times-reach_moq first moq qty ys,
          )
          | inr t ↦ rw t omega arith
        ]

    times-until :
        (o : Option ℕ) (ps : List Procurement)
        → times i (ids_of (until s o ps)) ≤ times i (ids_of ps)
    times-until none ps = omega arith
    times-until (some d) ps = times-keep_le (λ p. leb p.date_planned d) ps

    -- A round takes no procurement more often than there is.
    pub times-get_line :
        (first : Procurement) (ps : List Procurement) (date : ℕ)
        → times i (get_purchase_line_procurements s first ps date) ≤ times i (ids_of ps)
    times-get_line first ps date =
        let xs = until s (s.period_end first date) ps in
        let ys = keep (λ p. not (mem p.id (ids_of xs))) ps in
        let added = times-add_procs first xs ys in
        let left = times-keep_absent (λ p. p.id) i (ids_of xs) ps in
        let some_of = times-until (s.period_end first date) ps in
        elim (Bool-cases (mem i (ids_of xs))) [
          | inl t ↦ ground (arith, added, left, some_of)
          | inr t ↦ let z = times-eq-zero i (ids_of xs) t in ground (arith, added, left, some_of, z)
        ]
