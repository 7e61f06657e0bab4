-- ===== src/BomRecursion/Sound.antt =====
-- mrp_check_bom_recursion: what a raised exception means.
use odoo_addons.Base.{
  ℕ, zero, suc, ◌≡◌, inl, inr, some, List, [], ◌∷◌, In, here, there, In-of_mem, mem, keep-In,
  Bool-cases,
}
use mathlib.Core.Path.{subst}
use odoo_addons.BomRecursion.{Bom, recursive, search_product, check_bom_recursion, check_bom}
use odoo_addons.BomRecursion.Path.{Leads, one, more, same_id-eq, for_each-recursive}

recursive-injective : (p q : ℕ) → recursive p ≡ recursive q → p ≡ q
recursive-injective p q e = cc

module _ (db : List Bom) where
  -- Every product already seen leads to every line of the BoM.
  abbrev Seen : List ℕ → Bom → Type 0
  Seen products b = (x q : ℕ) → In x products → In q b.bom_line_ids → Leads db x q

  deeper_Seen :
      (products : List ℕ) (b c : Bom) (q : ℕ)
      → Seen products b
      → In q b.bom_line_ids
      → In c db
      → c.product_id ≡ some q
      → Seen (q ∷ products) c
  deeper_Seen products b c q seen line there_c of_q x r (here e) line' =
      rw (← e) (one (c, there_c, of_q, line'))
  deeper_Seen products b c q seen line there_c of_q x r (there m) line' =
      more (seen x q m line) (c, there_c, of_q, line')

  single : (P : Bom → Type 0) (c : Bom) → P c → (b : Bom) → In b (c ∷ []) → P b
  single P c h b (here e) = subst P e h
  single P c h b (there m) = elim m [ ]

  found :
      (fuel : ℕ) (products : List ℕ) (boms : List Bom) (p : ℕ)
      → ((b : Bom) → In b boms → Seen products b)
      → check_bom_recursion fuel db products boms ≡ recursive p
      → Leads db p p
  unfolding check_bom_recursion
  found zero products boms p seen h = cc
  found (suc fuel) products boms p seen h =
      let (b, in_boms, h') = for_each-recursive _ boms p h in
      let (q, line, h'') = for_each-recursive _ b.bom_line_ids p h' in
      elim (Bool-cases (mem q products)) [
        | inl old ↦
            let e : q ≡ p = recursive-injective q p (rw old at h'') in
            rw (← e) (seen b in_boms q q (In-of_mem q products old) line)
        | inr new ↦
            let (c, found_c, r) = for_each-recursive _ (search_product db q) p (rw new at h'') in
            let (in_db, of_q) = keep-In _ db found_c in
            found fuel (q ∷ products) (c ∷ []) p
              (single (Seen (q ∷ products)) c
                (deeper_Seen products b c q (seen b in_boms) line in_db (same_id-eq _ q of_q)))
              r
      ]

-- The check raises only for a product that leads back to itself, so a BoM without a cycle is
-- never refused.
pub check_bom_raises_on_cycle :
    (db : List Bom) (b : Bom) (p : ℕ) → check_bom db b ≡ recursive p → Leads db p p
unfolding check_bom
check_bom_raises_on_cycle db b p h = found db _ [] (b ∷ []) p (λ c m x q seen. elim seen [ ]) h
