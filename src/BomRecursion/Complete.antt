-- ===== src/BomRecursion/Complete.antt =====
-- mrp_check_bom_recursion: what a check that ends silently means.
use odoo_addons.Base.{
  ℕ, zero, suc, ◌≡◌, refl, inl, inr, false, some, List, [], ◌∷◌, In, here, there, mem-of_In, mem,
  In-keep, Bool-cases, same_id,
}
use odoo_addons.BomRecursion.{Bom, passed, search_product, check_bom_recursion, check_bom}
use odoo_addons.BomRecursion.Path.{Uses, Leads, one, more, same_id_refl, for_each-passed}

module _ (db : List Bom) where
  -- The check has passed below a line for `q`, that was reached along `products`.
  record Clear (q : ℕ) : Type 0 where
    fuel : ℕ
    products : List ℕ
    fresh : mem q products ≡ false
    below :
        (c : Bom)
        → In c db
        → c.product_id ≡ some q
        → check_bom_recursion fuel db (q ∷ products) (c ∷ []) ≡ passed

  search_has : (c : Bom) (q : ℕ) → In c db → c.product_id ≡ some q → In c (search_product db q)
  search_has c q m e = In-keep (λ b. same_id b.product_id (some q)) m (rw e (same_id_refl q))

  line_Clear :
      (fuel : ℕ) (products : List ℕ) (boms : List Bom) (b : Bom) (q : ℕ)
      → check_bom_recursion fuel db products boms ≡ passed
      → In b boms
      → In q b.bom_line_ids
      → (c : Clear q) × (c.products ≡ products)
  unfolding check_bom_recursion
  line_Clear zero products boms b q h m line = cc
  line_Clear (suc fuel) products boms b q h m line =
      let h' = for_each-passed _ boms h m in
      let h'' = for_each-passed _ b.bom_line_ids h' line in
      elim (Bool-cases (mem q products)) [
        | inl old ↦ let r = rw old at h'' in cc
        | inr new ↦
            let r = rw new at h'' in
            (
              record {
                fuel = fuel;
                products = products;
                fresh = new;
                below = λ c in_db of_q.
                    for_each-passed _ (search_product db q) r (search_has c q in_db of_q);
              },
              refl,
            )
      ]

  step_Clear : (q r : ℕ) (c : Clear q) → Uses db q r → (d : Clear r) × (d.products ≡ q ∷ c.products)
  step_Clear q r c (b, in_db, of_q, line) =
      line_Clear c.fuel (q ∷ c.products) (b ∷ []) b r (c.below b in_db of_q) (here refl) line

  -- Along a path, the products seen so far keep the product that the path left.
  path_Clear : {q r : ℕ} (c : Clear q) → Leads db q r → (d : Clear r) × In q d.products
  path_Clear {q} {r} c (one u) = let (d, e) = step_Clear q r c u in (d, rw e (here refl))
  path_Clear {q} {r} c (more {q = m} l u) =
      let (d, i) = path_Clear c l in let (d', e) = step_Clear m r d u in (d', rw e (there i))

  Clear-no_cycle : (q : ℕ) → Clear q → ¬ Leads db q q
  Clear-no_cycle q c l = let (d, i) = path_Clear c l in let t = mem-of_In i in let f = d.fresh in cc

pub check_bom_clears :
    (db : List Bom) (b : Bom) (q r : ℕ)
    → check_bom db b ≡ passed
    → In q b.bom_line_ids
    → (¬ Leads db q q) × (Leads db q r → ¬ Leads db r r)
unfolding check_bom
check_bom_clears db b q r h line =
    let (c, _) = line_Clear db _ [] (b ∷ []) b q h (here refl) line in
    (Clear-no_cycle db q c, λ l. Clear-no_cycle db r (path_Clear db c l).0)
