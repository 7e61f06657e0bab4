-- ===== src/BomRecursion/Total.antt =====
-- mrp_check_bom_recursion: the recursion ends. Each call adds a product of some line to the
-- products seen, and a product seen is refused, so the calls nest no deeper than there are lines.
use odoo_addons.Base.{
  ℕ, zero, suc, ◌≤◌, ◌<◌, ◌≡◌, ◌≢◌, inl, inr, false, List, [], ◌∷◌, In, here, there, mem, keep-In,
  In-append_left, In-append_right, length, Bool-cases, arith, if◌then◌else◌,
}
use odoo_addons.BomRecursion.{
  Bom, too_deep, search_product, check_bom_recursion, check_bom, line_products, enough_fuel,
}
use odoo_addons.BomRecursion.Path.{for_each-too_deep}

-- How many places of a list hold a product that was not seen yet.
abbrev missing : List ℕ → List ℕ → ℕ
missing products [] = 0
missing products (u ∷ us) =
    if mem u products then missing products us else suc (missing products us)

missing-le : (q : ℕ) (products us : List ℕ) → missing (q ∷ products) us ≤ missing products us
missing-le q products [] = omega arith
missing-le q products (u ∷ us) = ground (arith, missing-le q products us)

missing-lt :
    (q : ℕ) (products us : List ℕ)
    → In q us
    → mem q products ≡ false
    → missing (q ∷ products) us < missing products us
missing-lt q products [] m f = elim m [ ]
missing-lt q products (u ∷ us) (here e) f =
    let f' : mem u products ≡ false = rw e f in ground (arith, missing-le q products us)
missing-lt q products (u ∷ us) (there m) f = ground (arith, missing-lt q products us m f)

missing-le-length : (products us : List ℕ) → missing products us ≤ length us
missing-le-length products [] = omega arith
missing-le-length products (u ∷ us) = ground (arith, missing-le-length products us)

In-line_products :
    {q : ℕ} {b : Bom} {db : List Bom} → In b db → In q b.bom_line_ids → In q (line_products db)
In-line_products (here {x} {xs} e) m = In-append_left (line_products xs) (rw (← e) at m)
In-line_products (there {x} {xs} i) m = In-append_right x.bom_line_ids (In-line_products i m)

module _ (db : List Bom) where
  ends :
      (fuel : ℕ) (products : List ℕ) (boms : List Bom)
      → ((b : Bom) (q : ℕ) → In b boms → In q b.bom_line_ids → In q (line_products db))
      → missing products (line_products db) < fuel
      → check_bom_recursion fuel db products boms ≢ too_deep
  unfolding check_bom_recursion
  ends zero products boms lines enough h = absurd (omega arith)
  ends (suc fuel) products boms lines enough h =
      let (b, in_boms, h') = for_each-too_deep _ boms h in
      let (q, line, h'') = for_each-too_deep _ b.bom_line_ids h' in
      elim (Bool-cases (mem q products)) [
        | inl old ↦ let r = rw old at h'' in cc
        | inr new ↦
            let (c, found_c, r) = for_each-too_deep _ (search_product db q) (rw new at h'') in
            let (in_db, _) = keep-In _ db found_c in
            ends fuel (q ∷ products) (c ∷ []) (single c in_db)
              (omega (arith, missing-lt q products _ (lines b q in_boms line) new)) r
      ]
    where
      single :
          (c : Bom)
          → In c db
          → (b : Bom) (q : ℕ) → In b (c ∷ [])
          → In q b.bom_line_ids
          → In q (line_products db)
      single c in_db b q (here e) m = In-line_products in_db (rw (← e) at m)
      single c in_db b q (there i) m = elim i [ ]

-- The check of a BoM of the database always comes to an end: its fuel never runs out.
pub check_bom-ne-too_deep : (db : List Bom) (b : Bom) → In b db → check_bom db b ≢ too_deep
unfolding check_bom
check_bom-ne-too_deep db b m =
    ends db (enough_fuel db) [] (b ∷ []) lines
      (omega (arith, missing-le-length [] (line_products db)))
  where
    lines : (c : Bom) (q : ℕ) → In c (b ∷ []) → In q c.bom_line_ids → In q (line_products db)
    lines c q (here e) i = In-line_products m (rw (← e) at i)
    lines c q (there j) i = elim j [ ]
