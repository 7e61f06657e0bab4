-- ===== src/BomRecursion/Tests.antt =====
-- mrp_check_bom_recursion: small databases, and the theorems at them.
use odoo_addons.Base.{ℕ, ◌≡◌, refl, ◌≢◌, some, none, List, [], ◌∷◌, here}
use odoo_addons.BomRecursion.{
  Bom, passed, recursive, too_deep, check_bom_recursion, check_bom, done, failed, create_bom,
  write_lines,
}
use odoo_addons.BomRecursion.Path.{Leads}
use odoo_addons.BomRecursion.Sound.{check_bom_raises_on_cycle}
use odoo_addons.BomRecursion.Total.{check_bom-ne-too_deep}

abbrev bom : ℕ → ℕ → List ℕ → Bom
bom i p ls = record { id = i; product_id = some p; bom_line_ids = ls }

-- A table from a top and legs, a leg from wood, and a kit of both without a product.
abbrev shop : List Bom
shop = bom 1 10 (20 ∷ 30 ∷ []) ∷ bom 2 30 (40 ∷ []) ∷ []

abbrev wooden : Bom
wooden = bom 3 40 (10 ∷ [])

shop_passes : check_bom shop (bom 1 10 (20 ∷ 30 ∷ [])) ≡ passed
unfolding check_bom check_bom_recursion
shop_passes = refl

wood_from_tables : create_bom shop wooden ≡ failed (recursive 10)
unfolding create_bom check_bom check_bom_recursion
wood_from_tables = refl

leg_with_a_diamond :
    create_bom shop (bom 3 50 (40 ∷ 30 ∷ [])) ≡ done (bom 3 50 (40 ∷ 30 ∷ []) ∷ shop)
unfolding create_bom check_bom check_bom_recursion
leg_with_a_diamond = refl

check_bom_raises_on_cycle_example : Leads (wooden ∷ shop) 10 10
unfolding check_bom check_bom_recursion
check_bom_raises_on_cycle_example = check_bom_raises_on_cycle (wooden ∷ shop) wooden 10 refl

check_bom-ne-too_deep_example : check_bom (wooden ∷ shop) wooden ≢ too_deep
check_bom-ne-too_deep_example = check_bom-ne-too_deep (wooden ∷ shop) wooden (here refl)

abbrev kit : Bom
kit = record { id = 7; product_id = none; bom_line_ids = 10 ∷ [] }

-- The first line of the table gets the product of the leg, then a line of the leg becomes a table.
two_legs :
    write_lines shop ((1, 0) ∷ []) (some 30) none
    ≡ done (bom 1 10 (30 ∷ 30 ∷ []) ∷ bom 2 30 (40 ∷ []) ∷ [])
unfolding write_lines check_bom check_bom_recursion
two_legs = refl

leg_of_tables : write_lines shop ((2, 0) ∷ []) (some 10) none ≡ failed (recursive 10)
unfolding write_lines check_bom check_bom_recursion
leg_of_tables = refl

wood_moves :
    write_lines shop ((2, 0) ∷ []) none (some 1)
    ≡ done (bom 1 10 (20 ∷ 30 ∷ 40 ∷ []) ∷ bom 2 30 [] ∷ [])
unfolding write_lines check_bom check_bom_recursion
wood_moves = refl
