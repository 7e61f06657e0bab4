-- ===== src/BomRecursion.antt =====
-- mrp_check_bom_recursion/mrp_check_bom_recursion.py: the recursion check of bills of materials
-- (BoMs), and the operations on BoMs and BoM lines that run it.
--
-- A database is the list of its BoMs. `search([('product_id', '=', p)])` keeps the BoMs of `p`; a
-- BoM whose `product_id` is unset is found for no product. The recursion of the source takes fuel
-- here, and `too_deep` stands for a call whose fuel ran out.
mod Path
mod Total
mod Sound
mod Complete
mod Database
mod Lines
mod Tests
use odoo_addons.Base.{
  ℕ, zero, suc, ◌+◌, Bool, ◌&&◌, ◌||◌, not, is_some, map, any, Option, none, some, List, [], ◌∷◌,
  ◌++◌, length, keep, mem, ◌==◌, same_id, if◌then◌else◌,
}

pub record Bom : Type 0 where
  pub id : ℕ
  pub product_id : Option ℕ
  pub bom_line_ids : List ℕ

-- How a check ends: silently, by the exception that names a product, or short of fuel.
pub data Check : Type 0 where
  passed : Check
  recursive : ℕ → Check
  too_deep : Check

abbrev pub and_then : Check → Check → Check
and_then passed next = next
and_then (recursive p) next = recursive p
and_then too_deep next = too_deep

-- A `for` loop whose body may raise.
abbrev pub for_each {ℓ} : {A : Type ℓ} → (A → Check) → List A → Check
for_each f [] = passed
for_each f (x ∷ xs) = and_then (f x) (for_each f xs)

abbrev pub search_product : List Bom → ℕ → List Bom
search_product db p = keep (λ b. same_id b.product_id (some p)) db

-- The body of the inner loop, for the line's product `p`; `deeper` is the recursive call.
abbrev pub check_line : (List ℕ → List Bom → Check) → List Bom → List ℕ → ℕ → Check
check_line deeper db products p =
    if mem p products
    then recursive p
    else for_each (λ b. deeper (p ∷ products) (b ∷ [])) (search_product db p)

pub check_bom_recursion : ℕ → List Bom → List ℕ → List Bom → Check
check_bom_recursion zero db products boms = too_deep
check_bom_recursion (suc fuel) db products boms =
    for_each (λ b. for_each (check_line (check_bom_recursion fuel db) db products) b.bom_line_ids)
      boms

-- Every product that some line of the database names.
abbrev pub line_products : List Bom → List ℕ
line_products [] = []
line_products (b ∷ db) = b.bom_line_ids ++ line_products db

-- One round for each line of the database and two more are always enough.
abbrev pub enough_fuel : List Bom → ℕ
enough_fuel db = length (line_products db) + 2

pub check_bom : List Bom → Bom → Check
unfolding check_bom_recursion
check_bom db b = check_bom_recursion (enough_fuel db) db [] (b ∷ [])

-- What a transaction leaves: the new database, or the exception, which rolls the write back.
pub data Outcome : Type 0 where
  done : List Bom → Outcome
  failed : Check → Outcome

abbrev pub commit : Check → List Bom → Outcome
commit passed db = done db
commit (recursive p) db = failed (recursive p)
commit too_deep db = failed too_deep

-- `MrpBom.create`
pub create_bom : List Bom → Bom → Outcome
unfolding check_bom
create_bom db b = commit (check_bom (b ∷ db) b) (b ∷ db)

-- The record of the database that has the identifier, replaced.
abbrev pub replace_bom : Bom → List Bom → List Bom
replace_bom b [] = []
replace_bom b (c ∷ db) = if c.id == b.id then b ∷ db else c ∷ replace_bom b db

-- `MrpBom.write` on one record; the flag says whether the values name a product or the lines.
pub write_bom : List Bom → Bom → Bool → Outcome
unfolding check_bom
write_bom db b names_structure =
    let db' = replace_bom b db in if names_structure then commit (check_bom db' b) db' else done db'

-- `MrpBomLine.create`: a line for product `p` on BoM `b`, which is checked afterwards.
pub create_line : List Bom → Bom → ℕ → Outcome
unfolding check_bom
create_line db b p =
    let b' = record b { bom_line_ids = b.bom_line_ids ++ (p ∷ []) } in
    let db' = replace_bom b' db in commit (check_bom db' b') db'

-- A line is named by its BoM and its position in it.
abbrev pub is_written : List (ℕ × ℕ) → ℕ → ℕ → Bool
is_written recs bom n = any (λ r. r.0 == bom && r.1 == n) recs

abbrev pub new_product : Option ℕ → ℕ → ℕ
new_product none p = p
new_product (some q) p = q

-- The lines of a BoM from a position on, with the product of those that are written.
abbrev pub set_products : List (ℕ × ℕ) → Option ℕ → ℕ → ℕ → List ℕ → List ℕ
set_products recs product bom n [] = []
set_products recs product bom n (p ∷ ps) =
    (if is_written recs bom n then new_product product p else p)
    ∷ set_products recs product bom (suc n) ps

abbrev pub other_lines : List (ℕ × ℕ) → ℕ → ℕ → List ℕ → List ℕ
other_lines recs bom n [] = []
other_lines recs bom n (p ∷ ps) =
    let rest = other_lines recs bom (suc n) ps in if is_written recs bom n then rest else p ∷ rest

abbrev pub written_lines : List (ℕ × ℕ) → Option ℕ → ℕ → ℕ → List ℕ → List ℕ
written_lines recs product bom n [] = []
written_lines recs product bom n (p ∷ ps) =
    let rest = written_lines recs product bom (suc n) ps in
    if is_written recs bom n then new_product product p ∷ rest else rest

abbrev pub moved_lines : List (ℕ × ℕ) → Option ℕ → List Bom → List ℕ
moved_lines recs product [] = []
moved_lines recs product (b ∷ db) =
    written_lines recs product b.id 0 b.bom_line_ids ++ moved_lines recs product db

-- The values of a write: a product, a BoM, or none of them.
abbrev pub write_lines_of : List (ℕ × ℕ) → Option ℕ → Option ℕ → List ℕ → Bom → Bom
write_lines_of recs product none moved b = record b {
  bom_line_ids = set_products recs product b.id 0 b.bom_line_ids;
}
write_lines_of recs product (some bom) moved b =
    let others = other_lines recs b.id 0 b.bom_line_ids in
    record b { bom_line_ids = if b.id == bom then others ++ moved else others }

-- The BoM of a line after the write.
abbrev pub bom_of : Option ℕ → ℕ × ℕ → ℕ
bom_of none r = r.0
bom_of (some bom) r = bom

abbrev pub check_lines : List Bom → Option ℕ → List (ℕ × ℕ) → Check
check_lines db bom recs =
    for_each (λ r. for_each (check_bom db) (keep (λ b. b.id == bom_of bom r) db)) recs

-- `MrpBomLine.write` on lines of the database.
pub write_lines : List Bom → List (ℕ × ℕ) → Option ℕ → Option ℕ → Outcome
write_lines db recs product bom =
    let db' = map (write_lines_of recs product bom (moved_lines recs product db)) db in
    if is_some product || is_some bom then commit (check_lines db' bom recs) db' else done db'
