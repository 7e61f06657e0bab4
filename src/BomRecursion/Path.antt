-- ===== src/BomRecursion/Path.antt =====
-- mrp_check_bom_recursion: the paths from product to product that the recursion walks.
use odoo_addons.Base.{
  ℕ, ◌≡◌, refl, ◌⊎◌, inl, inr, some, List, [], ◌∷◌, true, In, here, there, ◌≢◌, same_id, Option,
  none, arith,
}
use odoo_addons.BomRecursion.{Bom, Check, passed, recursive, too_deep, for_each}

-- Some BoM of product `p` has a line for product `q`.
abbrev pub Uses : List Bom → ℕ → ℕ → Type 0
Uses db p q = (b : Bom) × In b db × (b.product_id ≡ some p) × In q b.bom_line_ids

-- One BoM line or more lead from the first product to the second.
pub data Leads (db : List Bom) : ℕ → ℕ → Type 0 where
  one : {p q : ℕ} → Uses db p q → Leads db p q
  more : {p q r : ℕ} → Leads db p q → Uses db q r → Leads db p r

abbrev pub IsAcyclic : List Bom → Type 0
IsAcyclic db = (p : ℕ) → ¬ Leads db p p

-- The BoM has a line from which a product on a cycle can be reached.
pub data ReachesCycle (db : List Bom) (b : Bom) : Type 0 where
  at_line : {q : ℕ} → In q b.bom_line_ids → Leads db q q → ReachesCycle db b
  beyond : {q r : ℕ} → In q b.bom_line_ids → Leads db q r → Leads db r r → ReachesCycle db b

pub Leads-trans : {db : List Bom} {p q r : ℕ} → Leads db p q → Leads db q r → Leads db p r
Leads-trans h (one u) = more h u
Leads-trans h (more l u) = more (Leads-trans h l) u

pub Check-cases : (c : Check) → (c ≡ passed) ⊎ (c ≢ passed)
Check-cases passed = inl refl
Check-cases (recursive p) = inr (λ e. cc)
Check-cases too_deep = inr (λ e. cc)

pub same_id-eq : (a : Option ℕ) (p : ℕ) → same_id a (some p) ≡ true → a ≡ some p
same_id-eq none p h = cc
same_id-eq (some a) p h = ground arith

pub same_id_refl : (p : ℕ) → same_id (some p) (some p) ≡ true
same_id_refl p = ground arith

module _ {A : Type 0} (f : A → Check) where
  pub for_each-passed : (xs : List A) {a : A} → for_each f xs ≡ passed → In a xs → f a ≡ passed
  for_each-passed [] h m = elim m [ ]
  for_each-passed (x ∷ xs) h (here e) = rw (← e) (ground arith)
  for_each-passed (x ∷ xs) h (there m) = for_each-passed xs (ground arith) m

  pub for_each-recursive :
      (xs : List A) (p : ℕ) → for_each f xs ≡ recursive p → (a : A) × In a xs × (f a ≡ recursive p)
  for_each-recursive [] p h = cc
  for_each-recursive (x ∷ xs) p h = elim (Check-cases (f x)) [
    | inl e ↦ let (a, m, r) = for_each-recursive xs p (ground arith) in (a, there m, r)
    | inr e ↦ (x, here refl, ground arith)
  ]

  pub for_each-too_deep :
      (xs : List A) → for_each f xs ≡ too_deep → (a : A) × In a xs × (f a ≡ too_deep)
  for_each-too_deep [] h = cc
  for_each-too_deep (x ∷ xs) h = elim (Check-cases (f x)) [
    | inl e ↦ let (a, m, r) = for_each-too_deep xs (ground arith) in (a, there m, r)
    | inr e ↦ (x, here refl, ground arith)
  ]
