-- ===== src/Base/Count.antt =====
-- How often a number is in a list, which says what a program keeps, moves and doubles.
use odoo_addons.Base.{
  ℕ, ◌+◌, ◌≤◌, ◌≡◌, refl, sym, ap, ◌∙◌, true, false, not, ◌||◌, List, [], ◌∷◌, ◌++◌, map, ◌==◌,
  if◌then◌else◌, keep, mem, arith, Bool-cases, inl, inr,
}

-- The argument order is that of `mem`.
abbrev pub times : ℕ → List ℕ → ℕ
times n [] = 0
times n (item ∷ rest) = times n rest + (if item == n then 1 else 0)

pub times-append :
    (n : ℕ) (left right : List ℕ) → times n (left ++ right) ≡ times n left + times n right
times-append n [] right = omega arith
times-append n (item ∷ rest) right = omega (times-append n rest right, arith)

pub times-eq-zero : (a : ℕ) (xs : List ℕ) → mem a xs ≡ false → times a xs ≡ 0
times-eq-zero a [] h = refl
times-eq-zero a (x ∷ xs) h = ground (arith, times-eq-zero a xs)

pub times_pos : (a : ℕ) (xs : List ℕ) → mem a xs ≡ true → 1 ≤ times a xs
times_pos a [] h = cc
times_pos a (x ∷ xs) h = ground (arith, times_pos a xs)

pub mem-append : (a : ℕ) (xs ys : List ℕ) → mem a (xs ++ ys) ≡ (mem a xs || mem a ys)
mem-append a [] ys = refl
mem-append a (x ∷ xs) ys = elim (Bool-cases (a == x)) [
  | inl t ↦ rw t refl
  | inr t ↦ rw t (mem-append a xs ys)
]

module _ {A : Type 0} (f : A → ℕ) where
  -- The items that stay are those whose number is not listed.
  pub times-keep_absent :
      (a : ℕ) (l : List ℕ) (xs : List A)
      → times a (map f (keep (λ x. not (mem (f x) l)) xs))
        ≡ (if mem a l then 0 else times a (map f xs))
  times-keep_absent a l [] = ground arith
  times-keep_absent a l (x ∷ xs) = elim (Bool-cases (mem (f x) l)) [
    | inl m ↦ elim (Bool-cases (f x == a)) [
      | inl t ↦
          let same : f x ≡ a = ground arith in
          let m' : mem a l ≡ true = ap (λ y. mem y l) (sym same) ∙ m in
          ground (arith, times-keep_absent a l xs)
      | inr t ↦ ground (arith, times-keep_absent a l xs)
    ]
    | inr m ↦ elim (Bool-cases (f x == a)) [
      | inl t ↦
          let same : f x ≡ a = ground arith in
          let m' : mem a l ≡ false = ap (λ y. mem y l) (sym same) ∙ m in
          ground (arith, times-keep_absent a l xs)
      | inr t ↦ ground (arith, times-keep_absent a l xs)
    ]
  ]
