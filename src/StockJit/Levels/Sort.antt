-- ===== src/StockJit/Levels/Sort.antt =====
-- A stable insertion sort by a Boolean order, as `sorted` and `ORDER BY` are used.
use odoo_addons.Base.{
  ℕ, ◌≡◌, refl, ◌≤◌, Bool, List, [], ◌∷◌, leb, if◌then◌else◌, All, Bool-cases, inl, inr, arith,
}

module _ {A : Type 0} (le : A → A → Bool) where
  unfoldable pub insert_by : A → List A → List A
  insert_by x [] = x ∷ []
  insert_by x (y ∷ ys) = if le x y then x ∷ y ∷ ys else y ∷ insert_by x ys

  unfoldable pub sort_by : List A → List A
  unfolding insert_by
  sort_by [] = []
  sort_by (x ∷ xs) = insert_by x (sort_by xs)

-- Sorted by a key: each key is at most those that follow.
abbrev pub IsSorted : {A : Type 0} → (A → ℕ) → List A → Type 0
IsSorted key [] = Unit
IsSorted key (x ∷ xs) = All (λ y. key x ≤ key y) xs × IsSorted key xs

module _ {A : Type 0} (key : A → ℕ) where
  abbrev le : A → A → Bool
  le a b = leb (key a) (key b)

  insert_by-All :
      (P : A → Type 0) (x : A) (ys : List A) → P x → All P ys → All P (insert_by le x ys)
  unfolding insert_by
  insert_by-All P x [] h hs = (h, tt)
  insert_by-All P x (y ∷ ys) h hs = elim (Bool-cases (le x y)) [
    | inl e ↦ rw e (h, hs)
    | inr e ↦ rw e (hs.0, insert_by-All P x ys h hs.1)
  ]

  All_le : (n m : ℕ) (ys : List A) → n ≤ m → All (λ y. m ≤ key y) ys → All (λ y. n ≤ key y) ys
  All_le n m [] h hs = tt
  All_le n m (y ∷ ys) h hs = (omega arith, All_le n m ys h hs.1)

  insert_by-IsSorted : (x : A) (ys : List A) → IsSorted key ys → IsSorted key (insert_by le x ys)
  unfolding insert_by
  insert_by-IsSorted x [] h = (tt, tt)
  insert_by-IsSorted x (y ∷ ys) h = elim (Bool-cases (le x y)) [
    | inl e ↦ let q : key x ≤ key y = ground arith in rw e ((q, All_le (key x) (key y) ys q h.0), h)
    | inr e ↦
        let q : key y ≤ key x = ground arith in
        rw e (insert_by-All (λ z. key y ≤ key z) x ys q h.0, insert_by-IsSorted x ys h.1)
  ]

  pub sort_by-IsSorted : (xs : List A) → IsSorted key (sort_by le xs)
  unfolding sort_by
  sort_by-IsSorted [] = tt
  sort_by-IsSorted (x ∷ xs) = insert_by-IsSorted x (sort_by le xs) (sort_by-IsSorted xs)

  -- What is sorted already stays as it is.
  pub sort_by-IsSorted' : (xs : List A) → IsSorted key xs → sort_by le xs ≡ xs
  unfolding sort_by
  sort_by-IsSorted' [] h = refl
  sort_by-IsSorted' (x ∷ xs) h = rw (sort_by-IsSorted' xs h.1) (insert_first x xs h.0)
    where
      insert_first :
          (x : A) (ys : List A) → All (λ y. key x ≤ key y) ys → insert_by le x ys ≡ x ∷ ys
      insert_first x [] h = refl
      insert_first x (y ∷ ys) h = ground arith
