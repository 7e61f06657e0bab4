-- ===== src/StockJit/Levels/Running.antt =====
-- stock_procurement_just_in_time: the loop over the dates in `compute_stock_levels_requirements`
-- against the balance that it is meant to compute.
use mathlib.Core.Path.{ap₂}
use mathlib.Core.List.{map-append}
use odoo_addons.Base.{
  ℕ, zero, suc, ◌≤◌, ◌<◌, ◌≡◌, refl, sym, ap, ◌∙◌, inl, inr, Bool, not, List, [], ◌∷◌, ◌++◌, map,
  leb, ◌==◌, length, length-keep, keep, All, Bool-cases, arith,
}
use odoo_addons.Base.Int.{ℤ, ◌+ℤ◌, int_laws, +ℤ_assoc}
use odoo_addons.StockJit.Levels.Sort.{insert_by, sort_by, IsSorted}
use odoo_addons.StockJit.Levels.{
  MoveType, Item, Level, rank, sum_qty, same_date, other_date, level_row, running_levels,
}

abbrev pub key : Item → ℕ
key i = rank i.date

-- The sum of all quantities up to a date, given by its rank.
abbrev pub balance : ℕ → List Item → ℤ
balance d items = sum_qty (keep (λ i. leb (key i) d) items)

-- The row of a dictionary with the balance of `items` at its date, on top of `base`.
abbrev pub balance_row : ℕ → ℤ → List Item → Item → Level
balance_row product base items i = level_row product (base +ℤ balance (key i) items) i

abbrev pub typed : (MoveType → Bool) → List Item → List Item
typed wanted items = keep (λ i. wanted i.move_type) items

balance-insert :
    (d : ℕ) (x : Item) (ys : List Item)
    → balance d (insert_by (λ a b. leb (key a) (key b)) x ys) ≡ balance d (x ∷ ys)
unfolding insert_by
balance-insert d x [] = refl
balance-insert d x (y ∷ ys) = elim (Bool-cases (leb (key x) (key y))) [
  | inl e ↦ rw e
  | inr e ↦ rw e (grind (int_laws, balance-insert d x ys))
]

-- The balance does not depend on the order of the dictionaries.
pub balance-sort :
    (d : ℕ) (xs : List Item) → balance d (sort_by (λ a b. leb (key a) (key b)) xs) ≡ balance d xs
unfolding sort_by
balance-sort d [] = refl
balance-sort d (x ∷ xs) =
    balance-insert d x (sort_by (λ a b. leb (key a) (key b)) xs) ∙ ground (arith, balance-sort d xs)

map-keep-eq :
    {A B : Type 0} (p : A → Bool) (f g : A → B) (xs : List A)
    → All (λ x. f x ≡ g x) xs
    → map f (keep p xs) ≡ map g (keep p xs)
map-keep-eq p f g [] h = refl
map-keep-eq p f g (x ∷ xs) h = elim (Bool-cases (p x)) [
  | inl e ↦ rw e (cc (h.0, map-keep-eq p f g xs h.1))
  | inr e ↦ rw e (map-keep-eq p f g xs h.1)
]

-- The dictionaries of one date and the others make up the balance at that date or a later one.
balance-split :
    (d e : ℕ) (items : List Item)
    → d ≤ e
    → balance e items
      ≡ sum_qty (keep (λ i. key i == d) items) +ℤ balance e (keep (λ i. not (key i == d)) items)
balance-split d e [] h = omega int_laws
balance-split d e (x ∷ xs) h = grind (int_laws, balance-split d e xs h)

-- At the first date of a sorted list nothing else counts.
balance_first :
    (d : ℕ) (items : List Item)
    → All (λ i. d ≤ key i) items
    → balance d items ≡ sum_qty (keep (λ i. key i == d) items)
balance_first d [] h = refl
balance_first d (x ∷ xs) h = ground (arith, balance_first d xs h.1)

All-keep : {A : Type 0} (P : A → Type 0) (p : A → Bool) (xs : List A) → All P xs → All P (keep p xs)
All-keep P p [] h = tt
All-keep P p (x ∷ xs) h = ground (arith, All-keep P p xs h.1)

IsSorted-keep : (p : Item → Bool) (xs : List Item) → IsSorted key xs → IsSorted key (keep p xs)
IsSorted-keep p [] h = tt
IsSorted-keep p (x ∷ xs) h =
    ground (arith, IsSorted-keep p xs h.1, All-keep (λ y. key x ≤ key y) p xs h.0)

none_same : (d : ℕ) (xs : List Item) → All (λ i. d < key i) xs → keep (λ i. key i == d) xs ≡ []
none_same d [] h = refl
none_same d (x ∷ xs) h = ground (arith, none_same d xs h.1)

all_other :
    (d : ℕ) (xs : List Item) → All (λ i. d < key i) xs → keep (λ i. not (key i == d)) xs ≡ xs
all_other d [] h = refl
all_other d (x ∷ xs) h = ground (arith, all_other d xs h.1)

All_lt : (d n : ℕ) (xs : List Item) → d < n → All (λ i. n ≤ key i) xs → All (λ i. d < key i) xs
All_lt d n [] h a = tt
All_lt d n (x ∷ xs) h a = (omega arith, All_lt d n xs h a.1)

-- A sorted list is its first date's dictionaries followed by the others.
typed-split :
    (wanted : MoveType → Bool) (d : ℕ) (xs : List Item)
    → All (λ i. d ≤ key i) xs
    → IsSorted key xs
    → typed wanted xs
      ≡ typed wanted (keep (λ i. key i == d) xs) ++ typed wanted (keep (λ i. not (key i == d)) xs)
typed-split wanted d [] a s = refl
typed-split wanted d (x ∷ xs) a s = elim (Bool-cases (key x == d)) [
  | inl e ↦ elim (Bool-cases (wanted x.move_type)) [
    | inl w ↦ rw (e, w) (ap (λ (l : List Item). x ∷ l) (typed-split wanted d xs a.1 s.1))
    | inr w ↦ rw (e, w) (typed-split wanted d xs a.1 s.1)
  ]
  | inr e ↦
      let later = All_lt d (key x) xs (ground arith) s.0 in
      rw (e, none_same d xs later, all_other d xs later) refl
]

module _ (product : ℕ) (base : ℤ) (items : List Item) where
  same_rows :
      (d : ℕ) (xs : List Item)
      → balance d items ≡ sum_qty (keep (λ i. key i == d) items)
      → All
          (λ i.
            level_row product (base +ℤ sum_qty (keep (λ j. key j == d) items)) i
            ≡ balance_row product base items i)
          (keep (λ i. key i == d) xs)
  same_rows d [] h = tt
  same_rows d (x ∷ xs) h = elim (Bool-cases (key x == d)) [
    | inl e ↦
        let q : key x ≡ d = ground arith in
        rw e (
          ap (λ (q : ℤ). level_row product (base +ℤ q) x)
              (sym h ∙ ap (λ (n : ℕ). balance n items) (sym q)),
          same_rows d xs h,
        )
    | inr e ↦ rw e (same_rows d xs h)
  ]

  other_rows :
      (d : ℕ) (xs : List Item)
      → All (λ i. d ≤ key i) xs
      → All
          (λ i.
            balance_row product
              (base +ℤ sum_qty (keep (λ j. key j == d) items))
              (keep (λ j. not (key j == d)) items)
              i
            ≡ balance_row product base items i)
          xs
  other_rows d [] h = tt
  other_rows d (x ∷ xs) h = (
    ap (λ (q : ℤ). level_row product q x)
        (+ℤ_assoc base _ _ ∙ ap (λ (q : ℤ). base +ℤ q) (sym (balance-split d (key x) items h.0))),
    other_rows d xs h.1,
  )

-- With one unit of fuel for each dictionary the loop computes, for every dictionary of a wanted
-- type, the balance at its date.
pub running_levels-eq :
    (fuel : ℕ) (wanted : MoveType → Bool) (product : ℕ) (qty : ℤ) (items : List Item)
    → length items ≤ fuel
    → IsSorted key items
    → running_levels fuel wanted product qty items
      ≡ map (balance_row product qty items) (typed wanted items)
unfolding running_levels
running_levels-eq zero wanted product qty [] n s = refl
running_levels-eq zero wanted product qty (x ∷ xs) n s = absurd (omega arith)
running_levels-eq (suc fuel) wanted product qty [] n s = refl
running_levels-eq (suc fuel) wanted product qty (x ∷ xs) n s =
    let items = x ∷ xs in
    let same = keep (same_date x.date) items in
    let rest = keep (other_date x.date) items in
    let qty' = qty +ℤ sum_qty same in
    let first : All (λ i. key x ≤ key i) items = (omega arith, s.0) in
    let fits : length rest ≤ fuel = ground (arith, length-keep (other_date x.date) xs) in
    let ih =
      running_levels-eq fuel wanted product qty' rest fits
        (IsSorted-keep (other_date x.date) items s) in
    let group =
      map-keep-eq (λ i. wanted i.move_type) _ _ same
        (same_rows product qty items (key x) items (balance_first (key x) items first)) in
    let others =
      map-keep-eq (λ i. wanted i.move_type) _ _ rest
        (other_rows product qty items (key x) rest
          (All-keep (λ i. key x ≤ key i) (other_date x.date) items first)) in
    ap₂ (λ (a b : List Level). a ++ b) group (ih ∙ others)
    ∙ sym (map-append (balance_row product qty items) (typed wanted same) (typed wanted rest))
    ∙ ap (map (balance_row product qty items)) (sym (typed-split wanted (key x) items first s))
