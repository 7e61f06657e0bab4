-- ===== src/StockJit/Insertion/Sequences.antt =====
-- stock_procurement_just_in_time: each sequence of the new lines runs its procurements once.
use odoo_addons.Base.{
  ℕ, suc, ◌≡◌, refl, ap, ◌∙◌, true, false, not, ◌&&◌, Option, none, List, [], ◌∷◌, ◌++◌, map, ◌==◌,
  if◌then◌else◌, keep, mem, length, arith, Bool-cases, inl, inr,
}
use odoo_addons.StockJit.Controller.{Line}
use odoo_addons.StockJit.Insertion.{
  Catalogue, StockRule, distinct, new_line, number, orderpoints_to_insert, list_sequences,
  insert_new_controller_lines,
}

abbrev pub count : ℕ → List ℕ → ℕ
count s xs = length (keep (λ y. y == s) xs)

count-keep_same : (s : ℕ) (xs : List ℕ) → count s (keep (λ y. not (y == s)) xs) ≡ 0
count-keep_same s [] = refl
count-keep_same s (x ∷ xs) = elim (Bool-cases (x == s)) [
  | inl t ↦ rw t (count-keep_same s xs)
  | inr t ↦ rw t (rw t (count-keep_same s xs))
]

count-keep_other :
    (s x : ℕ) (xs : List ℕ) → x == s ≡ false → count s (keep (λ y. not (y == x)) xs) ≡ count s xs
count-keep_other s x [] h = refl
count-keep_other s x (y ∷ ys) h = elim (Bool-cases (y == x)) [
  | inl t ↦ let e : y == s ≡ false = ground arith in rw t (rw e (count-keep_other s x ys h))
  | inr t ↦ elim (Bool-cases (y == s)) [
    | inl e ↦ rw t (rw e (ap suc (count-keep_other s x ys h)))
    | inr e ↦ rw t (rw e (count-keep_other s x ys h))
  ]
]

count-distinct : (s : ℕ) (xs : List ℕ) → count s (distinct xs) ≡ (if mem s xs then 1 else 0)
count-distinct s [] = refl
count-distinct s (x ∷ xs) = elim (Bool-cases (x == s)) [
  | inl t ↦
      let same : x ≡ s = ground arith in
      let own : s == x ≡ true = ground arith in
      rw t (
        rw own (
          ap suc (
            ap (λ y. count s (keep (λ z. not (z == y)) (distinct xs))) same
            ∙ count-keep_same s (distinct xs))))
  | inr t ↦
      let other : s == x ≡ false = ground arith in
      rw t (rw other (count-keep_other s x (distinct xs) t ∙ count-distinct s xs))
]

-- The lines of a sequence that run procurements, and those of a rule.
abbrev pub runs : ℕ → List Line → ℕ
runs s ls = length (keep (λ l. l.run_procs && l.location_sequence == s) ls)

runs-number :
    (company s id : ℕ) (sequences : List ℕ)
    → runs s (number id (map (λ n i. new_line company i true none n) sequences)) ≡ count s sequences
runs-number company s id [] = refl
runs-number company s id (n ∷ ns) = elim (Bool-cases (n == s)) [
  | inl t ↦ rw t (ap suc (runs-number company s (suc id) ns))
  | inr t ↦ rw t (runs-number company s (suc id) ns)
]

runs-rows :
    (company s id : ℕ) (rows : List (Option ℕ × ℕ)) (sequences : List ℕ)
    → runs s (
        number id (
          map (λ r i. new_line company i false r.0 r.1) rows
          ++ map (λ n i. new_line company i true none n) sequences))
      ≡ count s sequences
runs-rows company s id [] sequences = runs-number company s id sequences
runs-rows company s id (r ∷ rs) sequences = runs-rows company s (suc id) rs sequences

-- Among the new lines, a sequence has one line that runs procurements if a line of a rule has the
-- sequence, and none otherwise.
pub insert_new_controller_lines-runs :
    (db : Catalogue) (ops : List StockRule) (company next_id s : ℕ)
    → runs s (insert_new_controller_lines db ops company next_id)
      ≡ (if mem s (map (λ r. r.1) (orderpoints_to_insert db ops)) then 1 else 0)
unfolding insert_new_controller_lines
insert_new_controller_lines-runs db ops company next_id s =
    let rows = orderpoints_to_insert db ops in
    runs-rows company s next_id rows (list_sequences rows) ∙ count-distinct s (map (λ r. r.1) rows)
