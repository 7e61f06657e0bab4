-- ===== src/PurchaseJit/Assignment/Entries.antt =====
-- purchase_procurement_just_in_time/models/procurement.py: what the assignment keeps for the steps
-- that follow it.
use odoo_addons.Base.{
  ℕ, suc, ◌-◌, ◌≤◌, ◌≡◌, refl, sym, Bool, true, false, not, ◌&&◌, List, [], ◌∷◌, ◌++◌, ltb, leb,
  ◌==◌, if◌then◌else◌, keep-In, In, here, there, All, All_of_In, arith, Bool-cases, inl, inr,
}
use odoo_addons.StockJit.Levels.Sort.{insert_by, sort_by}
use odoo_addons.PurchaseJit.Assignment.{
  Line, Procurement, Split, Entry, Assigned, is_forbidden, is_draft_order, closed_ids, add_entry,
  product_order, line_order, order_lines_query, take_procs, compute_procs_for_first_line_found,
  assign_lines, assign_product, assign_products, compute_which_procs_for_lines,
  get_dict_ordered_procs_by_product,
}

-- The lines to receive of the company at the location.
abbrev pub is_open_line : ℕ → ℕ → Line → Bool
is_open_line company location l =
    not (is_forbidden l.order_state)
    && ltb 0 l.remaining_qty
    && l.company_id == company
    && l.location_id == location

In-insert_by :
    {A : Type 0} (le : A → A → Bool) {a : A} (x : A) (ys : List A)
    → In a (insert_by le x ys)
    → In a (x ∷ ys)
unfolding insert_by
In-insert_by le x [] m = m
In-insert_by le {a} x (y ∷ ys) m = split (λ i. In-insert_by le x ys i) (le x y) m
  where
    later : In a (x ∷ ys) → In a (x ∷ y ∷ ys)
    later (here e) = here e
    later (there j) = there (there j)

    split :
        (In a (insert_by le x ys) → In a (x ∷ ys))
        → (b : Bool) → In a (if b then x ∷ y ∷ ys else y ∷ insert_by le x ys)
        → In a (x ∷ y ∷ ys)
    split rest true i = i
    split rest false (here e) = there (here e)
    split rest false (there i) = later (rest i)

In-sort_by : {A : Type 0} (le : A → A → Bool) {a : A} (xs : List A) → In a (sort_by le xs) → In a xs
unfolding sort_by
In-sort_by le [] m = m
In-sort_by le (x ∷ xs) m = elim (In-insert_by le x (sort_by le xs) m) [
  | here e ↦ here e
  | there i ↦ there (In-sort_by le xs i)
]

query-In :
    (lines : List Line) (drafts : Bool) (company location product : ℕ) (l : Line)
    → In l (order_lines_query lines drafts company location product)
    → In l lines × (is_open_line company location l ≡ true)
unfolding order_lines_query
query-In lines drafts company location product l m =
    let found =
      keep-In
        (λ x.
          not (is_forbidden x.order_state)
          && ltb 0 x.remaining_qty
          && x.company_id == company
          && x.location_id == location
          && x.product_id == product
          && (if drafts then is_draft_order x.order_state else not (is_draft_order x.order_state)))
        lines (In-sort_by line_order _ m) in
    (found.0, ground (arith, found.1))

-- What every line keeps is kept by the assignment of all procurements.
module _ (compute_qty : ℕ → ℕ → ℕ → ℕ) (db : List Procurement) (lines : List Line)
    (company location : ℕ) (Q : Assigned → Type 0)
    (step : (line : Line) (a : Assigned)
      → In line lines
      → is_open_line company location line ≡ true
      → Q a
      → Q (compute_procs_for_first_line_found compute_qty db line a)) where
  abbrev IsUsable : Line → Type 0
  IsUsable l = In l lines × (is_open_line company location l ≡ true)

  assign_lines-keeps :
      (ls : List Line) (a : Assigned) → All IsUsable ls → Q a → Q (assign_lines compute_qty db ls a)
  unfolding assign_lines
  assign_lines-keeps [] a r q = q
  assign_lines-keeps (l ∷ ls) a r q =
      split
        (assign_lines-keeps ls (compute_procs_for_first_line_found compute_qty db l a) r.1
          (step l a r.0.0 r.0.1 q))
        a.procurements
    where
      rest : Assigned
      rest = assign_lines compute_qty db ls (compute_procs_for_first_line_found compute_qty db l a)

      split :
          Q rest
          → (ps : List Procurement) → Q (elim ps as (λ x. Assigned) [ [] ↦ a | p ∷ more ↦ rest ])
      split h [] = q
      split h (p ∷ more) = h

  usable :
      (drafts : Bool) (product : ℕ)
      → All IsUsable (order_lines_query lines drafts company location product)
  usable drafts product =
      All_of_In IsUsable _ (λ l m. query-In lines drafts company location product l m)

  pub assign_product-keeps :
      (product : ℕ) (a : Assigned)
      → Q a
      → Q (assign_product compute_qty db lines company location product a)
  unfolding assign_product
  assign_product-keeps product a q =
      let running =
        assign_lines compute_qty db (order_lines_query lines false company location product) a in
      assign_lines-keeps (order_lines_query lines true company location product) running
        (usable true product)
        (assign_lines-keeps (order_lines_query lines false company location product) a
          (usable false product) q)

  module _
      (swap : (ps : List Procurement) (a : Assigned)
        → Q a
        → Q (record a { procurements = ps })) where
    assign_products-keeps :
        (groups : List (ℕ × List Procurement)) (a : Assigned)
        → Q a
        → Q (assign_products compute_qty db lines company location groups a).1
    unfolding assign_products
    assign_products-keeps [] a q = q
    assign_products-keeps ((product, procs) ∷ groups) a q =
        let start : Assigned = record a { procurements = procs } in
        assign_products-keeps groups
          (assign_product compute_qty db lines company location product start)
          (assign_product-keeps product start (swap procs a q))

-- An entry is for a line to receive.
abbrev pub IsOfLine : List Line → ℕ → ℕ → Entry → Type 0
IsOfLine lines company location e =
    (l : Line) × In l lines × (is_open_line company location l ≡ true) × (l.id ≡ e.line_id)

-- New procurements have identifiers that ascend from the first to below the last number.
abbrev pub Ascend : ℕ → List Split → ℕ → Type 0
Ascend n [] m = n ≤ m
Ascend n (s ∷ ss) m = (n ≤ s.new_id) × Ascend (suc s.new_id) ss m

Ascend-append :
    (n k m : ℕ) (ss ts : List Split) → Ascend n ss k → Ascend k ts m → Ascend n (ss ++ ts) m
Ascend-append n k m [] [] h i = omega arith
Ascend-append n k m [] (t ∷ ts) h i = (omega (arith, i.0), i.1)
Ascend-append n k m (s ∷ ss) ts h i = (h.0, Ascend-append (suc s.new_id) k m ss ts h.1 i)

take_procs-Ascend :
    (compute_qty : ℕ → ℕ → ℕ → ℕ) (db : List Procurement) (line : Line) (remaining next : ℕ)
    (ps : List Procurement)
    → let t = take_procs compute_qty db line remaining next ps in Ascend next t.splits t.next_id
unfolding take_procs
take_procs-Ascend compute_qty db line remaining next [] = omega arith
take_procs-Ascend compute_qty db line remaining next (p ∷ ps) =
    elim (Bool-cases (leb (compute_qty p.product_uom p.product_qty line.product_uom) remaining)) [
      | inl t ↦ rw t (
          take_procs-Ascend compute_qty db line
            (remaining - compute_qty p.product_uom p.product_qty line.product_uom) next ps)
      | inr t ↦ rw t (elim (Bool-cases (ltb 0 remaining)) [
        | inl u ↦ rw u (omega arith, omega arith)
        | inr u ↦ rw u omega arith
      ])
    ]

All-add_entry :
    (P : Entry → Type 0) (line : Line) (ids : List ℕ) (es : List Entry)
    → ((e : Entry) → e.line_id ≡ line.id → P e)
    → All P es
    → All P (add_entry line ids es)
All-add_entry P line ids [] h all = (h _ refl, tt)
All-add_entry P line ids (e ∷ es) h all =
    elim (Bool-cases (e.order_id == line.order_id && e.line_id == line.id)) [
      | inl t ↦ rw t (h _ (ground arith), all.1)
      | inr t ↦ rw t (all.0, All-add_entry P line ids es h all.1)
    ]

-- The entries are for lines to receive of the company at the location, and the procurements that
-- splits make have new identifiers, each another one.
pub compute_which_procs-IsUsable :
    (compute_qty : ℕ → ℕ → ℕ → ℕ) (db : List Procurement) (lines : List Line) (company location : ℕ)
    (ids : List ℕ) (next_id : ℕ)
    → let a = (compute_which_procs_for_lines compute_qty db lines company location ids next_id).1 in
      All (IsOfLine lines company location) a.dict_procs_lines × Ascend next_id a.splits a.next_id
unfolding compute_which_procs_for_lines compute_procs_for_first_line_found
compute_which_procs-IsUsable compute_qty db lines company location ids next_id =
    assign_products-keeps compute_qty db lines company location Q step (λ ps a q. q)
      (get_dict_ordered_procs_by_product db product_order ids) _ (tt, omega arith)
  where
    Q : Assigned → Type 0
    Q a =
        All (IsOfLine lines company location) a.dict_procs_lines × Ascend next_id a.splits a.next_id

    step :
        (line : Line) (a : Assigned)
        → In line lines
        → is_open_line company location line ≡ true
        → Q a
        → Q (compute_procs_for_first_line_found compute_qty db line a)
    step line a m o q =
        let t = take_procs compute_qty db line line.remaining_qty a.next_id a.procurements in
        (
          All-add_entry (IsOfLine lines company location) line (closed_ids db line.id ++ t.ids)
              a.dict_procs_lines (λ e same. (line, m, o, sym same)) q.0,
          Ascend-append next_id a.next_id t.next_id a.splits t.splits q.1
              (take_procs-Ascend compute_qty db line line.remaining_qty a.next_id a.procurements),
        )
