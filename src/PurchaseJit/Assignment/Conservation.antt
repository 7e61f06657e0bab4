-- ===== src/PurchaseJit/Assignment/Conservation.antt =====
-- purchase_procurement_just_in_time/models/procurement.py: no procurement is lost or taken twice.
use odoo_addons.Base.{
  ℕ, ◌+◌, ◌-◌, ◌≤◌, ◌<◌, ◌≡◌, refl, ap, ◌∙◌, Bool, true, false, ◌&&◌, ◌||◌, List, [], ◌∷◌, ◌++◌,
  ltb, leb, ◌==◌, if◌then◌else◌, keep, mem, arith, Bool-cases, inl, inr,
}
use odoo_addons.Base.Count.{
  times, times-append, times-eq-zero, times_pos, mem-append, times-keep_absent,
}
use odoo_addons.StockJit.Levels.Sort.{insert_by, sort_by}
use odoo_addons.PurchaseJit.Assignment.{
  Line, Procurement, Taken, Entry, Assigned, closed_ids, add_entry, product_order, add_product,
  by_product, get_dict_ordered_procs_by_product, take_procs, compute_procs_for_first_line_found,
  assign_lines, assign_product, assign_products, order_lines_query, compute_which_procs_for_lines,
}
use odoo_addons.PurchaseJit.Assignment.Prefix.{ids_of}

abbrev pub in_entries : ℕ → List Entry → ℕ
in_entries i [] = 0
in_entries i (e ∷ es) = times i e.procurement_ids + in_entries i es

abbrev pub in_groups : ℕ → List (ℕ × List Procurement) → ℕ
in_groups i [] = 0
in_groups i ((k, ps) ∷ groups) = times i (ids_of ps) + in_groups i groups

module _ (i : ℕ) where
  times-insert_by :
      (le : Procurement → Procurement → Bool) (p : Procurement) (ps : List Procurement)
      → times i (ids_of (insert_by le p ps)) ≡ times i (ids_of (p ∷ ps))
  unfolding insert_by
  times-insert_by le p [] = refl
  times-insert_by le p (q ∷ qs) = elim (Bool-cases (le p q)) [
    | inl t ↦ rw t refl
    | inr t ↦ rw t omega (arith, times-insert_by le p qs)
  ]

  times-sort_by :
      (le : Procurement → Procurement → Bool) (ps : List Procurement)
      → times i (ids_of (sort_by le ps)) ≡ times i (ids_of ps)
  unfolding sort_by
  times-sort_by le [] = refl
  times-sort_by le (p ∷ ps) =
      omega (arith, times-insert_by le p (sort_by le ps), times-sort_by le ps)

  times-keep_listed :
      (l : List ℕ) (ps : List Procurement)
      → times i (ids_of (keep (λ p. mem p.id l) ps)) ≡ (if mem i l then times i (ids_of ps) else 0)
  times-keep_listed l [] = ground arith
  times-keep_listed l (p ∷ ps) = elim (Bool-cases (p.id == i)) [
    | inl t ↦
        let same : p.id ≡ i = ground arith in
        let e : mem p.id l ≡ mem i l = ap (λ x. mem x l) same in
        ground (arith, times-keep_listed l ps)
    | inr t ↦ ground (arith, times-keep_listed l ps)
  ]

  ids_of-append :
      (ps : List Procurement) (p : Procurement)
      → times i (ids_of (ps ++ (p ∷ []))) ≡ times i (ids_of ps) + times i (ids_of (p ∷ []))
  ids_of-append [] p = omega arith
  ids_of-append (q ∷ ps) p = omega (arith, ids_of-append ps p)

  in_groups-add_product :
      (p : Procurement) (groups : List (ℕ × List Procurement))
      → in_groups i (add_product p groups) ≡ times i (ids_of (p ∷ [])) + in_groups i groups
  in_groups-add_product p [] = omega arith
  in_groups-add_product p ((k, ps) ∷ groups) = elim (Bool-cases (k == p.product_id)) [
    | inl t ↦ rw t omega (arith, ids_of-append ps p)
    | inr t ↦ rw t omega (arith, in_groups-add_product p groups)
  ]

  in_groups-by_product :
      (groups : List (ℕ × List Procurement)) (ps : List Procurement)
      → in_groups i (by_product groups ps) ≡ in_groups i groups + times i (ids_of ps)
  in_groups-by_product groups [] = omega arith
  in_groups-by_product groups (p ∷ ps) =
      omega (arith, in_groups-by_product (add_product p groups) ps, in_groups-add_product p groups)

  in_entries-add_entry :
      (line : Line) (ids : List ℕ) (es : List Entry)
      → in_entries i (add_entry line ids es) ≡ in_entries i es + times i ids
  in_entries-add_entry line ids [] = omega arith
  in_entries-add_entry line ids (e ∷ es) =
      elim (Bool-cases (e.order_id == line.order_id && e.line_id == line.id)) [
        | inl t ↦ rw t omega (arith, times-append i e.procurement_ids ids)
        | inr t ↦ rw t omega (arith, in_entries-add_entry line ids es)
      ]

-- The procurements that are asked for, each as often as the database has it.
pub in_groups-get_dict :
    (i : ℕ) (db : List Procurement) (order : Procurement → Procurement → Bool)
    (procurement_ids : List ℕ)
    → in_groups i (get_dict_ordered_procs_by_product db order procurement_ids)
      ≡ (if mem i procurement_ids then times i (ids_of db) else 0)
unfolding get_dict_ordered_procs_by_product
in_groups-get_dict i db order procurement_ids =
    let found = keep (λ p. mem p.id procurement_ids) db in
    omega (
      arith,
      times-sort_by i order found,
      in_groups-by_product i [] (sort_by order found),
      times-keep_listed i procurement_ids db,
    )

module _ (compute_qty : ℕ → ℕ → ℕ → ℕ) (db : List Procurement) (i : ℕ) where
  -- What `take_procs` does not change, and that it takes no procurement twice.
  abbrev TakesFrom : ℕ → List Procurement → Taken → Type 0
  TakesFrom next ps t =
      (ids_of t.procurements ≡ ids_of ps)
      × (next ≤ t.next_id)
      × (times i t.ids ≤ times i (ids_of ps))

  take_procs-TakesFrom :
      (line : Line) (remaining next : ℕ) (ps : List Procurement)
      → i < next
      → TakesFrom next ps (take_procs compute_qty db line remaining next ps)
  unfolding take_procs
  take_procs-TakesFrom line remaining next [] h = (refl, omega arith, omega arith)
  take_procs-TakesFrom line remaining next (p ∷ ps) h =
      let proc_qty = compute_qty p.product_uom p.product_qty line.product_uom in
      elim (Bool-cases (leb proc_qty remaining)) [
        | inl t ↦
            let (same, le, fewer) = take_procs-TakesFrom line (remaining - proc_qty) next ps h in
            rw t (ap (λ xs. p.id ∷ xs) same, le, omega (arith, fewer))
        | inr t ↦ rw t (elim (Bool-cases (ltb 0 remaining)) [
          | inl u ↦ rw u (refl, omega arith, fresh)
          | inr u ↦ rw u (refl, omega arith, omega arith)
        ])
      ]
    where
      fresh : times i (next ∷ []) ≤ times i (ids_of (p ∷ ps))
      fresh = let other : (next == i) ≡ false = ground arith in rw other omega arith

  -- The identifier is once at most among the procurements and below those of new ones.
  abbrev IsOnce : Assigned → Type 0
  IsOnce a = (i < a.next_id) × (times i (ids_of a.procurements) ≤ 1)

  abbrev known : Assigned → ℕ
  known a = times i (ids_of a.procurements) + in_entries i a.dict_procs_lines

  module _ (open_proc : (line : ℕ) → mem i (closed_ids db line) ≡ false) where
    moved :
        (k : ℕ) (ids : List ℕ) (ps : List Procurement)
        → times i (ids_of ps) ≤ 1
        → times i ids ≤ times i (ids_of ps)
        → (if mem i (closed_ids db k ++ ids) then 0 else times i (ids_of ps))
            + times i (closed_ids db k ++ ids)
          ≡ times i (ids_of ps)
    moved k ids ps once fewer =
        let c = times-append i (closed_ids db k) ids in
        let z = times-eq-zero i (closed_ids db k) (open_proc k) in
        let e : mem i (closed_ids db k ++ ids) ≡ mem i ids =
          mem-append i (closed_ids db k) ids ∙ ap (λ b. b || mem i ids) (open_proc k) in
        elim (Bool-cases (mem i ids)) [
          | inl t ↦ let pos = times_pos i ids t in rw (e ∙ t) omega (arith, c, z, pos, once, fewer)
          | inr t ↦
              let none_there = times-eq-zero i ids t in rw (e ∙ t) omega (arith, c, z, none_there)
        ]

    compute_procs-known :
        (line : Line) (a : Assigned)
        → IsOnce a
        → let after = compute_procs_for_first_line_found compute_qty db line a in
          IsOnce after × (known after ≡ known a)
    unfolding compute_procs_for_first_line_found
    compute_procs-known line a once =
        let t = take_procs compute_qty db line line.remaining_qty a.next_id a.procurements in
        let ids = closed_ids db line.id ++ t.ids in
        let (same, le, fewer) =
          take_procs-TakesFrom line line.remaining_qty a.next_id a.procurements once.0 in
        let left = times-keep_absent (λ p. p.id) i ids t.procurements in
        let same' = ap (λ xs. times i xs) same in
        let m =
          moved line.id t.ids t.procurements (omega (arith, same', once))
            (omega (arith, same', fewer)) in
        let entries = in_entries-add_entry i line ids a.dict_procs_lines in
        (
          (omega (arith, le, once), omega (arith, left, m, same', once)),
          omega (arith, left, m, same', entries),
        )

    assign_lines-known :
        (lines : List Line) (a : Assigned)
        → IsOnce a
        → let after = assign_lines compute_qty db lines a in IsOnce after × (known after ≡ known a)
    unfolding assign_lines
    assign_lines-known [] a once = (once, refl)
    assign_lines-known (line ∷ lines) a once =
        let (once', same) = compute_procs-known line a once in
        let (once'', same') =
          assign_lines-known lines (compute_procs_for_first_line_found compute_qty db line a)
            once' in
        split (once'', same' ∙ same) a.procurements
      where
        rest : Assigned
        rest =
            assign_lines compute_qty db lines
              (compute_procs_for_first_line_found compute_qty db line a)

        split :
            IsOnce rest × (known rest ≡ known a)
            → (ps : List Procurement)
            → let after = elim ps as (λ x. Assigned) [ [] ↦ a | q ∷ qs ↦ rest ] in
              IsOnce after × (known after ≡ known a)
        split h [] = (once, refl)
        split h (p ∷ ps) = h

    module _ (lines : List Line) (company location : ℕ) where
      assign_product-known :
          (product : ℕ) (a : Assigned)
          → IsOnce a
          → let after = assign_product compute_qty db lines company location product a in
            IsOnce after × (known after ≡ known a)
      unfolding assign_product
      assign_product-known product a once =
          let (once', same) =
            assign_lines-known (order_lines_query lines false company location product) a once in
          let middle =
            assign_lines compute_qty db (order_lines_query lines false company location product)
              a in
          let (once'', same') =
            assign_lines-known (order_lines_query lines true company location product) middle
              once' in
          (once'', same' ∙ same)

      assign_products-known :
          (groups : List (ℕ × List Procurement)) (a : Assigned)
          → i < a.next_id
          → in_groups i groups ≤ 1
          → let after = assign_products compute_qty db lines company location groups a in
            times i after.0 + in_entries i after.1.dict_procs_lines
            ≡ in_groups i groups + in_entries i a.dict_procs_lines
      unfolding assign_products
      assign_products-known [] a below once = omega arith
      assign_products-known ((product, procs) ∷ groups) a below once =
          let first =
            assign_product compute_qty db lines company location product
              (record a { procurements = procs }) in
          let others = assign_products compute_qty db lines company location groups first in
          let (once', same) =
            assign_product-known product (record a { procurements = procs })
              (below, omega (arith, once)) in
          let rest = assign_products-known groups first once'.0 (omega (arith, once)) in
          let parts = times-append i (ids_of first.procurements) others.0 in
          omega (arith, same, rest, parts)

-- Of a procurement that is in the database once, is neither done nor cancelled for any line and
-- whose identifier is below those of the procurements that the splits make: if it is among those to
-- assign, it is either left over or taken by one line, once, and otherwise neither.
pub compute_which_procs-conserves :
    (compute_qty : ℕ → ℕ → ℕ → ℕ) (db : List Procurement) (lines : List Line) (company location : ℕ)
    (procurement_ids : List ℕ) (next_id i : ℕ)
    → ((line : ℕ) → mem i (closed_ids db line) ≡ false)
    → i < next_id
    → times i (ids_of db) ≡ 1
    → let after =
        compute_which_procs_for_lines compute_qty db lines company location procurement_ids
          next_id in
      times i after.0 + in_entries i after.1.dict_procs_lines
      ≡ (if mem i procurement_ids then 1 else 0)
unfolding compute_which_procs_for_lines
compute_which_procs-conserves compute_qty db lines company location procurement_ids next_id i
      open_proc below once =
    let asked = get_dict_ordered_procs_by_product db product_order procurement_ids in
    let total : in_groups i asked ≡ (if mem i procurement_ids then 1 else 0) =
      ground (arith, in_groups-get_dict i db product_order procurement_ids, once) in
    let all =
      assign_products-known compute_qty db i open_proc lines company location asked
        (record { procurements = []; dict_procs_lines = []; splits = []; next_id = next_id }) below
        (ground (arith, total)) in
    omega (arith, all, total)
