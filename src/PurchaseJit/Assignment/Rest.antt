-- ===== src/PurchaseJit/Assignment/Rest.antt =====
-- purchase_procurement_just_in_time/models/procurement.py: the procurements that are left over.
use odoo_addons.Base.{
  ℕ, ◌-◌, ◌≤◌, ◌≡◌, refl, ap, ◌++◌, List, [], ◌∷◌, ltb, leb, if◌then◌else◌, mem, arith, Bool-cases,
  inl, inr,
}
use odoo_addons.Base.Count.{times, times-append, times-keep_absent}
use odoo_addons.PurchaseJit.Assignment.{
  Line, Procurement, Assigned, closed_ids, product_order, take_procs,
  compute_procs_for_first_line_found, assign_product, assign_products,
  compute_which_procs_for_lines, get_dict_ordered_procs_by_product,
}
use odoo_addons.PurchaseJit.Assignment.Prefix.{ids_of}
use odoo_addons.PurchaseJit.Assignment.Conservation.{in_groups, in_groups-get_dict}
use odoo_addons.PurchaseJit.Assignment.Entries.{assign_product-keeps}

take_procs-ids :
    (compute_qty : ℕ → ℕ → ℕ → ℕ) (db : List Procurement) (line : Line) (remaining next : ℕ)
    (ps : List Procurement)
    → ids_of (take_procs compute_qty db line remaining next ps).procurements ≡ ids_of ps
unfolding take_procs
take_procs-ids compute_qty db line remaining next [] = refl
take_procs-ids compute_qty db line remaining next (p ∷ ps) =
    let proc_qty = compute_qty p.product_uom p.product_qty line.product_uom in
    elim (Bool-cases (leb proc_qty remaining)) [
      | inl t ↦
          rw t (
            ap (λ xs. p.id ∷ xs)
              (take_procs-ids compute_qty db line (remaining - proc_qty) next ps))
      | inr t ↦ rw t (elim (Bool-cases (ltb 0 remaining)) [ inl u ↦ rw u refl | inr u ↦ rw u refl ])
    ]

module _ (compute_qty : ℕ → ℕ → ℕ → ℕ) (db : List Procurement) (lines : List Line)
    (company location i : ℕ) where
  rest_le :
      (n : ℕ) (line : Line) (a : Assigned)
      → times i (ids_of a.procurements) ≤ n
      → times i (ids_of (compute_procs_for_first_line_found compute_qty db line a).procurements) ≤ n
  unfolding compute_procs_for_first_line_found
  rest_le n line a h =
      let t = take_procs compute_qty db line line.remaining_qty a.next_id a.procurements in
      let same : times i (ids_of t.procurements) ≡ times i (ids_of a.procurements) =
        ap (λ xs. times i xs)
          (take_procs-ids compute_qty db line line.remaining_qty a.next_id a.procurements) in
      let left = times-keep_absent (λ p. p.id) i (closed_ids db line.id ++ t.ids) t.procurements in
      elim (Bool-cases (mem i (closed_ids db line.id ++ t.ids))) [
        | inl m ↦ ground (arith, left, same)
        | inr m ↦ ground (arith, left, same)
      ]

  rest_of_groups :
      (groups : List (ℕ × List Procurement)) (a : Assigned)
      → times i (assign_products compute_qty db lines company location groups a).0
        ≤ in_groups i groups
  unfolding assign_products
  rest_of_groups [] a = omega arith
  rest_of_groups ((product, procs) ∷ groups) a =
      let first =
        assign_product compute_qty db lines company location product
          (record a { procurements = procs }) in
      let others = assign_products compute_qty db lines company location groups first in
      let n = times i (ids_of procs) in
      let le : times i (ids_of first.procurements) ≤ n =
        assign_product-keeps compute_qty db lines company location
          (λ x. times i (ids_of x.procurements) ≤ n) (λ line x m o h. rest_le n line x h) product
          (record a { procurements = procs }) (omega arith) in
      omega (
        arith,
        le,
        rest_of_groups groups first,
        times-append i (ids_of first.procurements) others.0,
      )

-- Only procurements that are asked for are left over, as often as the database has them at most.
pub compute_which_procs-rest :
    (compute_qty : ℕ → ℕ → ℕ → ℕ) (db : List Procurement) (lines : List Line) (company location : ℕ)
    (ids : List ℕ) (next_id i : ℕ)
    → times i (compute_which_procs_for_lines compute_qty db lines company location ids next_id).0
      ≤ (if mem i ids then times i (ids_of db) else 0)
unfolding compute_which_procs_for_lines
compute_which_procs-rest compute_qty db lines company location ids next_id i = omega (
  arith,
  in_groups-get_dict i db product_order ids,
  rest_of_groups compute_qty db lines company location i
      (get_dict_ordered_procs_by_product db product_order ids)
      (record { procurements = []; dict_procs_lines = []; splits = []; next_id = next_id }),
)
