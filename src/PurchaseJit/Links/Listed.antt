-- ===== src/PurchaseJit/Links/Listed.antt =====
-- purchase_procurement_just_in_time/models/procurement.py: a procurement that one entry lists.
use odoo_addons.Base.{
  ℕ, ◌≤◌, ◌≡◌, refl, ap, ◌∙◌, true, false, ◌&&◌, some, List, [], ◌∷◌, same_id, mem, In, here, there,
  All, Bool-cases, inl, inr, arith,
}
use odoo_addons.Base.Count.{times, times-eq-zero, times_pos}
use odoo_addons.PurchaseJit.Assignment.{Procurement, Entry}
use odoo_addons.PurchaseJit.Assignment.Conservation.{in_entries}
use odoo_addons.PurchaseJit.Links.{is_to_add}
use odoo_addons.PurchaseJit.Links.Redistribution.{link, link_step, link_step-id, eq_some_of}

absent_of_zero : (i : ℕ) (xs : List ℕ) → times i xs ≡ 0 → mem i xs ≡ false
absent_of_zero i xs h = elim (Bool-cases (mem i xs)) [
  | inl t ↦ elim (none_there (times_pos i xs t)) [ ]
  | inr t ↦ t
]
  where
    none_there : 1 ≤ times i xs → ⊥
    none_there le = omega (arith, h, le)

unlisted_step :
    (lines : List ℕ) (e : Entry) (p : Procurement)
    → mem p.id e.procurement_ids ≡ false
    → link_step lines e p ≡ p
unlisted_step lines e p h =
    let stay : (mem e.line_id lines && is_to_add e p) ≡ false = rw h ground arith in rw stay refl

pub link_unlisted :
    (lines : List ℕ) (es : List Entry) (p : Procurement)
    → in_entries p.id es ≡ 0
    → link lines es p ≡ p
link_unlisted lines [] p h = refl
link_unlisted lines (e ∷ es) p h =
    let off = absent_of_zero p.id e.procurement_ids (omega (arith, h)) in
    ap (link lines es) (unlisted_step lines e p off) ∙ link_unlisted lines es p (omega (arith, h))

listed_step :
    (lines : List ℕ) (e : Entry) (p : Procurement)
    → mem p.id e.procurement_ids ≡ true
    → mem e.line_id lines ≡ true
    → (link_step lines e p).purchase_line_id ≡ some e.line_id
listed_step lines e p listed known =
    elim (Bool-cases (same_id p.purchase_line_id (some e.line_id))) [
      | inl t ↦ rw known rw listed rw t (eq_some_of p.purchase_line_id e.line_id t)
      | inr t ↦ rw known rw listed rw t refl
    ]

-- The redistribution links a procurement that is listed once to the line of the entry that lists it.
pub link-listed :
    (lines : List ℕ) (es : List Entry) (p : Procurement)
    → in_entries p.id es ≡ 1
    → All (λ e. mem e.line_id lines ≡ true) es
    → (e : Entry) × In e es × ((link lines es p).purchase_line_id ≡ some e.line_id)
link-listed lines [] p h known = elim (impossible h) [ ]
  where
    impossible : in_entries p.id [] ≡ 1 → ⊥
    impossible e = omega (arith, e)
link-listed lines (e ∷ es) p h known = elim (Bool-cases (mem p.id e.procurement_ids)) [
  | inl t ↦
      let q = link_step lines e p in
      let others : in_entries p.id es ≡ 0 = omega (arith, h, times_pos p.id e.procurement_ids t) in
      let same : q.id ≡ p.id = link_step-id lines e p in
      let alone = link_unlisted lines es q (ap (λ i. in_entries i es) same ∙ others) in
      (e, here refl, ap (λ x. x.purchase_line_id) alone ∙ listed_step lines e p t known.0)
  | inr t ↦
      let z = times-eq-zero p.id e.procurement_ids t in
      let (x, m, linked) = link-listed lines es p (omega (arith, h, z)) known.1 in
      (
        x,
        there m,
        ap (λ q. (link lines es q).purchase_line_id) (unlisted_step lines e p t) ∙ linked,
      )
]
