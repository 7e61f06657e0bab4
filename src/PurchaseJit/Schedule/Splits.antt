-- ===== src/PurchaseJit/Schedule/Splits.antt =====
-- stock_procurement_split/stock_procurement_split.py: the procurements after splits.
use odoo_addons.Base.{
  ℕ, suc, ◌+◌, ◌-◌, ◌≤◌, ◌≡◌, refl, ap, ◌∙◌, Bool, List, [], ◌∷◌, ◌++◌, if◌then◌else◌, ◌==◌, In,
  map-In, In-append_left, Bool-cases, inl, inr, arith,
}
use odoo_addons.Base.Count.{times, times-append}
use odoo_addons.PurchaseJit.Assignment.{Procurement, Split}
use odoo_addons.PurchaseJit.Assignment.Prefix.{ids_of}
use odoo_addons.PurchaseJit.Assignment.Entries.{Ascend}
use odoo_addons.PurchaseJit.Links.{write_if}
use odoo_addons.PurchaseJit.Schedule.{split_copies, split_procurement, split_procurements}

pub ids-write_if :
    (t : Procurement → Bool) (f : Procurement → Procurement)
    → ((p : Procurement) → (f p).id ≡ p.id)
    → (db : List Procurement) → ids_of (write_if t f db) ≡ ids_of db
ids-write_if t f same [] = refl
ids-write_if t f same (p ∷ ps) = elim (Bool-cases (t p)) [
  | inl e ↦ rw e (
      ap (λ i. i ∷ ids_of (write_if t f ps)) (same p)
      ∙ ap (λ is. p.id ∷ is) (ids-write_if t f same ps))
  | inr e ↦ rw e (ap (λ is. p.id ∷ is) (ids-write_if t f same ps))
]

ids_append : (xs ys : List Procurement) → ids_of (xs ++ ys) ≡ ids_of xs ++ ids_of ys
ids_append [] ys = refl
ids_append (x ∷ xs) ys = ap (λ is. x.id ∷ is) (ids_append xs ys)

-- As many copies with the new identifier as procurements with the old one.
times-split_copies :
    (i : ℕ) (s : Split) (db : List Procurement)
    → times i (ids_of (split_copies s db))
      ≡ (if s.new_id == i then times s.split_from_id (ids_of db) else 0)
times-split_copies i s [] = ground arith
times-split_copies i s (p ∷ ps) = ground (arith, times-split_copies i s ps)

times-split :
    (i : ℕ) (s : Split) (db : List Procurement)
    → times i (ids_of (split_procurement s db))
      ≡ times i (ids_of db) + (if s.new_id == i then times s.split_from_id (ids_of db) else 0)
times-split i s db =
    let reduced =
      write_if (λ p. p.id == s.split_from_id)
        (λ p. record p { product_qty = p.product_qty - s.product_qty }) db in
    let kept : times i (ids_of reduced) ≡ times i (ids_of db) =
      ap (λ is. times i is)
        (ids-write_if (λ p. p.id == s.split_from_id)
          (λ p. record p { product_qty = p.product_qty - s.product_qty }) (λ p. refl) db) in
    let parts : times i (ids_of (split_procurement s db))
        ≡ times i (ids_of reduced ++ ids_of (split_copies s db)) =
      ap (λ is. times i is) (ids_append reduced (split_copies s db)) in
    omega (
      arith,
      parts,
      times-append i (ids_of reduced) (ids_of (split_copies s db)),
      kept,
      times-split_copies i s db,
    )

-- Each identifier is there once at most, and none from `n` on.
abbrev pub IsFreshFrom : ℕ → List Procurement → Type 0
IsFreshFrom n db = (i : ℕ) → (times i (ids_of db) ≤ 1) × (n ≤ i → times i (ids_of db) ≡ 0)

split-IsFreshFrom :
    (n : ℕ) (s : Split) (db : List Procurement)
    → n ≤ s.new_id
    → IsFreshFrom n db
    → IsFreshFrom (suc s.new_id) (split_procurement s db)
split-IsFreshFrom n s db le fresh i =
    let t = times-split i s db in
    let from = (fresh s.split_from_id).0 in
    let (once, above) = fresh i in
    elim (Bool-cases (s.new_id == i)) [
      | inl e ↦
          let z = above (ground (arith, le)) in (ground (arith, t, z, from), λ h. ground (arith, h))
      | inr e ↦ (
        ground (arith, t, once),
        λ h. let z = above (omega (arith, h, le)) in ground (arith, t, z),
      )
    ]

-- The splits keep identifiers unique, and every procurement.
pub split_procurements-IsFreshFrom :
    (n m : ℕ) (ss : List Split) (db : List Procurement)
    → Ascend n ss m
    → IsFreshFrom n db
    → (i : ℕ)
    → (times i (ids_of (split_procurements ss db)) ≤ 1)
      × (times i (ids_of db) ≤ times i (ids_of (split_procurements ss db)))
split_procurements-IsFreshFrom n m [] db h fresh i = ((fresh i).0, omega arith)
split_procurements-IsFreshFrom n m (s ∷ ss) db h fresh i =
    let (once, more) =
      split_procurements-IsFreshFrom (suc s.new_id) m ss (split_procurement s db) h.1
        (split-IsFreshFrom n s db h.0 fresh) i in
    (once, omega (arith, more, times-split i s db))

-- A procurement is there after splits, with its identifier and its link.
pub In-split_procurements :
    (ss : List Split) (db : List Procurement) (p : Procurement)
    → In p db
    → (q : Procurement) × In q (split_procurements ss db)
      × (q.id ≡ p.id)
      × (q.purchase_line_id ≡ p.purchase_line_id)
In-split_procurements [] db p m = (p, m, refl, refl)
In-split_procurements (s ∷ ss) db p m =
    let reduce : Procurement → Procurement = λ x.
      if x.id == s.split_from_id
      then record x { product_qty = x.product_qty - s.product_qty }
      else x in
    let (q, place, same, link) =
      In-split_procurements ss (split_procurement s db) (reduce p)
        (In-append_left (split_copies s db) (map-In reduce m)) in
    (q, place, same ∙ (reduced p).0, link ∙ (reduced p).1)
  where
    reduced :
        (x : Procurement)
        → let y : Procurement =
            if x.id == s.split_from_id
            then record x { product_qty = x.product_qty - s.product_qty }
            else x in
          (y.id ≡ x.id) × (y.purchase_line_id ≡ x.purchase_line_id)
    reduced x = elim (Bool-cases (x.id == s.split_from_id)) [
      | inl t ↦ rw t (refl, refl)
      | inr t ↦ rw t (refl, refl)
    ]
