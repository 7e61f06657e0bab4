-- ===== src/WorkingDays/Location/Warehouses.antt =====
-- stock_working_days/stock_working_days.py: the warehouse that `get_warehouse` finds.
use mathlib.Core.Path.{subst}
use odoo_addons.Base.{
  ap, sym, ◌∙◌, ℕ, ◌≤◌, ◌≡◌, refl, true, Option, none, some, List, [], ◌∷◌, leb, arith, Bool-cases,
  inl, inr, ◌⊎◌, In, here, there,
}
use odoo_addons.WorkingDays.Location.{Warehouse, contains, lower, get_warehouse}

lower-cases :
    (w : Warehouse) (rest : Option Warehouse) → (lower w rest ≡ w) ⊎ (rest ≡ some (lower w rest))
lower-cases w none = inl refl
lower-cases w (some v) = elim (Bool-cases (leb w.id v.id)) [
  | inl t ↦ inl (rw t refl)
  | inr t ↦ inr (rw t refl)
]

lower-le_first : (w : Warehouse) (rest : Option Warehouse) → (lower w rest).id ≤ w.id
lower-le_first w none = omega arith
lower-le_first w (some v) = elim (Bool-cases (leb w.id v.id)) [
  | inl t ↦ rw t (omega arith)
  | inr t ↦ rw t (ground arith)
]

lower-le_rest : (w v : Warehouse) → (lower w (some v)).id ≤ v.id
lower-le_rest w v = elim (Bool-cases (leb w.id v.id)) [
  | inl t ↦ rw t (ground arith)
  | inr t ↦ rw t (omega arith)
]

some_injective : {w v : Warehouse} → some w ≡ some v → w ≡ v
some_injective e = cc

get_warehouse-In :
    (left : ℕ) (ws : List Warehouse) (u : Warehouse)
    → get_warehouse left ws ≡ some u
    → In u ws × (contains left u ≡ true)
unfolding get_warehouse
get_warehouse-In left [] u e = cc
get_warehouse-In left (w ∷ ws) u e = elim (Bool-cases (contains left w)) [
  | inl t ↦
      let q = some_injective (rw t at e) in
      elim (lower-cases w (get_warehouse left ws)) [
        | inl c ↦
            let same : w ≡ u = sym c ∙ q in (here same, subst (λ x. contains left x ≡ true) same t)
        | inr c ↦ let (i, k) = get_warehouse-In left ws u (c ∙ ap some q) in (there i, k)
      ]
  | inr t ↦ let (i, k) = get_warehouse-In left ws u (rw t at e) in (there i, k)
]

get_warehouse-le :
    (left : ℕ) (ws : List Warehouse) (v : Warehouse)
    → In v ws
    → contains left v ≡ true
    → (w : Warehouse) × (get_warehouse left ws ≡ some w) × (w.id ≤ v.id)
unfolding get_warehouse
get_warehouse-le left [] v m c = elim m [ ]
get_warehouse-le left (w ∷ ws) v (here e) c =
    let t : contains left w ≡ true = rw e c in
    (
      lower w (get_warehouse left ws),
      rw t refl,
      subst (λ x. (lower w (get_warehouse left ws)).id ≤ x.id) e
          (lower-le_first w (get_warehouse left ws)),
    )
get_warehouse-le left (w ∷ ws) v (there m) c =
    let (u, e, le) = get_warehouse-le left ws v m c in
    elim (Bool-cases (contains left w)) [
      | inl t ↦ (
        lower w (some u),
        rw t (ap (λ r. some (lower w r)) e),
        (let h = lower-le_rest w u in omega arith),
      )
      | inr t ↦ (u, rw t e, le)
    ]

-- Where a warehouse contains the location, one is found; it contains the location too, and its
-- identifier is not above that of any warehouse that does.
pub get_warehouse-IsFirst :
    (left : ℕ) (ws : List Warehouse) (v : Warehouse)
    → In v ws
    → contains left v ≡ true
    → (w : Warehouse) × (get_warehouse left ws ≡ some w)
      × In w ws
      × (contains left w ≡ true)
      × (w.id ≤ v.id)
get_warehouse-IsFirst left ws v m c =
    let (w, e, le) = get_warehouse-le left ws v m c in
    let (i, k) = get_warehouse-In left ws w e in (w, e, i, k, le)
