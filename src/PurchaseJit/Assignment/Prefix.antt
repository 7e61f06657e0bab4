-- ===== src/PurchaseJit/Assignment/Prefix.antt =====
-- purchase_procurement_just_in_time/models/procurement.py: what a line takes of the procurements.
use mathlib.Core.Path.{subst}
use odoo_addons.Base.{
  ℕ, zero, suc, ◌+◌, ◌-◌, ◌≤◌, ◌<◌, ◌≡◌, refl, ap, true, List, [], ◌∷◌, ◌++◌, map, ltb, leb,
  if◌then◌else◌, arith, Bool-cases, inl, inr,
}
use odoo_addons.PurchaseJit.Assignment.{Line, Procurement, Taken, take_procs}

abbrev pub ids_of : List Procurement → List ℕ
ids_of ps = map (λ p. p.id) ps

module _ (compute_qty : ℕ → ℕ → ℕ → ℕ) (db : List Procurement) (line : Line) where
  -- A quantity of procurements in the unit of the line.
  abbrev pub in_line_uom : Procurement → ℕ
  in_line_uom p = compute_qty p.product_uom p.product_qty line.product_uom

  abbrev pub need : List Procurement → ℕ
  need [] = 0
  need (p ∷ ps) = in_line_uom p + need ps

  -- The first procurement that does not fit gives what the line still lacks.
  abbrev pub Part : ℕ → ℕ → Procurement → List Procurement → Taken → Type 0
  Part next zero p taken t = (t.ids ≡ ids_of taken) × (t.splits ≡ [])
  Part next (suc k) p taken t =
      (t.ids ≡ ids_of taken ++ (next ∷ []))
      × (t.splits
          ≡ record {
            split_from_id = p.id;
            new_id = next;
            product_qty = compute_qty line.product_uom (suc k) p.product_uom;
          }
            ∷ [])

  abbrev pub Ends : ℕ → ℕ → List Procurement → List Procurement → Taken → Type 0
  Ends remaining next taken [] t =
      (t.ids ≡ ids_of taken) × (t.splits ≡ []) × (t.remaining_qty ≡ remaining - need taken)
  Ends remaining next taken (p ∷ ps) t =
      (remaining < need taken + in_line_uom p)
      × (t.remaining_qty ≡ 0)
      × Part next (remaining - need taken) p taken t

  -- The longest beginning of the procurements that fits, with a part of the next one.
  abbrev pub FillsLine : ℕ → ℕ → List Procurement → Taken → Type 0
  FillsLine remaining next ps t =
      (taken : List Procurement) × (rest : List Procurement) × (ps ≡ taken ++ rest)
      × (need taken ≤ remaining)
      × Ends remaining next taken rest t

  abbrev cut : ℕ → ℕ → Procurement → List Procurement → Taken
  cut next k p ps = record {
    ids = next ∷ [];
    procurements =
        record p { product_qty = p.product_qty - compute_qty line.product_uom k p.product_uom }
        ∷ ps;
    remaining_qty = 0;
    splits =
        record {
          split_from_id = p.id;
          new_id = next;
          product_qty = compute_qty line.product_uom k p.product_uom;
        }
        ∷ [];
    next_id = suc next;
  }

  abbrev stop : ℕ → ℕ → List Procurement → Taken
  stop next k ps = record {
    ids = [];
    procurements = ps;
    remaining_qty = k;
    splits = [];
    next_id = next;
  }

  whole : Procurement → Taken → Taken
  whole p t = record t { ids = p.id ∷ t.ids; procurements = p ∷ t.procurements }

  Part-whole :
      (next k : ℕ) (p q : Procurement) (taken : List Procurement) (t : Taken)
      → Part next k p taken t
      → Part next k p (q ∷ taken) (whole q t)
  unfolding whole
  Part-whole next zero p q taken t h = (ap (λ xs. q.id ∷ xs) h.0, h.1)
  Part-whole next (suc k) p q taken t h = (ap (λ xs. q.id ∷ xs) h.0, h.1)

  Ends-whole :
      (remaining next : ℕ) (q : Procurement) (taken rest : List Procurement) (t : Taken)
      → in_line_uom q ≤ remaining
      → need taken ≤ remaining - in_line_uom q
      → Ends (remaining - in_line_uom q) next taken rest t
      → Ends remaining next (q ∷ taken) rest (whole q t)
  unfolding whole
  Ends-whole remaining next q taken [] t le fits h =
      (ap (λ xs. q.id ∷ xs) h.0, h.1, omega (arith, h.2))
  Ends-whole remaining next q taken (p ∷ ps) t le fits h = (
    omega (arith, h.0),
    h.1,
    subst (λ k. Part next k p (q ∷ taken) (whole q t)) (omega arith)
        (Part-whole next (remaining - in_line_uom q - need taken) p q taken t h.2),
  )

  -- A line takes the longest beginning of the procurements that fits into what it lacks. If a
  -- procurement is left and the line is not full with them, the first that is left is split, and
  -- the new procurement takes what the line lacks, in the other's unit; then the line lacks nothing.
  pub take_procs-FillsLine :
      (remaining next : ℕ) (ps : List Procurement)
      → FillsLine remaining next ps (take_procs compute_qty db line remaining next ps)
  unfolding take_procs whole
  take_procs-FillsLine remaining next [] = ([], [], refl, omega arith, (refl, refl, omega arith))
  take_procs-FillsLine remaining next (p ∷ ps) = elim (Bool-cases (leb (in_line_uom p) remaining)) [
    | inl fits ↦
        let (taken, rest, e, le, ends) = take_procs-FillsLine (remaining - in_line_uom p) next ps in
        let small : in_line_uom p ≤ remaining = ground arith in
        let t = take_procs compute_qty db line (remaining - in_line_uom p) next ps in
        rw fits (
          p ∷ taken,
          rest,
          ap (λ xs. p ∷ xs) e,
          omega (arith, le, small),
          Ends-whole remaining next p taken rest t small le ends,
        )
    | inr large ↦
        let big : remaining < in_line_uom p = ground arith in
        ([], p ∷ ps, refl, omega arith, rw large (first remaining big))
  ]
    where
      first :
          (k : ℕ)
          → k < in_line_uom p
          → Ends k next [] (p ∷ ps) (if ltb 0 k then cut next k p ps else stop next k (p ∷ ps))
      first zero h =
          let e : 0 ≡ 0 - 0 = omega arith in
          (omega arith, refl, subst (λ m. Part next m p [] (stop next 0 (p ∷ ps))) e (refl, refl))
      first (suc k) h =
          let t : ltb 0 (suc k) ≡ true = ground arith in
          let e : suc k ≡ suc k - 0 = omega arith in
          rw t (
            omega arith,
            refl,
            subst (λ m. Part next m p [] (cut next (suc k) p ps)) e (refl, refl),
          )
