-- ===== src/PurchaseJit/Grouping/Rounds.antt =====
-- purchase_procurement_just_in_time/models/procurement.py: the rounds of `group_procurements_by_orders`.
use odoo_addons.Base.{
  ℕ, zero, suc, ◌+◌, ◌≤◌, ◌≡◌, refl, ap, ◌∙◌, Bool, true, false, not, ◌&&◌, ◌||◌, Option, none,
  some, List, [], ◌∷◌, ◌++◌, ltb, leb, ◌==◌, if◌then◌else◌, keep, mem, length, length-keep, arith,
  Bool-cases, inl, inr,
}
use odoo_addons.Base.Count.{times, times-eq-zero, times_pos, times-keep_absent}
use odoo_addons.PurchaseJit.Assignment.{Procurement, get_dict_ordered_procs_by_product}
use odoo_addons.PurchaseJit.Assignment.Prefix.{ids_of}
use odoo_addons.PurchaseJit.Assignment.Conservation.{in_groups, in_groups-get_dict}
use odoo_addons.PurchaseJit.Grouping.{
  Place, DraftOrder, Groups, Setting, first_of, is_available, is_dated,
  get_corresponding_draft_order, reach_moq, until, get_purchase_line_procurements,
  get_purchase_date, is_empty, end_round, group_round, group_product, group_products, group_order,
  line_qty, group_procurements_by_orders,
}
use odoo_addons.PurchaseJit.Grouping.Conservation.{
  in_lines, in_lines-add_line, times-without, times-get_line,
}

-- Groups with the same lines and the same procurements left.
abbrev Same : Groups → Groups → Type 0
Same g r =
    (r.not_assigned ≡ g.not_assigned)
    × (r.dict_lines_to_create ≡ g.dict_lines_to_create)
    × (r.nb_draft_orders ≡ g.nb_draft_orders)

pub found-Same :
    (period : ℕ → ℕ × ℕ) (nb_max : ℕ) (place : Place) (force forbid : Bool) (date : ℕ) (g : Groups)
    → Same g (get_corresponding_draft_order period nb_max place force forbid date g).1
found-Same period nb_max place force forbid date g =
    split (if force then none else first_of (keep (is_available place date) g.orders))
  where
    allowed : Bool
    allowed = (nb_max == 0 || ltb (length (keep is_dated g.orders)) nb_max || force) && not forbid

    order : DraftOrder
    order = record {
      id = g.next_order_id;
      place = place;
      date_order = some (period date).0;
      date_order_max = some (period date).1;
    }

    created : Bool → Option DraftOrder × Groups
    created b =
        if b
        then (
          some order,
          record g { orders = g.orders ++ (order ∷ []); next_order_id = suc g.next_order_id },
        )
        else (none, g)

    created-Same : (b : Bool) → Same g (created b).1
    created-Same true = (refl, refl, refl)
    created-Same false = (refl, refl, refl)

    split :
        (o : Option DraftOrder)
        → Same g
            (elim o as (λ x. Option DraftOrder × Groups) [
              | some found ↦ (some found, g)
              | none ↦ created allowed
            ]).1
    split (some found) = (refl, refl, refl)
    split none = created-Same allowed

module _ (i : ℕ) where
  -- The lines and the rest hold a procurement as often as before, and only those listed leave the rest.
  abbrev Moves : List ℕ → Groups → Groups → Type 0
  Moves ids g r =
      (times i r.not_assigned + in_lines i r.dict_lines_to_create
        ≡ times i g.not_assigned + in_lines i g.dict_lines_to_create)
      × (times i g.not_assigned ≤ times i r.not_assigned + times i ids)
      × (times i r.not_assigned ≤ times i g.not_assigned)

  end_round-Moves :
      (s : Setting) (o : Option DraftOrder) (product_id : ℕ) (ids : List ℕ) (g : Groups)
      → times i g.not_assigned ≤ 1
      → times i ids ≤ times i g.not_assigned
      → Moves ids g (end_round s o product_id ids g).0
  end_round-Moves s none product_id ids g once fewer = (refl, omega arith, omega arith)
  end_round-Moves s (some order) product_id ids g once fewer = elim (Bool-cases (is_empty ids)) [
    | inl t ↦ rw t (refl, omega arith, omega arith)
    | inr t ↦
        let rest = times-without i g.not_assigned ids in
        let lines = in_lines-add_line i order.id product_id ids g.dict_lines_to_create in
        rw t (elim (Bool-cases (mem i ids)) [
          | inl m ↦
              let pos = times_pos i ids m in
              (ground (arith, rest, lines, pos), ground (arith, rest, pos), ground (arith, rest))
          | inr m ↦
              let z = times-eq-zero i ids m in
              (ground (arith, rest, lines, z), ground (arith, rest, z), ground (arith, rest))
        ])
  ]

  group_round-Moves :
      (s : Setting) (first : Procurement) (ids : List ℕ) (g : Groups)
      → times i g.not_assigned ≤ 1
      → times i ids ≤ times i g.not_assigned
      → Moves ids g (group_round s first ids g).0
  group_round-Moves s first ids g once fewer =
      let place = s.place_of first in
      let date = get_purchase_date s first in
      let found =
        get_corresponding_draft_order s.period s.nb_max place false (ltb 0 s.nb_max) date g in
      let (same, same_lines, same_nb) =
        found-Same s.period s.nb_max place false (ltb 0 s.nb_max) date g in
      let n : times i found.1.not_assigned ≡ times i g.not_assigned = ap (λ xs. times i xs) same in
      let l : in_lines i found.1.dict_lines_to_create ≡ in_lines i g.dict_lines_to_create =
        ap (λ xs. in_lines i xs) same_lines in
      let (a, b, c) =
        end_round-Moves s found.0 first.product_id ids found.1 (omega (arith, n, once))
          (omega (arith, n, fewer)) in
      (omega (arith, a, n, l), omega (arith, b, n), omega (arith, c, n))

-- The period of a procurement does not end before its date.
abbrev pub Reaches : Option ℕ → ℕ → Type 0
Reaches none date = Unit
Reaches (some end_date) date = date ≤ end_date

module _ (s : Setting)
    (reaches : (p : Procurement) (date : ℕ) → Reaches (s.period_end p date) p.date_planned) where
  mem-ids_append :
      (a : ℕ) (xs ys : List Procurement)
      → mem a (ids_of xs) ≡ true
      → mem a (ids_of (xs ++ ys)) ≡ true
  mem-ids_append a [] ys h = cc
  mem-ids_append a (x ∷ xs) ys h = elim (Bool-cases (a == x.id)) [
    | inl t ↦ rw t refl
    | inr t ↦ rw t (mem-ids_append a xs ys (ground arith))
  ]

  first-until :
      (o : Option ℕ) (p : Procurement) (ps : List Procurement)
      → Reaches o p.date_planned
      → mem p.id (ids_of (until s o (p ∷ ps))) ≡ true
  first-until none p ps h = ground arith
  first-until (some d) p ps h =
      let t : leb p.date_planned d ≡ true = ground arith in rw t ground arith

  -- The first procurement of a round is among those that it takes.
  pub first-get_line :
      (p : Procurement) (ps : List Procurement) (date : ℕ)
      → mem p.id (get_purchase_line_procurements s p (p ∷ ps) date) ≡ true
  first-get_line p ps date =
      let xs = until s (s.period_end p date) (p ∷ ps) in
      let ys = keep (λ q. not (mem q.id (ids_of xs))) (p ∷ ps) in
      let qty = line_qty s p xs in
      let moq = s.moq_of p.product_id in
      let m = first-until (s.period_end p date) p ps (reaches p date) in
      elim (Bool-cases (ltb 0 moq && ltb qty moq)) [
        | inl t ↦ rw t (mem-ids_append p.id xs (reach_moq s p moq qty ys) m)
        | inr t ↦ rw t m
      ]

  -- What the rounds of a product leave, for procurements that are not assigned yet.
  abbrev Left : ℕ → List Procurement → Groups → Groups → Type 0
  Left i ps g r =
      (times i r.not_assigned + in_lines i r.dict_lines_to_create
        ≡ times i g.not_assigned + in_lines i g.dict_lines_to_create)
      × (times i g.not_assigned ≤ times i r.not_assigned + times i (ids_of ps))
      × (times i r.not_assigned ≤ times i g.not_assigned)

  Fits : List Procurement → Groups → Type 0
  Fits ps g =
      (i : ℕ) → (times i (ids_of ps) ≤ times i g.not_assigned) × (times i g.not_assigned ≤ 1)

  next_procs : Bool → List ℕ → List Procurement → List Procurement
  next_procs stop ids ps = if stop then [] else keep (λ x. not (mem x.id ids)) ps

  next_procs-length :
      (stop : Bool) (ids : List ℕ) (p : Procurement) (ps : List Procurement) (n : ℕ)
      → mem p.id ids ≡ true
      → length (p ∷ ps) ≤ suc n
      → length (next_procs stop ids (p ∷ ps)) ≤ n
  unfolding next_procs
  next_procs-length true ids p ps n m le = omega arith
  next_procs-length false ids p ps n m le =
      rw m omega (arith, length-keep (λ x. not (mem x.id ids)) ps, le)

  next_procs-times :
      (i : ℕ) (stop : Bool) (ids : List ℕ) (ps : List Procurement) (before rest : ℕ)
      → times i ids ≤ times i (ids_of ps)
      → times i (ids_of ps) ≤ before
      → before ≤ rest + times i ids
      → (times i (ids_of (next_procs stop ids ps)) ≤ rest)
        × (times i (ids_of (next_procs stop ids ps)) + times i ids ≤ times i (ids_of ps))
  unfolding next_procs
  next_procs-times i true ids ps before rest fewer h k = (omega arith, omega arith)
  next_procs-times i false ids ps before rest fewer h k =
      let l = times-keep_absent (λ p. p.id) i ids ps in
      elim (Bool-cases (mem i ids)) [
        | inl m ↦ (ground (arith, l), ground (arith, l))
        | inr m ↦ let z = times-eq-zero i ids m in (ground (arith, l, z), ground (arith, l, z))
      ]

  -- As many rounds as there are procurements are enough, and none is lost.
  group_product-ends :
      (n : ℕ) (ps : List Procurement) (g : Groups)
      → length ps ≤ n
      → Fits ps g
      → (r : Groups) × (group_product s n ps g ≡ some r) × ((i : ℕ) → Left i ps g r)
  unfolding group_product Fits next_procs
  group_product-ends n [] g le fits = (g, refl, λ i. (refl, omega arith, omega arith))
  group_product-ends zero (p ∷ ps) g le fits = elim (impossible le) [ ]
    where
      impossible : suc (length ps) ≤ 0 → ⊥
      impossible h = omega (arith, h)
  group_product-ends (suc n) (p ∷ ps) g le fits =
      let ids = get_purchase_line_procurements s p (p ∷ ps) (get_purchase_date s p) in
      let round = group_round s p ids g in
      let taken : (i : ℕ) → times i ids ≤ times i (ids_of (p ∷ ps)) =
        λ i. times-get_line i s p (p ∷ ps) (get_purchase_date s p) in
      let moves : (i : ℕ) → Moves i ids g round.0 =
        λ i. group_round-Moves i s p ids g (fits i).1 (omega (arith, taken i, (fits i).0)) in
      let next : (i : ℕ)
          → (times i (ids_of (next_procs round.1 ids (p ∷ ps))) ≤ times i round.0.not_assigned)
            × (times i (ids_of (next_procs round.1 ids (p ∷ ps))) + times i ids
                ≤ times i (ids_of (p ∷ ps))) =
        λ i.
          next_procs-times i round.1 ids (p ∷ ps) (times i g.not_assigned)
            (times i round.0.not_assigned) (taken i) (fits i).0 (moves i).1 in
      let (r, e, left) =
        group_product-ends n (next_procs round.1 ids (p ∷ ps)) round.0
          (next_procs-length round.1 ids p ps n (first-get_line p ps (get_purchase_date s p)) le)
          (λ i. ((next i).0, omega (arith, (moves i).2, (fits i).1))) in
      (
        r,
        e,
        λ i. (
          omega (arith, (left i).0, (moves i).0),
          omega (arith, (left i).1, (moves i).1, (next i).1),
          omega (arith, (left i).2, (moves i).2),
        ),
      )

  group_products-ends :
      (groups : List (ℕ × List Procurement)) (g : Groups)
      → ((i : ℕ) → (in_groups i groups ≤ times i g.not_assigned) × (times i g.not_assigned ≤ 1))
      → (r : Groups) × (group_products s groups g ≡ some r)
        × ((i : ℕ)
            → times i r.not_assigned + in_lines i r.dict_lines_to_create
              ≡ times i g.not_assigned + in_lines i g.dict_lines_to_create)
  unfolding Fits
  group_products-ends [] g fits = (g, refl, λ i. refl)
  group_products-ends ((product, ps) ∷ groups) g fits =
      let (r, e, left) =
        group_product-ends (length ps) ps g (omega arith)
          (λ i. (omega (arith, (fits i).0), (fits i).1)) in
      let (r', e', same) =
        group_products-ends groups r
          (λ i. (omega (arith, (left i).1, (fits i).0), omega (arith, (left i).2, (fits i).1))) in
      (
        r',
        ap
              (λ o. elim o as (λ x. Option Groups) [
                | none ↦ none
                | some g' ↦ group_products s groups g'
              ])
              e
            ∙ e',
        λ i. omega (arith, (left i).0, same i),
      )

-- If no period ends before the date of the procurement that it is for, the grouping ends, whatever
-- the orders are, and each of the procurements, which are in the database once and are listed once,
-- is afterwards in one new line, once, or among those that are not assigned.
pub group_procurements-conserves :
    (s : Setting) (db : List Procurement) (ids : List ℕ) (orders : List DraftOrder)
    (next_order_id : ℕ)
    → ((p : Procurement) (date : ℕ) → Reaches (s.period_end p date) p.date_planned)
    → ((i : ℕ) → times i ids ≤ 1)
    → ((i : ℕ) → times i (ids_of db) ≤ 1)
    → (r : Groups) × (group_procurements_by_orders s db ids orders next_order_id ≡ some r)
      × ((i : ℕ) → times i r.not_assigned + in_lines i r.dict_lines_to_create ≡ times i ids)
unfolding group_procurements_by_orders
group_procurements-conserves s db ids orders next_order_id reaches once once_there =
    let start : Groups = record {
      orders = orders;
      next_order_id = next_order_id;
      dict_lines_to_create = [];
      not_assigned = ids;
      nb_draft_orders = 0;
    } in
    let (r, e, same) =
      group_products-ends s reaches (get_dict_ordered_procs_by_product db (group_order s) ids) start
        (λ i. (listed i, once i)) in
    (r, e, λ i. omega (arith, same i))
  where
    listed :
        (i : ℕ)
        → in_groups i (get_dict_ordered_procs_by_product db (group_order s) ids) ≤ times i ids
    listed i =
        let d = in_groups-get_dict i db (group_order s) ids in
        elim (Bool-cases (mem i ids)) [
          | inl m ↦ let pos = times_pos i ids m in let o = once_there i in ground (arith, d, pos, o)
          | inr m ↦ ground (arith, d)
        ]
