-- ===== src/PurchaseJit/Scheduling/Partition.antt =====
-- purchase_procurement_just_in_time/models/procurement.py: the loop of
-- `launch_purchase_schedule_seller` ends and parts the procurements.
use odoo_addons.Base.{
  ℕ, zero, suc, ◌+◌, ◌≤◌, ◌≡◌, refl, ◌∙◌, Bool, true, false, not, ◌&&◌, Option, some, List, [], ◌∷◌,
  ◌++◌, ◌==◌, keep, mem, length, length-keep, arith, Bool-cases, inl, inr, In, keep-In, In-append,
}
use odoo_addons.Base.Count.{times, times-append}
use odoo_addons.PurchaseJit.Assignment.{Line}
use odoo_addons.PurchaseJit.Scheduling.{
  ToBuy, SellerGroup, Plan, ids_of, add_group, add_if_any, is_past, is_planned, seller_round,
  seller_loop, launch_purchase_schedule_seller,
}

abbrev pub in_plan : ℕ → List SellerGroup → ℕ
in_plan i [] = 0
in_plan i (g ∷ gs) = times i (ids_of g.procurements) + in_plan i gs

module _ (i : ℕ) where
  times-ids_append :
      (xs ys : List ToBuy) → times i (ids_of (xs ++ ys)) ≡ times i (ids_of xs) + times i (ids_of ys)
  times-ids_append [] ys = omega arith
  times-ids_append (x ∷ xs) ys = omega (arith, times-ids_append xs ys)

  in_plan-add_group :
      (first : ToBuy) (ps : List ToBuy) (gs : List SellerGroup)
      → in_plan i (add_group first ps gs) ≡ in_plan i gs + times i (ids_of ps)
  in_plan-add_group first ps [] = omega arith
  in_plan-add_group first ps (g ∷ gs) =
      elim (Bool-cases (g.company_id == first.company_id && g.location_id == first.location_id)) [
        | inl t ↦ rw t omega (arith, times-ids_append g.procurements ps)
        | inr t ↦ rw t omega (arith, in_plan-add_group first ps gs)
      ]

  in_plan-add_if_any :
      (first : ToBuy) (ps : List ToBuy) (gs : List SellerGroup)
      → in_plan i (add_if_any first ps gs) ≡ in_plan i gs + times i (ids_of ps)
  in_plan-add_if_any first [] gs = omega arith
  in_plan-add_if_any first (p ∷ ps) gs = in_plan-add_group first (p ∷ ps) gs

  -- Two tests that exclude each other part a list in three.
  times-parts :
      (p q : ToBuy → Bool)
      → ((x : ToBuy) → p x ≡ true → q x ≡ false)
      → (xs : List ToBuy)
      → times i (ids_of (keep (λ x. not (q x)) (keep (λ x. not (p x)) xs)))
          + times i (ids_of (keep p xs))
          + times i (ids_of (keep q xs))
        ≡ times i (ids_of xs)
  times-parts p q apart [] = refl
  times-parts p q apart (x ∷ xs) = elim (Bool-cases (p x)) [
    | inl t ↦ let u = apart x t in rw t rw u omega (arith, times-parts p q apart xs)
    | inr t ↦ elim (Bool-cases (q x)) [
      | inl u ↦ rw t rw u omega (arith, times-parts p q apart xs)
      | inr u ↦ rw t rw u omega (arith, times-parts p q apart xs)
    ]
  ]

-- The group holds procurements of its company and its location.
abbrev IsHome : ℕ → ℕ → List ToBuy → Type 0
IsHome company location ps =
    (p : ToBuy) → In p ps → (p.company_id ≡ company) × (p.location_id ≡ location)

abbrev pub AllHome : List SellerGroup → Type 0
AllHome [] = Unit
AllHome (g ∷ gs) = IsHome g.company_id g.location_id g.procurements × AllHome gs

add_group-AllHome :
    (first : ToBuy) (ps : List ToBuy) (gs : List SellerGroup)
    → IsHome first.company_id first.location_id ps
    → AllHome gs
    → AllHome (add_group first ps gs)
add_group-AllHome first ps [] h hs = (h, tt)
add_group-AllHome first ps (g ∷ gs) h hs =
    elim (Bool-cases (g.company_id == first.company_id && g.location_id == first.location_id)) [
      | inl t ↦
          let c : first.company_id ≡ g.company_id = ground arith in
          let l : first.location_id ≡ g.location_id = ground arith in
          rw t (
            (λ p m. elim (In-append g.procurements ps m) [
              | inl a ↦ hs.0 p a
              | inr b ↦ ((h p b).0 ∙ c, (h p b).1 ∙ l)
            ]),
            hs.1,
          )
      | inr t ↦ rw t (hs.0, add_group-AllHome first ps gs h hs.1)
    ]

add_if_any-AllHome :
    (first : ToBuy) (ps : List ToBuy) (gs : List SellerGroup)
    → IsHome first.company_id first.location_id ps
    → AllHome gs
    → AllHome (add_if_any first ps gs)
add_if_any-AllHome first [] gs h hs = hs
add_if_any-AllHome first (p ∷ ps) gs h hs = add_group-AllHome first (p ∷ ps) gs h hs

module _ (delivery_date : ℕ → ℕ) (lines : List Line) (ignore_past : Bool) where
  abbrev past : ToBuy → ToBuy → Bool
  past first p = is_past delivery_date lines true false ignore_past first p

  abbrev planned : ToBuy → ToBuy → Bool
  planned first p = is_planned delivery_date lines true false ignore_past first p

  apart : (first p : ToBuy) → past first p ≡ true → planned first p ≡ false
  apart first p h = ground arith

  first-planned : (p : ToBuy) → past p p ≡ false → planned p p ≡ true
  first-planned p h = ground arith

  -- The first procurement is past or planned, so that each round has one procurement less at least.
  rest-length :
      (p : ToBuy) (ps : List ToBuy)
      → length (keep (λ x. not (planned p x)) (keep (λ x. not (past p x)) (p ∷ ps))) ≤ length ps
  rest-length p ps =
      let kept = keep (λ x. not (past p x)) ps in
      let a = length-keep (λ x. not (past p x)) ps in
      let b = length-keep (λ x. not (planned p x)) kept in
      elim (Bool-cases (past p p)) [
        | inl t ↦ rw t omega (arith, a, b)
        | inr t ↦ let u = first-planned p t in rw t rw u omega (arith, a, b)
      ]

  abbrev loop : ℕ → List ToBuy → Plan → Option Plan
  loop n ps plan = seller_loop delivery_date lines true false ignore_past n ps plan

  -- The removed and the planned, as often as they were, and the procurements to run.
  abbrev Parts : List ToBuy → Plan → Plan → Type 0
  Parts ps plan r =
      (i : ℕ)
      → times i r.removed + in_plan i r.dict_procs
        ≡ times i plan.removed + in_plan i plan.dict_procs + times i (ids_of ps)

  planned-IsHome :
      (first : ToBuy) (ps : List ToBuy)
      → IsHome first.company_id first.location_id (keep (planned first) ps)
  planned-IsHome first ps p m =
      let t = (keep-In (planned first) ps m).1 in (ground arith, ground arith)

  seller_loop-ends :
      (n : ℕ) (ps : List ToBuy) (plan : Plan)
      → length ps ≤ n
      → AllHome plan.dict_procs
      → (r : Plan) × (loop n ps plan ≡ some r) × AllHome r.dict_procs × Parts ps plan r
  unfolding seller_loop
  seller_loop-ends n [] plan le home = (plan, refl, home, λ i. omega arith)
  seller_loop-ends zero (p ∷ ps) plan le home = elim (impossible le) [ ]
    where
      impossible : suc (length ps) ≤ 0 → ⊥
      impossible h = omega (arith, h)
  seller_loop-ends (suc n) (p ∷ ps) plan le home =
      let round = seller_round delivery_date lines true false ignore_past p (p ∷ ps) plan in
      let (r, e, home', parts) =
        seller_loop-ends n round.0 round.1 (omega (arith, le, rest-length p ps)) (
          add_if_any-AllHome p (keep (planned p) (p ∷ ps)) plan.dict_procs
            (planned-IsHome p (p ∷ ps)) home) in
      (
        r,
        e,
        home',
        λ i. omega (
          arith,
          parts i,
          times-parts i (past p) (planned p) (apart p) (p ∷ ps),
          times-append i plan.removed (ids_of (keep (past p) (p ∷ ps))),
          in_plan-add_if_any i p (keep (planned p) (p ∷ ps)) plan.dict_procs,
        ),
      )

  -- For a supplier that exists and is scheduled the loop ends, each of the procurements to run is
  -- afterwards either in one of the groups or among those that are taken off their lines as past, as
  -- often as it is in the database, and each group holds procurements of its company and location.
  pub launch_purchase_schedule_seller-parts :
      (db : List ToBuy) (procurement_ids : List ℕ)
      → (r : Plan) × (launch_purchase_schedule_seller delivery_date lines true false ignore_past db
            procurement_ids
          ≡ some r)
        × AllHome r.dict_procs
        × ((i : ℕ)
            → times i r.removed + in_plan i r.dict_procs
              ≡ times i (ids_of (keep (λ p. mem p.id procurement_ids && p.is_active) db)))
  unfolding launch_purchase_schedule_seller
  launch_purchase_schedule_seller-parts db procurement_ids =
      let to_run = keep (λ p. mem p.id procurement_ids && p.is_active) db in
      let (r, e, home, parts) =
        seller_loop-ends (length to_run) to_run
          (record { exceptions = []; removed = []; dict_procs = [] }) (omega arith) tt in
      (r, e, home, λ i. omega (arith, parts i))
