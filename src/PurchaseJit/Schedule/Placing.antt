-- ===== src/PurchaseJit/Schedule/Placing.antt =====
-- purchase_procurement_just_in_time/models/procurement.py: where `purchase_schedule_procurements`
-- leaves a procurement.
use odoo_addons.Base.{
  ℕ, ◌+◌, ◌≤◌, ◌<◌, ◌≡◌, sym, ap, ◌∙◌, true, false, ◌⊎◌, none, some, List, [], ◌∷◌, map, leb, mem,
  In, here, there, All, All_at, Bool-cases, inl, inr, arith,
}
use mathlib.Core.Path.{subst}
use odoo_addons.Base.Count.{times, times-eq-zero}
use odoo_addons.PurchaseJit.Assignment.{
  Line, Procurement, Assigned, closed_ids, compute_which_procs_for_lines,
}
use odoo_addons.PurchaseJit.Assignment.Prefix.{ids_of}
use odoo_addons.PurchaseJit.Assignment.Conservation.{in_entries, compute_which_procs-conserves}
use odoo_addons.PurchaseJit.Assignment.Entries.{
  is_open_line, IsOfLine, compute_which_procs-IsUsable,
}
use odoo_addons.PurchaseJit.Assignment.Rest.{compute_which_procs-rest}
use odoo_addons.PurchaseJit.Grouping.{Groups}
use odoo_addons.PurchaseJit.Grouping.Conservation.{in_lines}
use odoo_addons.PurchaseJit.Grouping.Rounds.{Reaches, group_procurements-conserves}
use odoo_addons.PurchaseJit.Grouping.Filled.{IsFilled, AllFilled, group_procurements-AllFilled}
use odoo_addons.PurchaseJit.Schedule.{
  DraftLine, Purchases, Buying, Outcome, same_value, seller_of, check_seller, split_procurements,
  remove_past_procurements_if_needed, create_draft_orders, link_procurements, schedule_checked,
  schedule_if, purchase_schedule_procurements,
}
use odoo_addons.PurchaseJit.Schedule.Splits.{
  IsFreshFrom, split_procurements-IsFreshFrom, In-split_procurements,
}
use odoo_addons.PurchaseJit.Schedule.Relinking.{no_jobs}
use odoo_addons.PurchaseJit.Schedule.Following.{
  to_group-le, known_lines, IsPlaced, link_procurements-places,
}

-- The procurements that the steps after the splits are about.
module _ (b : Buying) (st : Purchases) (company location : ℕ) (ids : List ℕ)
    (off : b.jobify ≡ false)
    (reaches : (p : Procurement) (date : ℕ) → Reaches (b.setting.period_end p date) p.date_planned)
    (once : (i : ℕ) → times i ids ≤ 1)
    (listed : (i : ℕ) → times i ids ≤ times i (ids_of st.procurements))
    (fresh : IsFreshFrom st.next_id st.procurements) where
  assignment : List ℕ × Assigned
  assignment =
      compute_which_procs_for_lines b.setting.compute_qty st.procurements st.lines company location
        ids st.next_id

  after_splits : List Procurement
  after_splits = split_procurements assignment.1.splits st.procurements

  to_group : List ℕ
  to_group = remove_past_procurements_if_needed b after_splits assignment.0

  to_group-once :
      (i : ℕ) → (times i to_group ≤ 1) × (times i to_group ≤ times i (ids_of after_splits))
  unfolding assignment after_splits to_group
  to_group-once i =
      let some_left = to_group-le b after_splits assignment.0 i in
      let rest =
        compute_which_procs-rest b.setting.compute_qty st.procurements st.lines company location ids
          st.next_id i in
      let usable =
        compute_which_procs-IsUsable b.setting.compute_qty st.procurements st.lines company location
          ids st.next_id in
      let kept =
        split_procurements-IsFreshFrom st.next_id assignment.1.next_id assignment.1.splits
          st.procurements usable.1 fresh i in
      let one = fresh i in
      elim (Bool-cases (mem i ids)) [
        | inl t ↦
            (ground (arith, some_left.0, rest, one.0), ground (arith, some_left.0, rest, kept.1))
        | inr t ↦ (ground (arith, some_left.0, rest), ground (arith, some_left.0, rest))
      ]

  -- Where a procurement that is asked for and still open is in the end.
  abbrev EndsAt : Purchases → Procurement → Procurement → Type 0
  EndsAt r p q =
      ((l : Line) × In l st.lines
        × (is_open_line company location l ≡ true)
        × (q.purchase_line_id ≡ some l.id))
      ⊎ ((l : DraftLine) × In l r.new_lines
          × (st.next_line_id ≤ l.id)
          × (q.purchase_line_id ≡ some l.id))
      ⊎ ((mem p.id assignment.0 ≡ true) × (q.purchase_line_id ≡ none))
      ⊎ ((b.ignore_past_procurements ≡ true) × (q.purchase_line_id ≡ p.purchase_line_id))

  AllPlaced : Purchases → Type 0
  AllPlaced r =
      (p : Procurement)
      → In p st.procurements
      → mem p.id ids ≡ true
      → ((line : ℕ) → mem p.id (closed_ids st.procurements line) ≡ false)
      → (q : Procurement) × In q r.procurements × (q.id ≡ p.id) × EndsAt r p q

  ids_of-In : (db : List Procurement) (p : Procurement) → In p db → 1 ≤ times p.id (ids_of db)
  ids_of-In [] p m = elim m [ ]
  ids_of-In (x ∷ db) p (here q) = let same : x.id ≡ p.id = ap (λ y. y.id) q in ground arith
  ids_of-In (x ∷ db) p (there m) = omega (arith, ids_of-In db p m)

  left_over : (i : ℕ) (is : List ℕ) → times i is ≡ 1 → mem i is ≡ true
  left_over i is h = elim (Bool-cases (mem i is)) [
    | inl t ↦ t
    | inr t ↦ let z = times-eq-zero i is t in elim (impossible z) [ ]
  ]
    where
      impossible : times i is ≡ 0 → ⊥
      impossible z = omega (arith, z, h)

  -- It is in the entries of a line or left over, once.
  assigned_once :
      (p : Procurement)
      → In p st.procurements
      → mem p.id ids ≡ true
      → ((line : ℕ) → mem p.id (closed_ids st.procurements line) ≡ false)
      → times p.id assignment.0 + in_entries p.id assignment.1.dict_procs_lines ≡ 1
  unfolding assignment
  assigned_once p m asked open_proc =
      let one = ids_of-In st.procurements p m in
      let (once_there, above) = fresh p.id in
      let below : p.id < st.next_id = elim (Bool-cases (leb st.next_id p.id)) [
        | inl t ↦ let z = above (ground arith) in omega (arith, z, one)
        | inr t ↦ ground arith
      ] in
      let all =
        compute_which_procs-conserves b.setting.compute_qty st.procurements st.lines company
          location ids st.next_id p.id open_proc below (omega (arith, one, once_there)) in
      ground (arith, all, asked)

  ends :
      (g : Groups) (r : Purchases) (p p' q : Procurement)
      → p'.id ≡ p.id
      → p'.purchase_line_id ≡ p.purchase_line_id
      → times p.id assignment.0 + in_entries p.id assignment.1.dict_procs_lines ≡ 1
      → times p.id g.not_assigned + in_lines p.id g.dict_lines_to_create ≡ times p.id to_group
      → IsPlaced assignment.1.dict_procs_lines g st.next_line_id r.new_lines p' q
      → EndsAt r p q
  unfolding assignment to_group after_splits
  ends g r p p' q same link total grouped (inl (e, i, on)) =
      let usable =
        compute_which_procs-IsUsable b.setting.compute_qty st.procurements st.lines company location
          ids st.next_id in
      let (l, m, is_open, eq) = All_at (IsOfLine st.lines company location) i usable.0 in
      inl (l, m, is_open, on ∙ ap some (sym eq))
  ends g r p p' q same link total grouped (inr (inl on_new)) = inr (inl on_new)
  ends g r p p' q same link total grouped (inr (inr (inl (z, off_line)))) =
      let e : in_entries p'.id assignment.1.dict_procs_lines
          ≡ in_entries p.id assignment.1.dict_procs_lines =
        ap (λ i. in_entries i assignment.1.dict_procs_lines) same in
      inr (inr (inl (left_over p.id assignment.0 (omega (arith, total, e, z)), off_line)))
  ends g r p p' q same link total grouped (inr (inr (inr (absent, z, no_line, stays)))) =
      elim (Bool-cases b.ignore_past_procurements) [
        | inl t ↦ inr (inr (inr (t, stays ∙ link)))
        | inr t ↦
            let none_left = times-eq-zero p'.id g.not_assigned absent in
            let left = (to_group-le b after_splits assignment.0 p.id).1 t in
            elim (impossible none_left left) [ ]
      ]
    where
      impossible :
          times p'.id g.not_assigned ≡ 0 → times p.id to_group ≡ times p.id assignment.0 → ⊥
      impossible none_left left =
          let n : times p'.id g.not_assigned ≡ times p.id g.not_assigned =
            ap (λ i. times i g.not_assigned) same in
          let l : in_lines p'.id g.dict_lines_to_create ≡ in_lines p.id g.dict_lines_to_create =
            ap (λ i. in_lines i g.dict_lines_to_create) same in
          let e : in_entries p'.id assignment.1.dict_procs_lines
              ≡ in_entries p.id assignment.1.dict_procs_lines =
            ap (λ i. in_entries i assignment.1.dict_procs_lines) same in
          omega (arith, none_left, left, n, l, e, total, grouped, z, no_line)

  schedule_checked-places :
      (r : Purchases) × (schedule_checked b company location ids st ≡ Outcome.scheduled r no_jobs)
      × AllPlaced r
  unfolding schedule_checked AllPlaced assignment after_splits to_group
  schedule_checked-places =
      let g0 = create_draft_orders b to_group st.orders st.next_order_id in
      let es = assignment.1.dict_procs_lines in
      let st' : Purchases = record st {
        procurements = after_splits;
        next_id = assignment.1.next_id;
      } in
      let (g, e, counts) =
        group_procurements-conserves b.setting after_splits to_group g0.orders g0.next_order_id
          reaches (λ i. (to_group-once i).0)
          (λ i.
            (split_procurements-IsFreshFrom st.next_id assignment.1.next_id assignment.1.splits
              st.procurements
              (compute_which_procs-IsUsable b.setting.compute_qty st.procurements st.lines company
                location ids st.next_id).1
              fresh i).0) in
      let filled : All IsFilled g.dict_lines_to_create =
        subst AllFilled e (
          group_procurements-AllFilled b.setting after_splits to_group g0.orders
            g0.next_order_id) in
      let usable =
        compute_which_procs-IsUsable b.setting.compute_qty st.procurements st.lines company location
          ids st.next_id in
      let (r, e', places) =
        link_procurements-places b es g st' off filled
          (λ i h. omega (arith, counts i, h, (to_group-once i).1))
          (known_lines st.lines company location es usable.0) in
      (
        r,
        ap
              (λ o. elim o as (λ x. Outcome) [
                | none ↦ Outcome.endless
                | some grouped ↦ link_procurements b es grouped st'
              ])
              e
            ∙ e',
        λ p m asked open_proc.
            let (p', i, same, link) =
              In-split_procurements assignment.1.splits st.procurements p m in
            let total = assigned_once p m asked open_proc in
            let count : in_entries p'.id es ≡ in_entries p.id es = ap (λ n. in_entries n es) same in
            let (q, j, same', placed) = places p' i (omega (arith, count, total)) in
            (q, j, same' ∙ same, ends g r p p' q same link total (counts p.id) placed),
      )

-- Without jobs, for procurements of one company, one location and one seller, which are in the
-- database and are listed once each, with unique identifiers below the next one, and if no period
-- ends before the date of the procurement that it is for: the scheduling comes to its end, and a
-- listed procurement that is neither done nor cancelled for any line is then on a line to receive of
-- the company at the location, on a line that is new, on none, if the assignment to lines left it
-- over, or, only where past procurements are ignored, where it was.
pub purchase_schedule-places :
    (b : Buying) (st : Purchases) (company location first : ℕ) (others : List ℕ) (p : Procurement)
    → same_value (map b.company_of (first ∷ others)) ≡ some company
    → same_value (map b.location_of (first ∷ others)) ≡ some location
    → check_seller b (seller_of b first st.procurements) (first ∷ others) st.procurements ≡ true
    → b.jobify ≡ false
    → ((p : Procurement) (date : ℕ) → Reaches (b.setting.period_end p date) p.date_planned)
    → ((i : ℕ) → times i (first ∷ others) ≤ 1)
    → ((i : ℕ) → times i (first ∷ others) ≤ times i (ids_of st.procurements))
    → IsFreshFrom st.next_id st.procurements
    → In p st.procurements
    → mem p.id (first ∷ others) ≡ true
    → ((line : ℕ) → mem p.id (closed_ids st.procurements line) ≡ false)
    → let left =
        (compute_which_procs_for_lines b.setting.compute_qty st.procurements st.lines company
          location
          (first ∷ others)
          st.next_id).0 in
      (r : Purchases) × (purchase_schedule_procurements b (first ∷ others) st
        ≡ Outcome.scheduled r no_jobs)
      × (q : Procurement) × In q r.procurements
      × (q.id ≡ p.id)
      × (((l : Line) × In l st.lines
            × (is_open_line company location l ≡ true)
            × (q.purchase_line_id ≡ some l.id))
          ⊎ ((l : DraftLine) × In l r.new_lines
              × (st.next_line_id ≤ l.id)
              × (q.purchase_line_id ≡ some l.id))
          ⊎ ((mem p.id left ≡ true) × (q.purchase_line_id ≡ none))
          ⊎ ((b.ignore_past_procurements ≡ true) × (q.purchase_line_id ≡ p.purchase_line_id)))
unfolding AllPlaced assignment
purchase_schedule-places b st company location first others p hc hl hs off reaches once listed fresh
      m asked open_proc =
    let ids = first ∷ others in
    let (r, e, places) =
      schedule_checked-places b st company location ids off reaches once listed fresh in
    let (q, place, same, at) = places p m asked open_proc in
    let locations = same_value (map b.location_of ids) in
    let same_seller = check_seller b (seller_of b first st.procurements) ids st.procurements in
    (
      r,
      ap (λ c. schedule_if b c locations same_seller ids st) hc
          ∙ ap (λ l. schedule_if b (some company) l same_seller ids st) hl
          ∙ ap (λ t. schedule_if b (some company) (some location) t ids st) hs
          ∙ e,
      q,
      place,
      same,
      at,
    )
