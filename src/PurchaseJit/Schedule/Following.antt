-- ===== src/PurchaseJit/Schedule/Following.antt =====
-- purchase_procurement_just_in_time/models/procurement.py: what a procurement goes through between the
-- splits and the end of the scheduling.
use odoo_addons.Base.{
  ℕ, ◌≤◌, ◌≡◌, refl, sym, ap, ◌∙◌, true, false, ◌⊎◌, none, some, List, [], ◌∷◌, map, keep, ◌&&◌,
  ltb, mem, In, here, there, All, Bool-cases, inl, inr, arith,
}
use odoo_addons.Base.Count.{times}
use odoo_addons.PurchaseJit.Assignment.{Line, Procurement, Entry}
use odoo_addons.PurchaseJit.Assignment.Conservation.{in_entries}
use odoo_addons.PurchaseJit.Assignment.Entries.{IsOfLine}
use odoo_addons.PurchaseJit.Grouping.{Groups, without}
use odoo_addons.PurchaseJit.Grouping.Conservation.{in_lines, times-without}
use odoo_addons.PurchaseJit.Grouping.Filled.{IsFilled}
use odoo_addons.PurchaseJit.Links.{prepare_procurements_redistribution, remove_procs_from_lines}
use odoo_addons.PurchaseJit.Schedule.{
  DraftLine, Purchases, Buying, Outcome, products_of, remove_past_of,
  remove_past_procurements_if_needed, fill_orders, link_procurements,
}
use odoo_addons.PurchaseJit.Schedule.NewLines.{AreKnown, IsLinked}
use odoo_addons.PurchaseJit.Schedule.Relinking.{
  no_jobs, redistributed, ids-redistributed, IsBefore, redistributed-places, redistribution_runs,
  creates,
}

remove_past-le :
    (b : Buying) (products : List ℕ) (db : List Procurement) (ids : List ℕ) (i : ℕ)
    → times i (remove_past_of b products db ids) ≤ times i ids
remove_past-le b [] db ids i = omega arith
remove_past-le b (product ∷ products) db ids i =
    let past = map (λ p. p.id) (past_of product) in
    let rest = remove_past-le b products db (without ids past) i in
    let w = times-without i ids past in
    elim (Bool-cases (mem i past)) [
      | inl t ↦ ground (arith, rest, w)
      | inr t ↦ ground (arith, rest, w)
    ]
  where
    past_of : ℕ → List Procurement
    past_of x = keep (λ p. mem p.id ids && ltb p.date_planned (b.min_draft_procurements_date x)) db

-- All procurements to assign stay to group, or past ones are left out.
pub to_group-le :
    (b : Buying) (db : List Procurement) (ids : List ℕ) (i : ℕ)
    → (times i (remove_past_procurements_if_needed b db ids) ≤ times i ids)
      × (b.ignore_past_procurements ≡ false
          → times i (remove_past_procurements_if_needed b db ids) ≡ times i ids)
to_group-le b db ids i = elim (Bool-cases b.ignore_past_procurements) [
  | inl t ↦ rw t (remove_past-le b (products_of ids db) db ids i, λ h. cc)
  | inr t ↦ rw t (omega arith, λ h. refl)
]

pub known_lines :
    (lines : List Line) (company location : ℕ) (es : List Entry)
    → All (IsOfLine lines company location) es
    → All (λ e. mem e.line_id (map (λ l. l.id) lines) ≡ true) es
known_lines lines company location [] h = tt
known_lines lines company location (e ∷ es) h =
    (found lines e h.0.1 h.0.3, known_lines lines company location es h.1)
  where
    found :
        (ls : List Line) (x : Entry) {l : Line}
        → In l ls
        → l.id ≡ x.line_id
        → mem x.line_id (map (λ y. y.id) ls) ≡ true
    found [] x m same = elim m [ ]
    found (y ∷ ls) x (here q) same =
        let e' : y.id ≡ x.line_id = ap (λ z. z.id) q ∙ same in ground arith
    found (y ∷ ls) x (there m) same = let later = found ls x m same in ground (arith, later)

-- Where a procurement is after the new lines: on the line of an entry, on a new line, on none, or
-- where it was, if it is neither to assign nor assigned.
abbrev pub IsPlaced : List Entry → Groups → ℕ → List DraftLine → Procurement → Procurement → Type 0
IsPlaced es g next created p q =
    ((e : Entry) × In e es × (q.purchase_line_id ≡ some e.line_id))
    ⊎ ((l : DraftLine) × In l created × (next ≤ l.id) × (q.purchase_line_id ≡ some l.id))
    ⊎ ((in_entries p.id es ≡ 0) × (q.purchase_line_id ≡ none))
    ⊎ ((mem p.id g.not_assigned ≡ false)
        × (in_entries p.id es ≡ 0)
        × (in_lines p.id g.dict_lines_to_create ≡ 0)
        × (q.purchase_line_id ≡ p.purchase_line_id))

place_of :
    (es : List Entry) (g : Groups) (next : ℕ) (created : List DraftLine) (p m q : Procurement)
    → m.id ≡ p.id
    → IsBefore es g.not_assigned p m
    → IsLinked next g.dict_lines_to_create created m q
    → IsPlaced es g next created p q
place_of es g next created p m q same before (inr on_new) = inr (inl on_new)
place_of es g next created p m q same (inl (e, i, on)) (inl (z, kept)) = inl (e, i, kept ∙ on)
place_of es g next created p m q same (inr (z0, inl off)) (inl (z, kept)) =
    inr (inr (inl (z0, kept ∙ off)))
place_of es g next created p m q same (inr (z0, inr (there_is, stays))) (inl (z, kept)) = inr (
    inr (
      inr (there_is, z0, sym (ap (λ i. in_lines i g.dict_lines_to_create) same) ∙ z, kept ∙ stays)))

pub link_procurements-places :
    (b : Buying) (es : List Entry) (g : Groups) (st : Purchases)
    → b.jobify ≡ false
    → All IsFilled g.dict_lines_to_create
    → AreKnown g.dict_lines_to_create st.procurements
    → All (λ e. mem e.line_id (map (λ l. l.id) st.lines) ≡ true) es
    → (r : Purchases) × (link_procurements b es g st ≡ Outcome.scheduled r no_jobs)
      × ((p : Procurement)
          → In p st.procurements
          → in_entries p.id es ≤ 1
          → (q : Procurement) × In q r.procurements
            × (q.id ≡ p.id)
            × IsPlaced es g st.next_line_id r.new_lines p q)
link_procurements-places b es g st off filled known lines_known =
    let lines = map (λ l. l.id) st.lines in
    let after = redistributed lines es g.not_assigned st.procurements in
    let db =
      prepare_procurements_redistribution es
        (remove_procs_from_lines g.not_assigned st.procurements) in
    let before_it : Purchases = record st {
      orders = g.orders;
      next_order_id = g.next_order_id;
      procurements = db;
    } in
    let middle : Purchases = record before_it { procurements = after } in
    let same_ids = ids-redistributed lines es g.not_assigned st.procurements in
    let (r, e, follows) =
      creates b off g.dict_lines_to_create middle filled
        (λ i h. omega (arith, known i h, ap (λ is. times i is) same_ids)) in
    (
      r,
      ap (fill_orders b g.dict_lines_to_create before_it) (redistribution_runs b off lines es db)
          ∙ e,
      λ p m once.
          let (x, i, same, before) =
            redistributed-places lines es g.not_assigned st.procurements p m once lines_known in
          let (q, j, same', linked) = follows x i in
          (q, j, same' ∙ same, place_of es g st.next_line_id r.new_lines p x q same before linked),
    )
