-- ===== src/PurchaseJit/Schedule/Relinking.antt =====
-- purchase_procurement_just_in_time/models/procurement.py: what the steps after the grouping do to
-- the link of a procurement.
use odoo_addons.Base.{
  ℕ, zero, suc, ◌+◌, ◌≤◌, ◌≡◌, refl, sym, ap, ◌∙◌, true, false, ◌&&◌, ◌⊎◌, none, some, List, [],
  ◌∷◌, ◌++◌, map, length, ltb, if◌then◌else◌, mem, In, map-In, In-append_right, All, Bool-cases,
  inl, inr, arith,
}
use mathlib.Core.Path.{subst}
use odoo_addons.PurchaseJit.Assignment.{Procurement, Entry}
use odoo_addons.PurchaseJit.Assignment.Prefix.{ids_of}
use odoo_addons.PurchaseJit.Assignment.Conservation.{in_entries}
use odoo_addons.PurchaseJit.Grouping.{NewLine}
use odoo_addons.PurchaseJit.Grouping.Filled.{IsFilled}
use odoo_addons.PurchaseJit.Links.{
  remove_link, remove_procs_from_lines, is_to_remove, prepare_procurements_redistribution,
  redistribute_procurements_in_lines, order_keys, Launched, launch_procurement_redistribution,
}
use odoo_addons.PurchaseJit.Links.Redistribution.{
  link, link-id, prepare, prepare-id, redistribute-map,
}
use odoo_addons.PurchaseJit.Links.Listed.{link_unlisted, link-listed}
use odoo_addons.PurchaseJit.Schedule.{Purchases, Buying, Jobs, Outcome, launch_draft_lines_creation}
use odoo_addons.PurchaseJit.Schedule.Splits.{ids-write_if}
use odoo_addons.PurchaseJit.Schedule.NewLines.{AreKnown, IsLinked, create_draft_lines-links}

abbrev pub no_jobs : Jobs
no_jobs = record { redistribute = []; fill_job = none }

-- The procurements before the new lines are created.
abbrev pub redistributed : List ℕ → List Entry → List ℕ → List Procurement → List Procurement
redistributed lines es na db =
    redistribute_procurements_in_lines lines es
      (prepare_procurements_redistribution es (remove_procs_from_lines na db))

ids-map :
    (f : Procurement → Procurement)
    → ((p : Procurement) → (f p).id ≡ p.id)
    → (db : List Procurement) → ids_of (map f db) ≡ ids_of db
ids-map f same [] = refl
ids-map f same (p ∷ ps) =
    ap (λ i. i ∷ ids_of (map f ps)) (same p) ∙ ap (λ is. p.id ∷ is) (ids-map f same ps)

pub ids-redistributed :
    (lines : List ℕ) (es : List Entry) (na : List ℕ) (db : List Procurement)
    → ids_of (redistributed lines es na db) ≡ ids_of db
ids-redistributed lines es na db =
    let removed = remove_procs_from_lines na db in
    let prepared = prepare_procurements_redistribution es removed in
    ap ids_of (redistribute-map lines es prepared)
    ∙ ids-map (link lines es) (link-id lines es) prepared
    ∙ ids-write_if (is_to_remove es) remove_link (λ p. refl) removed
    ∙ ids-write_if (λ p. mem p.id na) remove_link (λ p. refl) db

abbrev off_lines : List ℕ → Procurement → Procurement
off_lines na p = if mem p.id na then remove_link p else p

off_lines-id : (na : List ℕ) (p : Procurement) → (off_lines na p).id ≡ p.id
off_lines-id na p = elim (Bool-cases (mem p.id na)) [ inl t ↦ rw t refl | inr t ↦ rw t refl ]

-- A link is taken off, or stays for a procurement that is assigned.
abbrev pub IsOff : List ℕ → Procurement → Procurement → Type 0
IsOff na p q =
    (q.purchase_line_id ≡ none)
    ⊎ ((mem p.id na ≡ false) × (q.purchase_line_id ≡ p.purchase_line_id))

prepare-IsOff :
    (es : List Entry) (na : List ℕ) (p : Procurement) → IsOff na p (prepare es (off_lines na p))
prepare-IsOff es na p = elim (Bool-cases (is_to_remove es (off_lines na p))) [
  | inl t ↦ inl (rw t refl)
  | inr t ↦
      let same : prepare es (off_lines na p) ≡ off_lines na p = rw t refl in
      elim (Bool-cases (mem p.id na)) [
        | inl u ↦
            let e : off_lines na p ≡ remove_link p = rw u refl in
            inl (ap (λ x. x.purchase_line_id) (same ∙ e))
        | inr u ↦
            let e : off_lines na p ≡ p = rw u refl in
            inr (u, ap (λ x. x.purchase_line_id) (same ∙ e))
      ]
]

abbrev pub IsBefore : List Entry → List ℕ → Procurement → Procurement → Type 0
IsBefore es na p q =
    ((e : Entry) × In e es × (q.purchase_line_id ≡ some e.line_id))
    ⊎ ((in_entries p.id es ≡ 0) × IsOff na p q)

pub redistributed-places :
    (lines : List ℕ) (es : List Entry) (na : List ℕ) (db : List Procurement) (p : Procurement)
    → In p db
    → in_entries p.id es ≤ 1
    → All (λ e. mem e.line_id lines ≡ true) es
    → (q : Procurement) × In q (redistributed lines es na db) × (q.id ≡ p.id) × IsBefore es na p q
redistributed-places lines es na db p m once known =
    let start = off_lines na p in
    let p' = prepare es start in
    let same : p'.id ≡ p.id = prepare-id es start ∙ off_lines-id na p in
    let count : in_entries p'.id es ≡ in_entries p.id es = ap (λ i. in_entries i es) same in
    let place : In (link lines es p') (redistributed lines es na db) =
      rw
        (redistribute-map lines es
          (prepare_procurements_redistribution es (remove_procs_from_lines na db)))
        (map-In (link lines es) (map-In (prepare es) (map-In (off_lines na) m))) in
    (link lines es p', place, link-id lines es p' ∙ same, split (in_entries p.id es) refl count)
  where
    split :
        (n : ℕ)
        → n ≡ in_entries p.id es
        → in_entries (prepare es (off_lines na p)).id es ≡ in_entries p.id es
        → IsBefore es na p (link lines es (prepare es (off_lines na p)))
    split zero e count =
        let alone = link_unlisted lines es (prepare es (off_lines na p)) (count ∙ sym e) in
        inr (sym e, subst (λ q. IsOff na p q) (sym alone) (prepare-IsOff es na p))
    split (suc n) e count =
        inl
          (link-listed lines es (prepare es (off_lines na p)) (omega (arith, e, count, once)) known)

module _ (b : Buying) (off : b.jobify ≡ false) where
  pub redistribution_runs :
      (lines : List ℕ) (es : List Entry) (db : List Procurement)
      → launch_procurement_redistribution lines es b.jobify b.redistribute_in_separate_jobs db
        ≡ Launched.redistributed (redistribute_procurements_in_lines lines es db)
  redistribution_runs lines es db =
      let no : (ltb 1 (length (order_keys [] es)) && b.jobify && b.redistribute_in_separate_jobs)
          ≡ false =
        rw off ground arith in
      rw no refl

  abbrev pub Creates : List NewLine → Purchases → Type 0
  Creates ls st =
      (r : Purchases) × (launch_draft_lines_creation b ls no_jobs st ≡ Outcome.scheduled r no_jobs)
      × ((p : Procurement)
          → In p st.procurements
          → (q : Procurement) × In q r.procurements
            × (q.id ≡ p.id)
            × IsLinked st.next_line_id ls r.new_lines p q)

  pub creates :
      (ls : List NewLine) (st : Purchases)
      → All IsFilled ls
      → AreKnown ls st.procurements
      → Creates ls st
  creates [] st filled known = (st, refl, λ p m. (p, m, refl, inl (refl, refl)))
  creates (l ∷ ls) st filled known =
      let (r, e, follows) =
        create_draft_lines-links st.next_line_id (l ∷ ls) st.procurements filled known in
      let no : (b.jobify && b.fill_orders_in_separate_jobs) ≡ false = rw off refl in
      let after : Purchases = record st {
        procurements = r.1;
        new_lines = st.new_lines ++ r.0;
        next_line_id = st.next_line_id + length r.0;
      } in
      (
        after,
        rw no (
            ap
              (λ o. elim o as (λ x. Outcome) [
                | none ↦ Outcome.index_error
                | some r' ↦
                    Outcome.scheduled
                      (record st {
                        procurements = r'.1;
                        new_lines = st.new_lines ++ r'.0;
                        next_line_id = st.next_line_id + length r'.0;
                      })
                      no_jobs
              ])
              e),
        λ p m.
            let (q, place, same, linked) = follows p m in
            (
              q,
              place,
              same,
              elim linked as (λ x. IsLinked st.next_line_id (l ∷ ls) after.new_lines p q) [
                | inl kept ↦ inl kept
                | inr (x, i, le, on) ↦ inr (x, In-append_right st.new_lines i, le, on)
              ],
            ),
      )
