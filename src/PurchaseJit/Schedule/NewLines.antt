-- ===== src/PurchaseJit/Schedule/NewLines.antt =====
-- purchase_procurement_just_in_time/models/procurement.py: the lines that `create_draft_lines` creates.
use odoo_addons.Base.{
  ℕ, suc, ◌≤◌, ◌≡◌, refl, ap, ◌∙◌, true, false, ◌⊎◌, Option, none, some, List, [], ◌∷◌,
  if◌then◌else◌, mem, any, ◌==◌, In, here, there, map-In, All, Bool-cases, inl, inr, arith,
}
use odoo_addons.Base.Count.{times, times-eq-zero}
use odoo_addons.PurchaseJit.Assignment.{Procurement}
use odoo_addons.PurchaseJit.Assignment.Prefix.{ids_of}
use odoo_addons.PurchaseJit.Grouping.{NewLine, is_empty}
use odoo_addons.PurchaseJit.Grouping.Conservation.{in_lines}
use odoo_addons.PurchaseJit.Grouping.Filled.{IsFilled}
use odoo_addons.PurchaseJit.Links.{write_if, add_link}
use odoo_addons.PurchaseJit.Schedule.{DraftLine, create_draft_lines}
use odoo_addons.PurchaseJit.Schedule.Splits.{ids-write_if}

mem_id :
    (i : ℕ) (ids : List ℕ) (db : List Procurement)
    → mem i ids ≡ true
    → 1 ≤ times i (ids_of db)
    → any (λ p. mem p.id ids) db ≡ true
mem_id i ids [] listed le = elim (impossible le) [ ]
  where
    impossible : 1 ≤ times i (ids_of []) → ⊥
    impossible h = omega (arith, h)
mem_id i ids (p ∷ ps) listed le = elim (Bool-cases (p.id == i)) [
  | inl t ↦
      let same : p.id ≡ i = ground arith in
      let there_is : mem p.id ids ≡ true = ap (λ x. mem x ids) same ∙ listed in rw there_is refl
  | inr t ↦ let later = mem_id i ids ps listed (ground (arith, le)) in ground (arith, later)
]

-- Each procurement of new lines is in the database.
abbrev pub AreKnown : List NewLine → List Procurement → Type 0
AreKnown ls db = (i : ℕ) → 1 ≤ in_lines i ls → 1 ≤ times i (ids_of db)

first_known :
    (l : NewLine) (ls : List NewLine) (db : List Procurement)
    → IsFilled l
    → AreKnown (l ∷ ls) db
    → any (λ p. mem p.id l.procurement_ids) db ≡ true
first_known l ls db filled known =
    split l.procurement_ids filled (λ i h. known i (omega (arith, h)))
  where
    split :
        (ids : List ℕ)
        → is_empty ids ≡ false
        → ((i : ℕ) → 1 ≤ times i ids → 1 ≤ times i (ids_of db))
        → any (λ p. mem p.id ids) db ≡ true
    split [] e known' = cc
    split (i ∷ ids) e known' = mem_id i (i ∷ ids) db (ground arith) (known' i (ground arith))

-- What the lines do to a procurement of the identifier: its link, after lines from `next` on.
abbrev pub IsLinked : ℕ → List NewLine → List DraftLine → Procurement → Procurement → Type 0
IsLinked next ls created p q =
    ((in_lines p.id ls ≡ 0) × (q.purchase_line_id ≡ p.purchase_line_id))
    ⊎ ((l : DraftLine) × In l created × (next ≤ l.id) × (q.purchase_line_id ≡ some l.id))

abbrev Follows : ℕ → List NewLine → List DraftLine → List Procurement → List Procurement → Type 0
Follows next ls created before after =
    (p : Procurement)
    → In p before
    → (q : Procurement) × In q after × (q.id ≡ p.id) × IsLinked next ls created p q

follow_line :
    (next : ℕ) (l : NewLine) (ls : List NewLine) (created : List DraftLine)
    (db after : List Procurement)
    → Follows
        (suc next)
        ls
        created
        (write_if (λ p. mem p.id l.procurement_ids) (add_link next) db)
        after
    → Follows next
        (l ∷ ls)
        (record { id = next; order_id = l.order_id; product_id = l.product_id } ∷ created)
        db
        after
follow_line next l ls created db after rest p m =
    let f : Procurement → Procurement =
      λ x. if mem x.id l.procurement_ids then add_link next x else x in
    let line : DraftLine = record { id = next; order_id = l.order_id; product_id = l.product_id } in
    elim (Bool-cases (mem p.id l.procurement_ids)) [
      | inl t ↦
          let e : f p ≡ add_link next p = rw t refl in
          let (q, place, same, linked) = rest (f p) (map-In f m) in
          (
            q,
            place,
            same ∙ ap (λ x. x.id) e,
            elim linked as (λ x. IsLinked next (l ∷ ls) (line ∷ created) p q) [
              | inl (zero_, kept) ↦
                  inr (line, here refl, omega arith, kept ∙ ap (λ x. x.purchase_line_id) e)
              | inr (x, i, le, on) ↦ inr (x, there i, omega (arith, le), on)
            ],
          )
      | inr t ↦
          let e : f p ≡ p = rw t refl in
          let z = times-eq-zero p.id l.procurement_ids t in
          let (q, place, same, linked) = rest (f p) (map-In f m) in
          (
            q,
            place,
            same ∙ ap (λ x. x.id) e,
            elim linked as (λ x. IsLinked next (l ∷ ls) (line ∷ created) p q) [
              | inl (none_, kept) ↦
                  let n : in_lines (f p).id ls ≡ in_lines p.id ls = ap (λ x. in_lines x.id ls) e in
                  inl (omega (arith, none_, n, z), kept ∙ ap (λ x. x.purchase_line_id) e)
              | inr (x, i, le, on) ↦ inr (x, there i, omega (arith, le), on)
            ],
          )
    ]

-- The lines are created, and each of their procurements is on one of them.
pub create_draft_lines-links :
    (next : ℕ) (ls : List NewLine) (db : List Procurement)
    → All IsFilled ls
    → AreKnown ls db
    → (r : List DraftLine × List Procurement) × (create_draft_lines next ls db ≡ some r)
      × Follows next ls r.0 db r.1
create_draft_lines-links next [] db filled known =
    (([], db), refl, λ p m. (p, m, refl, inl (refl, refl)))
create_draft_lines-links next (l ∷ ls) db filled known =
    let db' = write_if (λ p. mem p.id l.procurement_ids) (add_link next) db in
    let same = ids-write_if (λ p. mem p.id l.procurement_ids) (add_link next) (λ p. refl) db in
    let (r, e, rest) =
      create_draft_lines-links (suc next) ls db' filled.1
        (λ i h. omega (arith, known i (omega (arith, h)), ap (λ is. times i is) same)) in
    let line : DraftLine = record { id = next; order_id = l.order_id; product_id = l.product_id } in
    (
      (line ∷ r.0, r.1),
      rw (first_known l ls db filled.0 known) (
          ap
            (λ o. elim o as (λ x. Option (List DraftLine × List Procurement)) [
              | none ↦ none
              | some r' ↦ some (line ∷ r'.0, r'.1)
            ])
            e),
      follow_line next l ls r.0 db r.1 rest,
    )
