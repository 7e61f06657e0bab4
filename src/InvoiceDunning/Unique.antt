-- ===== src/InvoiceDunning/Unique.antt =====
-- account_invoice_dunning/models/dunning.py: one draft dunning for each partner, type and company.
use mathlib.Core.Path.{subst}
use odoo_addons.Base.{
  ℕ, suc, ◌+◌, ◌≤◌, ◌≡◌, refl, sym, ap, ◌∙◌, Bool, Option, none, some, List, [], ◌∷◌, ◌++◌, map,
  keep, mem, length, arith, Bool-cases, inl, inr,
}
use odoo_addons.InvoiceDunning.{
  DunningType, Dunning, Invoice, is_open_invoice, is_sale, is_existing_dunning,
  get_next_dunning_type, add_to_existing, prepare_invoice_dunning, Outcome, write_dunning,
  add_result, action_create_dunning,
}

abbrev pub drafts : ℕ → ℕ → ℕ → List Dunning → List Dunning
drafts partner type company db = keep (is_existing_dunning partner type company) db

-- At most one draft dunning for each partner, type and company.
abbrev pub IsUnique : List Dunning → Type 0
IsUnique db = (partner type company : ℕ) → length (drafts partner type company db) ≤ 1

add_to_existing-is_existing_dunning :
    (inv : Invoice) (t : DunningType) (partner type company : ℕ) (d : Dunning)
    → is_existing_dunning partner type company (add_to_existing inv t d)
      ≡ is_existing_dunning partner type company d
add_to_existing-is_existing_dunning inv t partner type company d =
    elim (Bool-cases (is_existing_dunning inv.partner_id t.id inv.company_id d)) [
      | inl h ↦
          rw h
            (elim (Bool-cases (mem inv.id d.invoice_ids)) [ inl m ↦ rw m refl | inr m ↦ rw m refl ])
      | inr h ↦ rw h refl
    ]

length-keep_mapped :
    (p : Dunning → Bool) (f : Dunning → Dunning)
    → ((d : Dunning) → p (f d) ≡ p d)
    → (db : List Dunning) → length (keep p (map f db)) ≡ length (keep p db)
length-keep_mapped p f same [] = refl
length-keep_mapped p f same (d ∷ db) = elim (Bool-cases (p d)) [
  | inl h ↦ let h' = same d ∙ h in rw h rw h' (ap suc (length-keep_mapped p f same db))
  | inr h ↦ let h' = same d ∙ h in rw h rw h' (length-keep_mapped p f same db)
]

keep-append :
    (p : Dunning → Bool) (xs ys : List Dunning)
    → length (keep p (xs ++ ys)) ≡ length (keep p xs) + length (keep p ys)
keep-append p [] ys = omega arith
keep-append p (x ∷ xs) ys = elim (Bool-cases (p x)) [
  | inl h ↦ rw h omega (arith, keep-append p xs ys)
  | inr h ↦ rw h omega (arith, keep-append p xs ys)
]

-- What the search finds of a key that has no draft says that a new one is the only one.
append-IsUnique :
    (next_id : ℕ) (inv : Invoice) (t : DunningType) (db : List Dunning)
    → IsUnique db
    → length (drafts inv.partner_id t.id inv.company_id db) ≡ 0
    → IsUnique (db ++ (prepare_invoice_dunning next_id inv t ∷ []))
append-IsUnique next_id inv t db unique free partner type company =
    let new = prepare_invoice_dunning next_id inv t in
    let parts = keep-append (is_existing_dunning partner type company) db (new ∷ []) in
    elim (Bool-cases (is_existing_dunning partner type company new)) [
      | inl h ↦
          let p : inv.partner_id ≡ partner = ground arith in
          let y : t.id ≡ type = ground arith in
          let c : inv.company_id ≡ company = ground arith in
          let one : length (keep (is_existing_dunning partner type company) (new ∷ [])) ≡ 1 =
            rw h refl in
          let free' : length (drafts partner type company db) ≡ 0 =
            ap (λ x. length (drafts x type company db)) (sym p)
            ∙ ap (λ x. length (drafts inv.partner_id x company db)) (sym y)
            ∙ ap (λ x. length (drafts inv.partner_id t.id x db)) (sym c)
            ∙ free in
          omega (arith, parts, one, free')
      | inr h ↦
          let none_new : length (keep (is_existing_dunning partner type company) (new ∷ [])) ≡ 0 =
            rw h refl in
          omega (arith, parts, none_new, unique partner type company)
    ]

-- What the creation promises: the dunnings stay unique, and never are there several to write on.
abbrev pub IsFine : Outcome → Type 0
IsFine (Outcome.created db ids) = IsUnique db
IsFine Outcome.not_open = Unit
IsFine Outcome.not_sale = Unit
IsFine Outcome.no_next_dunning = Unit
IsFine Outcome.several = ⊥

written-IsUnique :
    (next_id : ℕ) (inv : Invoice) (t : DunningType) (db found : List Dunning)
    → IsUnique db
    → found ≡ drafts inv.partner_id t.id inv.company_id db
    → (db' : List Dunning) × (id : ℕ) × (write_dunning next_id inv t db found ≡ some (db', id))
      × IsUnique db'
written-IsUnique next_id inv t db [] unique e = (
  db ++ (prepare_invoice_dunning next_id inv t ∷ []),
  next_id,
  refl,
  append-IsUnique next_id inv t db unique (ap length (sym e)),
)
written-IsUnique next_id inv t db (d ∷ []) unique e = (
  map (add_to_existing inv t) db,
  d.id,
  refl,
  λ partner type company.
      let same =
        length-keep_mapped (is_existing_dunning partner type company) (add_to_existing inv t)
          (add_to_existing-is_existing_dunning inv t partner type company) db in
      omega (arith, same, unique partner type company),
)
written-IsUnique next_id inv t db (d ∷ d' ∷ ds) unique e = elim (impossible (ap length e)) [ ]
  where
    impossible : suc (suc (length ds)) ≡ length (drafts inv.partner_id t.id inv.company_id db) → ⊥
    impossible h = let u = unique inv.partner_id t.id inv.company_id in omega (arith, h, u)

-- With at most one draft dunning for each partner, type and company before, the creation of dunnings
-- for any invoices never meets several of them, and where it succeeds there is again one at most.
pub action_create_dunning-IsFine :
    (types : List DunningType) (invs : List Invoice) (next_id : ℕ) (db : List Dunning)
    (result : List ℕ)
    → IsUnique db
    → IsFine (action_create_dunning types invs next_id db result)
unfolding action_create_dunning
action_create_dunning-IsFine types [] next_id db result unique = unique
action_create_dunning-IsFine types (inv ∷ invs) next_id db result unique =
    let later : (db' : List Dunning) (id : ℕ)
        → IsUnique db'
        → IsFine (action_create_dunning types invs (suc next_id) db' (add_result id result)) =
      λ db' id u.
        action_create_dunning-IsFine types invs (suc next_id) db' (add_result id result) u in
    elim (Bool-cases (is_open_invoice inv.state)) [
      | inl o ↦ elim (Bool-cases (is_sale inv.invoice_type)) [
        | inl v ↦ rw o rw v (fine later (get_next_dunning_type types db inv))
        | inr v ↦ rw o rw v tt
      ]
      | inr o ↦ rw o tt
    ]
  where
    go_on : Option (List Dunning × ℕ) → Outcome
    go_on w = elim w as (λ x. Outcome) [
      | none ↦ Outcome.several
      | some (db', id) ↦ action_create_dunning types invs (suc next_id) db' (add_result id result)
    ]

    fine :
        ((db' : List Dunning) (id : ℕ)
          → IsUnique db'
          → IsFine (action_create_dunning types invs (suc next_id) db' (add_result id result)))
        → (o : Option DunningType)
        → IsFine (elim o as (λ x. Outcome) [
          | none ↦ Outcome.no_next_dunning
          | some t ↦ go_on (elim o as (λ x. Option (List Dunning × ℕ)) [
            | none ↦ none
            | some t' ↦
                write_dunning next_id inv t' db (drafts inv.partner_id t'.id inv.company_id db)
          ])
        ])
    fine later none = tt
    fine later (some t) =
        let (db', id, e, u) =
          written-IsUnique next_id inv t db (drafts inv.partner_id t.id inv.company_id db) unique
            refl in
        subst (λ w. IsFine (go_on w)) (sym e) (later db' id u)
