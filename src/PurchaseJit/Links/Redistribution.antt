-- ===== src/PurchaseJit/Links/Redistribution.antt =====
-- purchase_procurement_just_in_time/models/procurement.py: the links after a redistribution.
use odoo_addons.Base.{
  ℕ, ◌≡◌, refl, sym, ap, ◌∙◌, Bool, true, false, ◌&&◌, Option, none, some, List, [], ◌∷◌, map,
  same_id, if◌then◌else◌, mem, ◌==◌, In, here, there, map-In, Bool-cases, inl, inr, arith, ◌⊎◌,
}
use odoo_addons.PurchaseJit.Assignment.{Procurement, Entry}
use odoo_addons.PurchaseJit.Links.{
  write_if, remove_link, add_link, is_to_remove, prepare_procurements_redistribution, is_to_add,
  redistribute_procurements_in_lines,
}

-- What the loops do to one procurement.
abbrev pub link : List ℕ → List Entry → Procurement → Procurement
link lines [] p = p
link lines (e ∷ es) p =
    link lines es (if mem e.line_id lines && is_to_add e p then add_link e.line_id p else p)

map-map :
    {A B C : Type 0} (f : B → C) (g : A → B) (xs : List A)
    → map f (map g xs) ≡ map (λ x. f (g x)) xs
map-map f g [] = refl
map-map f g (x ∷ xs) = ap (λ ys. f (g x) ∷ ys) (map-map f g xs)

map-id : {A : Type 0} (xs : List A) → map (λ x. x) xs ≡ xs
map-id [] = refl
map-id (x ∷ xs) = ap (λ ys. x ∷ ys) (map-id xs)

pub redistribute-map :
    (lines : List ℕ) (es : List Entry) (db : List Procurement)
    → redistribute_procurements_in_lines lines es db ≡ map (link lines es) db
redistribute-map lines [] db = sym (map-id db)
redistribute-map lines (e ∷ es) db = both (redistribute-map lines es) (mem e.line_id lines)
  where
    both :
        ((db : List Procurement)
          → redistribute_procurements_in_lines lines es db ≡ map (link lines es) db)
        → (b : Bool)
        → redistribute_procurements_in_lines lines es
            (if b then write_if (is_to_add e) (add_link e.line_id) db else db)
          ≡ map (λ p. link lines es (if b && is_to_add e p then add_link e.line_id p else p)) db
    both rest true =
        rest (write_if (is_to_add e) (add_link e.line_id) db)
        ∙ map-map (link lines es) (λ p. if is_to_add e p then add_link e.line_id p else p) db
    both rest false = rest db

pub eq_some_of : (o : Option ℕ) (k : ℕ) → same_id o (some k) ≡ true → o ≡ some k
eq_some_of none k h = cc
eq_some_of (some a) k h = ap some (ground arith)

abbrev pub link_step : List ℕ → Entry → Procurement → Procurement
link_step lines e p = if mem e.line_id lines && is_to_add e p then add_link e.line_id p else p

pub link_step-id : (lines : List ℕ) (e : Entry) (p : Procurement) → (link_step lines e p).id ≡ p.id
link_step-id lines e p = elim (Bool-cases (mem e.line_id lines && is_to_add e p)) [
  | inl t ↦ rw t refl
  | inr t ↦ rw t refl
]

pub link-id : (lines : List ℕ) (es : List Entry) (p : Procurement) → (link lines es p).id ≡ p.id
link-id lines [] p = refl
link-id lines (e ∷ es) p = link-id lines es (link_step lines e p) ∙ link_step-id lines e p

-- The entries that list a procurement are those of one line.
abbrev pub IsFor : ℕ → ℕ → List Entry → Type 0
IsFor id k es = (e : Entry) → In e es → mem id e.procurement_ids ≡ (e.line_id == k)

module _ (lines : List ℕ) (id k : ℕ) where
  linked-link_step :
      (e : Entry) (p : Procurement)
      → p.id ≡ id
      → mem id e.procurement_ids ≡ (e.line_id == k)
      → p.purchase_line_id ≡ some k
      → (link_step lines e p).purchase_line_id ≡ some k
  linked-link_step e p same h linked = elim (Bool-cases (e.line_id == k)) [
    | inl t ↦
        let eq : e.line_id ≡ k = ground arith in
        let at_line : same_id p.purchase_line_id (some e.line_id) ≡ true =
          rw linked rw eq ground arith in
        let stay : (mem e.line_id lines && is_to_add e p) ≡ false = rw at_line ground arith in
        rw stay linked
    | inr t ↦
        let absent : mem p.id e.procurement_ids ≡ false = rw same (h ∙ t) in
        let stay : (mem e.line_id lines && is_to_add e p) ≡ false = rw absent ground arith in
        rw stay linked
  ]

  link-linked :
      (es : List Entry) (p : Procurement)
      → p.id ≡ id
      → IsFor id k es
      → p.purchase_line_id ≡ some k
      → (link lines es p).purchase_line_id ≡ some k
  link-linked [] p same is_for linked = linked
  link-linked (e ∷ es) p same is_for linked =
      link-linked es (link_step lines e p) (link_step-id lines e p ∙ same)
        (λ e' i. is_for e' (there i)) (linked-link_step e p same (is_for e (here refl)) linked)

  first_link :
      (e : Entry) (p : Procurement)
      → p.id ≡ id
      → mem id e.procurement_ids ≡ (e.line_id == k)
      → e.line_id ≡ k
      → mem k lines ≡ true
      → (link_step lines e p).purchase_line_id ≡ some k
  first_link e p same h eq there_is =
      let listed : mem p.id e.procurement_ids ≡ true = rw same (h ∙ ground arith) in
      let exists_line : mem e.line_id lines ≡ true = rw eq there_is in
      elim (Bool-cases (same_id p.purchase_line_id (some e.line_id))) [
        | inl t ↦
            rw exists_line rw listed rw t (eq_some_of p.purchase_line_id e.line_id t ∙ ap some eq)
        | inr t ↦ rw exists_line rw listed rw t (ap some eq)
      ]

  link-links :
      (es : List Entry) (p : Procurement)
      → p.id ≡ id
      → IsFor id k es
      → {e : Entry} → In e es
      → e.line_id ≡ k
      → mem k lines ≡ true
      → (link lines es p).purchase_line_id ≡ some k
  link-links [] p same is_for m eq there_is = elim m [ ]
  link-links (e ∷ es) p same is_for (here q) eq there_is =
      link-linked es (link_step lines e p) (link_step-id lines e p ∙ same)
        (λ e' i. is_for e' (there i))
        (first_link e p same (is_for e (here refl)) (ap (λ x. x.line_id) q ∙ eq) there_is)
  link-links (e ∷ es) p same is_for (there m) eq there_is =
      link-links es (link_step lines e p) (link_step-id lines e p ∙ same)
        (λ e' i. is_for e' (there i)) m eq there_is

abbrev pub prepare : List Entry → Procurement → Procurement
prepare es p = if is_to_remove es p then remove_link p else p

pub prepare-id : (es : List Entry) (p : Procurement) → (prepare es p).id ≡ p.id
prepare-id es p = elim (Bool-cases (is_to_remove es p)) [ inl t ↦ rw t refl | inr t ↦ rw t refl ]

after : List ℕ → List Entry → List Procurement → List Procurement
after lines es db =
    redistribute_procurements_in_lines lines es (prepare_procurements_redistribution es db)

after-In :
    (lines : List ℕ) (es : List Entry) (db : List Procurement) {p : Procurement}
    → In p db
    → In (link lines es (prepare es p)) (after lines es db)
unfolding after
after-In lines es db m =
    rw (redistribute-map lines es (prepare_procurements_redistribution es db))
      (map-In (link lines es) (map-In (prepare es) m))

-- After the preparation and the redistribution, a procurement that the entries of one line list,
-- all of them and no others, is linked to that line, if the line is there still.
redistribute-links :
    (lines : List ℕ) (es : List Entry) (db : List Procurement) (k : ℕ) {p : Procurement} {e : Entry}
    → In p db
    → IsFor p.id k es
    → In e es
    → e.line_id ≡ k
    → mem k lines ≡ true
    → (q : Procurement) × In q
        (redistribute_procurements_in_lines lines es (prepare_procurements_redistribution es db))
      × (q.id ≡ p.id)
      × (q.purchase_line_id ≡ some k)
unfolding after
redistribute-links lines es db k {p} m is_for i eq there_is = (
  link lines es (prepare es p),
  after-In lines es db m,
  link-id lines es (prepare es p) ∙ prepare-id es p,
  link-links lines p.id k es (prepare es p) (prepare-id es p) is_for i eq there_is,
)

link_absent :
    (lines : List ℕ) (es : List Entry) (p : Procurement)
    → ((e : Entry) → In e es → mem p.id e.procurement_ids ≡ false)
    → link lines es p ≡ p
link_absent lines [] p absent = refl
link_absent lines (e ∷ es) p absent =
    let stay : (mem e.line_id lines && is_to_add e p) ≡ false =
      rw (absent e (here refl)) ground arith in
    rw stay (link_absent lines es p (λ e' i. absent e' (there i)))

kept_elsewhere :
    (es : List Entry) (p : Procurement)
    → is_to_remove es p ≡ false
    → ((e : Entry) → In e es → mem p.id e.procurement_ids ≡ false)
    → (e : Entry) → In e es
    → same_id p.purchase_line_id (some e.line_id) ≡ false
kept_elsewhere [] p h absent e m = elim m [ ]
kept_elsewhere (x ∷ es) p h absent e (here q) =
    let off : mem p.id x.procurement_ids ≡ false = absent x (here refl) in
    let no : same_id p.purchase_line_id (some x.line_id) ≡ false = ground arith in
    ap (λ y. same_id p.purchase_line_id (some y.line_id)) (sym q) ∙ no
kept_elsewhere (x ∷ es) p h absent e (there m) =
    kept_elsewhere es p (ground arith) (λ e' i. absent e' (there i)) e m

-- After the preparation and the redistribution, a procurement that no entry lists is on none of the
-- lines of the entries.
redistribute-unlinks :
    (lines : List ℕ) (es : List Entry) (db : List Procurement) {p : Procurement}
    → In p db
    → ((e : Entry) → In e es → mem p.id e.procurement_ids ≡ false)
    → (e : Entry) → In e es
    → (q : Procurement) × In q
        (redistribute_procurements_in_lines lines es (prepare_procurements_redistribution es db))
      × (q.id ≡ p.id)
      × (same_id q.purchase_line_id (some e.line_id) ≡ false)
unfolding after
redistribute-unlinks lines es db {p} m absent e i =
    let still : link lines es (prepare es p) ≡ prepare es p =
      link_absent lines es (prepare es p)
        (λ e' i'. ap (λ x. mem x e'.procurement_ids) (prepare-id es p) ∙ absent e' i') in
    (
      link lines es (prepare es p),
      after-In lines es db m,
      link-id lines es (prepare es p) ∙ prepare-id es p,
      ap (λ x. same_id x.purchase_line_id (some e.line_id)) still ∙ off_line,
    )
  where
    off_line : same_id (prepare es p).purchase_line_id (some e.line_id) ≡ false
    off_line = elim (Bool-cases (is_to_remove es p)) [
      | inl t ↦ rw t refl
      | inr t ↦ rw t (kept_elsewhere es p t absent e i)
    ]

find_line :
    (k : ℕ) (es : List Entry)
    → ((e : Entry) × In e es × (e.line_id ≡ k)) ⊎ ((e : Entry) → In e es → (e.line_id == k) ≡ false)
find_line k [] = inr (λ e m. elim m [ ])
find_line k (x ∷ es) = elim (Bool-cases (x.line_id == k)) [
  | inl t ↦ inl (x, here refl, ground arith)
  | inr t ↦ elim (find_line k es) [
    | inl (e, m, eq) ↦ inl (e, there m, eq)
    | inr others ↦ inr (λ e m. at_first t others e m)
  ]
]
  where
    at_first :
        (x.line_id == k) ≡ false
        → ((e : Entry) → In e es → (e.line_id == k) ≡ false)
        → (e : Entry) → In e (x ∷ es)
        → (e.line_id == k) ≡ false
    at_first t others e (here q) = ap (λ y. y.line_id == k) (sym q) ∙ t
    at_first t others e (there m) = others e m

-- The entries list a procurement for one line at most, the line `k`. After the preparation and the
-- redistribution the procurement is there with the same identifier, and of the lines of the entries
-- it is on the line `k` and on no other one, if the lines of the entries are there still.
pub redistribute-places :
    (lines : List ℕ) (es : List Entry) (db : List Procurement) (k : ℕ) {p : Procurement} (e : Entry)
    → In p db
    → IsFor p.id k es
    → ((x : Entry) → In x es → mem x.line_id lines ≡ true)
    → In e es
    → (q : Procurement) × In q
        (redistribute_procurements_in_lines lines es (prepare_procurements_redistribution es db))
      × (q.id ≡ p.id)
      × (same_id q.purchase_line_id (some e.line_id) ≡ (e.line_id == k))
redistribute-places lines es db k {p} e m is_for there_are i = elim (find_line k es) [
  | inl (x, j, eq) ↦
      let (q, place, same, linked) =
        redistribute-links lines es db k {p = p} {e = x} m is_for j eq
          (ap (λ n. mem n lines) (sym eq) ∙ there_are x j) in
      let turned : (k == e.line_id) ≡ (e.line_id == k) = ground arith in
      (q, place, same, ap (λ o. same_id o (some e.line_id)) linked ∙ turned)
  | inr others ↦
      let (q, place, same, off) =
        redistribute-unlinks lines es db {p = p} m (λ x j. is_for x j ∙ others x j) e i in
      (q, place, same, off ∙ sym (others e i))
]
