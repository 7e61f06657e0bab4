-- ===== src/BomRecursion/Database.antt =====
-- mrp_check_bom_recursion: the operations that run the check keep the database without cycles.
use odoo_addons.Base.{ℕ, ◌≡◌, refl, ◌∙◌, ◌⊎◌, inl, inr, some, List, In}
use odoo_addons.BomRecursion.{
  Bom, Check, passed, recursive, too_deep, check_bom, Outcome, done, failed, commit,
}
use mathlib.Core.Path.{subst}
use odoo_addons.BomRecursion.Path.{Uses, Leads, one, more, Leads-trans, IsAcyclic}
use odoo_addons.BomRecursion.Complete.{check_bom_clears}

-- Each BoM has passed the check after the change, or has no more lines than one of its product before.
abbrev pub IsChange : List Bom → List Bom → Type 0
IsChange db db' =
    (c : Bom)
    → In c db'
    → (check_bom db' c ≡ passed)
      ⊎ ((o : Bom) × In o db
          × (o.product_id ≡ c.product_id)
          × ((q : ℕ) → In q c.bom_line_ids → In q o.bom_line_ids))

module _ (db db' : List Bom) (change : IsChange db db') where
  abbrev Star : ℕ → ℕ → Type 0
  Star p q = (p ≡ q) ⊎ Leads db' p q

  -- The path passes through a line of a BoM that was checked.
  record Via (p q : ℕ) : Type 0 where
    bom : Bom
    in_db : In bom db'
    checked : check_bom db' bom ≡ passed
    owner : ℕ
    line : ℕ
    of_owner : bom.product_id ≡ some owner
    has_line : In line bom.bom_line_ids
    to_owner : Star p owner
    from_line : Star line q

  Star-Uses : {p q r : ℕ} → Star p q → Uses db' q r → Leads db' p r
  Star-Uses {r = r} (inl e) u = one (rw e u)
  Star-Uses (inr l) u = more l u

  Star-trans : {p q r : ℕ} → Star p q → Star q r → Star p r
  Star-trans (inl e) s = rw e s
  Star-trans {p} (inr l) (inl e) = inr (subst (Leads db' p) e l)
  Star-trans (inr l) (inr m) = inr (Leads-trans l m)

  -- A use by a checked BoM that a path goes to, or a use before the change.
  checked_step : {p q r : ℕ} → Star p q → Uses db' q r → Uses db q r ⊎ Via p r
  checked_step {q = q} {r} to (c, m, e, i) = elim (change c m) [
    | inl h ↦ inr (record {
      bom = c;
      in_db = m;
      checked = h;
      owner = q;
      line = r;
      of_owner = e;
      has_line = i;
      to_owner = to;
      from_line = inl refl;
    })
    | inr (o, old, same, lines) ↦ inl (o, old, same ∙ e, lines r i)
  ]

  split : {p q : ℕ} → Leads db' p q → Leads db p q ⊎ Via p q
  split (one u) = elim (checked_step (inl refl) u) [ inl old ↦ inl (one old) | inr v ↦ inr v ]
  split {p} {q} (more {q = m} l u) = elim (checked_step (inr l) u) [
    | inl old ↦ elim (split l) [
      | inl before ↦ inl (more before old)
      | inr v ↦ inr (record {
        bom = v.bom;
        in_db = v.in_db;
        checked = v.checked;
        owner = v.owner;
        line = v.line;
        of_owner = v.of_owner;
        has_line = v.has_line;
        to_owner = v.to_owner;
        from_line = Star-trans v.from_line (inr (one u));
      })
    ]
    | inr v ↦ inr v
  ]

  Via-line : {p : ℕ} → (v : Via p p) → Leads db' v.line v.line
  Via-line v =
      Star-Uses (Star-trans v.from_line v.to_owner) (v.bom, v.in_db, v.of_owner, v.has_line)

  pub IsChange-IsAcyclic : IsAcyclic db → IsAcyclic db'
  IsChange-IsAcyclic before p cycle = elim (split cycle) [
    | inl old ↦ before p old
    | inr v ↦ (check_bom_clears db' v.bom v.line v.line v.checked v.has_line).0 (Via-line v)
  ]

commit-done : (c : Check) (db db' : List Bom) → commit c db ≡ done db' → (c ≡ passed) × (db ≡ db')
commit-done passed db db' h = (refl, cc)
commit-done (recursive p) db db' h = cc
commit-done too_deep db db' h = cc

-- How a checked change of one record of the database may end: committed with no cycle left, or
-- refused because of a product that leads to itself in the changed database.
abbrev pub EndsWell : List Bom → Outcome → Type 0
EndsWell db' o =
    ((o ≡ done db') × IsAcyclic db') ⊎ ((p : ℕ) × (o ≡ failed (recursive p)) × Leads db' p p)
