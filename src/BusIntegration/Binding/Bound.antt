-- ===== src/BusIntegration/Binding/Bound.antt =====
-- bus_integration/models: the binding of a key after a write.
use odoo_addons.Base.{
  ℕ, ◌≡◌, refl, ap, ◌∙◌, Bool, true, false, ◌&&◌, Option, none, some, List, [], ◌∷◌, ◌++◌, ◌==◌,
  is_some, if◌then◌else◌, arith, Bool-cases, inl, inr,
}
use odoo_addons.BusIntegration.Binding.{
  Transfer, BindingStore, is_for, first_transfer, has_record, existing, local_id_of,
  get_record_by_external_key, write_transfer, set_date, set_local_id,
}

-- A record is found for the external key.
abbrev pub is_bound : ℕ → ℕ → BindingStore → Bool
is_bound model key s = is_some (get_record_by_external_key (some key) model s).1

pub first_transfer-append :
    (model key : ℕ) (ts : List Transfer) (u t : Transfer)
    → first_transfer model key ts ≡ some t
    → first_transfer model key (ts ++ (u ∷ [])) ≡ some t
first_transfer-append model key [] u t h = cc
first_transfer-append model key (x ∷ ts) u t h = elim (Bool-cases (is_for model key x)) [
  | inl e ↦ rw e (rw e at h)
  | inr e ↦ rw e (first_transfer-append model key ts u t (rw e at h))
]

pub first_transfer-append_new :
    (model key : ℕ) (ts : List Transfer) (u : Transfer)
    → is_for model key u ≡ true
    → is_some (first_transfer model key (ts ++ (u ∷ []))) ≡ true
first_transfer-append_new model key [] u h = rw h refl
first_transfer-append_new model key (x ∷ ts) u h = elim (Bool-cases (is_for model key x)) [
  | inl e ↦ rw e refl
  | inr e ↦ rw e (first_transfer-append_new model key ts u h)
]

abbrev pub write_some : (Transfer → Transfer) → Option Transfer → Option Transfer
write_some f none = none
write_some f (some t) = some (f t)

module _ (model key : ℕ) (f : Transfer → Transfer)
    (same_model : (t : Transfer) → (f t).model ≡ t.model)
    (same_key : (t : Transfer) → (f t).external_key ≡ t.external_key) where
  is_for-write : (m k : ℕ) (t : Transfer) → is_for m k (f t) ≡ is_for m k t
  is_for-write m k t =
      ap (λ a. a == m && (f t).external_key == k) (same_model t)
      ∙ ap (λ b. t.model == m && b == k) (same_key t)

  pub first_transfer-write :
      (ts : List Transfer)
      → first_transfer model key (write_transfer model key f ts)
        ≡ write_some f (first_transfer model key ts)
  first_transfer-write [] = refl
  first_transfer-write (t ∷ ts) = elim (Bool-cases (is_for model key t)) [
    | inl e ↦ let e' = is_for-write model key t ∙ e in rw e rw e' refl
    | inr e ↦ rw e rw e (first_transfer-write ts)
  ]

  -- The other bindings stay.
  pub first_transfer-write_other :
      (m k : ℕ)
      → (m == model && k == key) ≡ false
      → (ts : List Transfer)
      → first_transfer m k (write_transfer model key f ts) ≡ first_transfer m k ts
  first_transfer-write_other m k other [] = refl
  first_transfer-write_other m k other (t ∷ ts) = elim (Bool-cases (is_for model key t)) [
    | inl e ↦
        let no : is_for m k t ≡ false = ground (arith, e, other) in
        let no' = is_for-write m k t ∙ no in
        rw e rw no' rw no (first_transfer-write_other m k other ts)
    | inr e ↦
        rw e
          (ap (λ r. if is_for m k t then some t else r) (first_transfer-write_other m k other ts))
  ]

has_record-append :
    (model id : ℕ) (records more : List (ℕ × ℕ))
    → has_record model id records ≡ true
    → has_record model id (records ++ more) ≡ true
has_record-append model id [] more h = cc
has_record-append model id (r ∷ records) more h = elim (Bool-cases (r.0 == model && r.1 == id)) [
  | inl e ↦ rw e refl
  | inr e ↦ rw e (has_record-append model id records more (rw e at h))
]

pub has_record-new :
    (model id : ℕ) (records : List (ℕ × ℕ))
    → has_record model id (records ++ ((model, id) ∷ [])) ≡ true
has_record-new model id [] = ground arith
has_record-new model id (r ∷ records) = elim (Bool-cases (r.0 == model && r.1 == id)) [
  | inl e ↦ rw e refl
  | inr e ↦ rw e (has_record-new model id records)
]

-- A binding leads to a local record.
abbrev pub LeadsTo : ℕ → List (ℕ × ℕ) → Option Transfer → Type 0
LeadsTo model records o = is_some (existing model (local_id_of o) records) ≡ true

pub LeadsTo-append :
    (model : ℕ) (o : Option Transfer) (records more : List (ℕ × ℕ))
    → LeadsTo model records o
    → LeadsTo model (records ++ more) o
LeadsTo-append model none records more h = h
LeadsTo-append model (some t) records more h = split t.local_id h
  where
    split :
        (i : Option ℕ)
        → is_some (existing model i records) ≡ true
        → is_some (existing model i (records ++ more)) ≡ true
    split none h' = h'
    split (some i) h' =
        let there_is : has_record model i records ≡ true = ground (arith, h') in
        let still = has_record-append model i records more there_is in rw still refl

pub LeadsTo-set_local :
    (model id : ℕ) (records : List (ℕ × ℕ)) (o : Option Transfer)
    → has_record model id records ≡ true
    → is_some o ≡ true
    → LeadsTo model records (write_some (set_local_id id) o)
LeadsTo-set_local model id records none h k = k
LeadsTo-set_local model id records (some t) h k = rw h refl

pub LeadsTo-set_date :
    (model date : ℕ) (records : List (ℕ × ℕ)) (o : Option Transfer)
    → LeadsTo model records o
    → LeadsTo model records (write_some (set_date date) o)
LeadsTo-set_date model date records none h = h
LeadsTo-set_date model date records (some t) h = h

pub is_some-LeadsTo :
    (model : ℕ) (records : List (ℕ × ℕ)) (o : Option Transfer)
    → LeadsTo model records o
    → is_some o ≡ true
is_some-LeadsTo model records none h = h
is_some-LeadsTo model records (some t) h = refl
