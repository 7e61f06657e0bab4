-- ===== src/BusIntegration/Binding/Imports.antt =====
-- bus_integration/models: an import binds its record and unbinds none.
use odoo_addons.Base.{
  ℕ, ◌≡◌, refl, sym, ap, ◌∙◌, true, ◌&&◌, Option, none, some, List, [], ◌∷◌, ◌++◌, ◌==◌, is_some,
  if◌then◌else◌, arith, Bool-cases, inl, inr,
}
use mathlib.Core.Path.{subst}
use odoo_addons.BusIntegration.Binding.{
  Transfer, BindingStore, Received, Result, first_transfer, has_record, write_transfer, set_date,
  set_local_id, new_transfer, is_newer, write_record, import_datas,
}
use odoo_addons.BusIntegration.Binding.Bound.{
  is_bound, first_transfer-append, first_transfer-append_new, write_some, first_transfer-write,
  first_transfer-write_other, has_record-new, LeadsTo, LeadsTo-append, LeadsTo-set_local,
  LeadsTo-set_date, is_some-LeadsTo,
}

-- No key loses its record.
abbrev pub Keeps : BindingStore → BindingStore → Type 0
Keeps s s' = (model key : ℕ) → is_bound model key s ≡ true → is_bound model key s' ≡ true

pub append-Keeps :
    (s : BindingStore) (u : Transfer) → Keeps s (record s { transfers = s.transfers ++ (u ∷ []) })
append-Keeps s u model key h = split (first_transfer model key s.transfers) refl h
  where
    split :
        (o : Option Transfer)
        → first_transfer model key s.transfers ≡ o
        → LeadsTo model s.records o
        → LeadsTo model s.records (first_transfer model key (s.transfers ++ (u ∷ [])))
    split none e l = cc
    split (some t) e l =
        subst (LeadsTo model s.records) (sym (first_transfer-append model key s.transfers u t e)) l

module _ (model key : ℕ) (f : Transfer → Transfer)
    (same_model : (t : Transfer) → (f t).model ≡ t.model)
    (same_key : (t : Transfer) → (f t).external_key ≡ t.external_key) where
  -- A write on one binding, where the record of that one is still found.
  write-Keeps :
      (s : BindingStore) (records : List (ℕ × ℕ))
      → ((m k : ℕ) → is_bound m k s ≡ true → LeadsTo m records (first_transfer m k s.transfers))
      → (is_bound model key s ≡ true
          → LeadsTo model records (write_some f (first_transfer model key s.transfers)))
      → Keeps s (record s { transfers = write_transfer model key f s.transfers; records = records })
  write-Keeps s records others own m k h = elim (Bool-cases (m == model && k == key)) [
    | inl e ↦
        let em : m ≡ model = ground (arith, e) in
        let ek : k ≡ key = ground (arith, e) in
        let after : BindingStore = record s {
          transfers = write_transfer model key f s.transfers;
          records = records;
        } in
        let before : is_bound model key s ≡ true =
          ap (λ x. is_bound x key s) (sym em) ∙ ap (λ x. is_bound m x s) (sym ek) ∙ h in
        let l =
          subst (LeadsTo model records)
            (sym (first_transfer-write model key f same_model same_key s.transfers)) (own before) in
        ap (λ x. is_bound x k after) em ∙ ap (λ x. is_bound model x after) ek ∙ l
    | inr e ↦
        subst (LeadsTo m records)
          (sym (first_transfer-write_other model key f same_model same_key m k e s.transfers))
          (others m k h)
  ]

set_date-Keeps :
    (model key date : ℕ) (s : BindingStore)
    → Keeps s (record s { transfers = write_transfer model key (set_date date) s.transfers })
set_date-Keeps model key date s =
    write-Keeps model key (set_date date) (λ t. refl) (λ t. refl) s s.records (λ m k h. h)
      (λ h. LeadsTo-set_date model date s.records (first_transfer model key s.transfers) h)

-- The local record is there, if one is given.
abbrev pub Exists : ℕ → List (ℕ × ℕ) → Option ℕ → Type 0
Exists model records none = Unit
Exists model records (some id) = has_record model id records ≡ true

write_if_any :
    (r : Received) (id : ℕ) (s : BindingStore) (records : List (ℕ × ℕ))
    → has_record r.model id records ≡ true
    → ((m : ℕ) (o : Option Transfer) → LeadsTo m s.records o → LeadsTo m records o)
    → Keeps s (record s {
      transfers =
          if r.has_vals
          then write_transfer r.model r.external_key (set_local_id id) s.transfers
          else s.transfers;
      records = records;
    })
write_if_any r id s records there_is more = elim (Bool-cases r.has_vals) [
  | inl e ↦ rw e (
      write-Keeps r.model r.external_key (set_local_id id) (λ t. refl) (λ t. refl) s records
        (λ m k h. more m (first_transfer m k s.transfers) h)
        (λ h.
          LeadsTo-set_local r.model id records (first_transfer r.model r.external_key s.transfers)
            there_is
            (is_some-LeadsTo r.model s.records (first_transfer r.model r.external_key s.transfers)
              h)))
  | inr e ↦ rw e (λ m k h. more m (first_transfer m k s.transfers) h)
]

write_record-Keeps :
    (local : Option ℕ) (r : Received) (s : BindingStore)
    → Exists r.model s.records local
    → Keeps s (write_record local r s)
write_record-Keeps none r s h m k b =
    write_if_any r s.next_id s (s.records ++ ((r.model, s.next_id) ∷ []))
      (has_record-new r.model s.next_id s.records)
      (λ m' o l. LeadsTo-append m' o s.records ((r.model, s.next_id) ∷ []) l) m k b
write_record-Keeps (some id) r s h m k b = write_if_any r id s s.records h (λ m' o l. l) m k b

write_record_binds :
    (local : Option ℕ) (r : Received) (s : BindingStore)
    → Exists r.model s.records local
    → r.has_vals ≡ true
    → is_some (first_transfer r.model r.external_key s.transfers) ≡ true
    → is_bound r.model r.external_key (write_record local r s) ≡ true
write_record_binds none r s h v t =
    let records = s.records ++ ((r.model, s.next_id) ∷ []) in
    let o = first_transfer r.model r.external_key s.transfers in
    let e =
      first_transfer-write r.model r.external_key (set_local_id s.next_id) (λ t. refl) (λ t. refl)
        s.transfers in
    rw v (
      subst (LeadsTo r.model records) (sym e) (
        LeadsTo-set_local r.model s.next_id records o (has_record-new r.model s.next_id s.records)
          t))
write_record_binds (some id) r s h v t =
    let o = first_transfer r.model r.external_key s.transfers in
    let e =
      first_transfer-write r.model r.external_key (set_local_id id) (λ t. refl) (λ t. refl)
        s.transfers in
    rw v (subst (LeadsTo r.model s.records) (sym e) (LeadsTo-set_local r.model id s.records o h t))

is_some-write_some :
    (f : Transfer → Transfer) (o : Option Transfer)
    → is_some o ≡ true
    → is_some (write_some f o) ≡ true
is_some-write_some f none h = h
is_some-write_some f (some t) h = refl

-- A successful import binds, and any import keeps.
abbrev pub IsRight : Received → BindingStore → Result × BindingStore → Type 0
IsRight r s after =
    Keeps s after.1
    × (r.has_vals ≡ true
        → after.0 ≡ Result.imported
        → is_bound r.model r.external_key after.1 ≡ true)

pub import_datas-IsRight :
    (transfer : Option Transfer) (local : Option ℕ) (r : Received) (s : BindingStore)
    → Exists r.model s.records local
    → (is_some transfer ≡ true → is_some (first_transfer r.model r.external_key s.transfers) ≡ true)
    → IsRight r s (import_datas transfer local r s)
import_datas-IsRight none local r s h there_is =
    let u = new_transfer r none (some r.write_date) in
    let s1 : BindingStore = record s { transfers = s.transfers ++ (u ∷ []) } in
    (
      λ m k b. write_record-Keeps local r s1 h m k (append-Keeps s u m k b),
      λ v e.
          write_record_binds local r s1 h v
            (first_transfer-append_new r.model r.external_key s.transfers u (ground arith)),
    )
import_datas-IsRight (some t) local r s h there_is =
    elim (Bool-cases (is_newer t.origin_write_date r.write_date)) [
      | inl e ↦ rw e (λ m k b. b, λ v i. cc)
      | inr e ↦
          let s1 : BindingStore = record s {
            transfers = write_transfer r.model r.external_key (set_date r.write_date) s.transfers;
          } in
          let w =
            first_transfer-write r.model r.external_key (set_date r.write_date) (λ x. refl)
              (λ x. refl) s.transfers in
          let found =
            ap is_some w
            ∙ is_some-write_some (set_date r.write_date)
                (first_transfer r.model r.external_key s.transfers) (there_is refl) in
          rw e (
            λ m k b.
                write_record-Keeps local r s1 h m k
                  (set_date-Keeps r.model r.external_key r.write_date s m k b),
            λ v i. write_record_binds local r s1 h v found,
          )
    ]
