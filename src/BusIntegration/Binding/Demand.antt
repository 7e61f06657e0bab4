-- ===== src/BusIntegration/Binding/Demand.antt =====
-- bus_integration/models: what a request demands, and that it demands nothing after the response.
use odoo_addons.Base.{
  ℕ, ◌≡◌, refl, sym, ap, ◌∙◌, Bool, true, false, ◌&&◌, ◌||◌, not, Option, none, some, List, [], ◌∷◌,
  ◌==◌, is_some, if◌then◌else◌, any, mem, In, here, there, All, arith, Bool-cases, inl, inr,
}
use mathlib.Core.Path.{subst}
use odoo_addons.Base.Count.{mem-append}
use odoo_addons.BusIntegration.Binding.{
  Transfer, BindingStore, Received, Dependency, Result, first_transfer, has_record, existing,
  local_id_of, get_record_by_external_key, new_transfer, is_bound_to, import_bound, bind_match,
  add_id, add_demand, check_needed_dependency, check_model, check_for_dependencies, process_binding,
  run_import, run_imports,
}
use odoo_addons.BusIntegration.Binding.Bound.{is_bound, first_transfer-append_new}
use odoo_addons.BusIntegration.Binding.Imports.{
  Keeps, Exists, IsRight, append-Keeps, import_datas-IsRight,
}

-- A demand lists a record of a model.
abbrev pub demands : ℕ → ℕ → List (ℕ × List ℕ) → Bool
demands model id demand = any (λ g. g.0 == model && mem id g.1) demand

-- No local record is found for the external key.
abbrev pub is_missing : ℕ → Option ℕ → BindingStore → Bool
is_missing model none s = true
is_missing model (some key) s = not (is_bound model key s)

-- A dependency with this identifier is needed.
abbrev pub is_needed : ℕ → ℕ → List Dependency → BindingStore → Bool
is_needed model id ds s =
    any (λ d. not d.has_transform_rule && is_missing model d.external_key s && id == d.id) ds

needed_missing :
    (d : Dependency) (model : ℕ) (s : BindingStore)
    → check_needed_dependency d model s
      ≡ (not d.has_transform_rule && is_missing model d.external_key s)
needed_missing d model s = ap (λ b. not d.has_transform_rule && b) (of_key d.external_key)
  where
    of_key :
        (o : Option ℕ)
        → not (is_some (get_record_by_external_key o model s).1) ≡ is_missing model o s
    of_key none = refl
    of_key (some k) = refl

abbrev pub needs : ℕ → ℕ → List (ℕ × List Dependency) → BindingStore → Bool
needs model id dependencies s = any (λ g. g.0 == model && is_needed g.0 id g.1 s) dependencies

mem-add_id : (i id : ℕ) (ids : List ℕ) → mem i (add_id id ids) ≡ (mem i ids || i == id)
mem-add_id i id ids = elim (Bool-cases (mem id ids)) [
  | inl e ↦ rw e (elim (Bool-cases (i == id)) [
    | inl t ↦
        let same : i ≡ id = ground (arith, t) in
        let m : mem i ids ≡ true = ap (λ x. mem x ids) same ∙ e in rw m refl
    | inr t ↦ rw t ground arith
  ])
  | inr e ↦ rw e (mem-append i ids (id ∷ []) ∙ last)
]
  where
    last : (mem i ids || mem i (id ∷ [])) ≡ (mem i ids || i == id)
    last = ground arith

demands-add_demand :
    (m i model id : ℕ) (demand : List (ℕ × List ℕ))
    → demands m i (add_demand model id demand) ≡ (demands m i demand || model == m && i == id)
demands-add_demand m i model id [] = ground arith
demands-add_demand m i model id ((g, ids) ∷ demand) = elim (Bool-cases (g == model)) [
  | inl e ↦
      let eq : g ≡ model = ground (arith, e) in
      let same : (g == m) ≡ (model == m) = ap (λ x. x == m) eq in
      rw e ground (arith, mem-add_id i id ids, same)
  | inr e ↦ rw e ground (arith, demands-add_demand m i model id demand)
]

demands-check_model :
    (m i model : ℕ) (ds : List Dependency) (s : BindingStore) (demand : List (ℕ × List ℕ))
    → demands m i (check_model model ds s demand)
      ≡ (demands m i demand || model == m && is_needed model i ds s)
demands-check_model m i model [] s demand = ground arith
demands-check_model m i model (d ∷ ds) s demand =
    elim (Bool-cases (check_needed_dependency d model s)) [
      | inl e ↦
          let rest = demands-check_model m i model ds s (add_demand model d.id demand) in
          let t : (not d.has_transform_rule && is_missing model d.external_key s) ≡ true =
            sym (needed_missing d model s) ∙ e in
          rw e ground (arith, rest, demands-add_demand m i model d.id demand, t)
      | inr e ↦
          let t : (not d.has_transform_rule && is_missing model d.external_key s) ≡ false =
            sym (needed_missing d model s) ∙ e in
          rw e ground (arith, demands-check_model m i model ds s demand, t)
    ]

-- Besides what was demanded before, the demand lists exactly the dependencies that no transform rule
-- is for and whose external key leads to no local record.
pub demands-check_for_dependencies :
    (model id : ℕ) (dependencies : List (ℕ × List Dependency)) (s : BindingStore)
    (demand : List (ℕ × List ℕ))
    → demands model id (check_for_dependencies dependencies s demand)
      ≡ (demands model id demand || needs model id dependencies s)
demands-check_for_dependencies m i [] s demand = ground arith
demands-check_for_dependencies m i ((model, ds) ∷ rest) s demand =
    let later = demands-check_for_dependencies m i rest s (check_model model ds s demand) in
    ground (arith, later, demands-check_model m i model ds s demand)

-- What a record is bound by, after `process_binding`.
abbrev IsReady :
    Received → BindingStore → Option (Option Transfer × Option ℕ × BindingStore) → Type 0
IsReady r s none = Unit
IsReady r s (some b) =
    Keeps s b.2
    × Exists r.model b.2.records b.1
    × (is_some b.0 ≡ true → is_some (first_transfer r.model r.external_key b.2.transfers) ≡ true)

existing-Exists :
    (model : ℕ) (o : Option ℕ) (records : List (ℕ × ℕ))
    → Exists model records (existing model o records)
existing-Exists model none records = tt
existing-Exists model (some id) records = elim (Bool-cases (has_record model id records)) [
  | inl e ↦ rw e e
  | inr e ↦ rw e tt
]

bind_match-IsReady :
    (ids : List ℕ) (r : Received) (s : BindingStore)
    → ((id : ℕ) → mem id ids ≡ true → has_record r.model id s.records ≡ true)
    → IsReady r s (bind_match ids r s)
bind_match-IsReady [] r s h = (λ m k b. b, tt, λ e. cc)
bind_match-IsReady (id ∷ []) r s h = elim (Bool-cases (any (is_bound_to r.model id) s.transfers)) [
  | inl e ↦ rw e tt
  | inr e ↦
      let t = new_transfer r (some id) none in
      rw e (
        append-Keeps s t,
        h id (ground arith),
        λ x. first_transfer-append_new r.model r.external_key s.transfers t (ground arith),
      )
]
bind_match-IsReady (id ∷ other ∷ ids) r s h = tt

module _ (is_importable : ℕ → Bool) (matching : Received → BindingStore → List ℕ)
    (real : (r : Received) (local : BindingStore) (id : ℕ)
      → mem id (matching r local) ≡ true
      → has_record r.model id local.records ≡ true) where
  process_binding-IsReady :
      (r : Received) (s : BindingStore) → IsReady r s (process_binding is_importable matching r s)
  process_binding-IsReady r s =
      elim (Bool-cases (is_some (first_transfer r.model r.external_key s.transfers))) [
        | inl e ↦ rw e (
          λ m k b. b,
          existing-Exists r.model (local_id_of (first_transfer r.model r.external_key s.transfers))
              s.records,
          λ x. e,
        )
        | inr e ↦ rw e (bind_match-IsReady (matching r s) r s (real r s))
      ]

  run_import-IsRight :
      (r : Received) (s : BindingStore) → IsRight r s (run_import is_importable matching r s)
  run_import-IsRight r s =
      bound_right
        (if is_importable r.model then process_binding is_importable matching r s else none)
        (elim (Bool-cases (is_importable r.model)) [
          | inl e ↦ rw e (process_binding-IsReady r s)
          | inr e ↦ rw e tt
        ])
    where
      bound_right :
          (o : Option (Option Transfer × Option ℕ × BindingStore))
          → IsReady r s o
          → IsRight r s (import_bound o r s)
      bound_right none ready = (λ m k b. b, λ v i. cc)
      bound_right (some b) ready =
          let (keeps, binds) = import_datas-IsRight b.0 b.1 r b.2 ready.1 ready.2 in
          (λ m k h. keeps m k (ready.0 m k h), binds)

  run_imports-Keeps :
      (rs : List Received) (s : BindingStore) → Keeps s (run_imports is_importable matching rs s).1
  run_imports-Keeps [] s m k b = b
  run_imports-Keeps (r ∷ rs) s m k b =
      run_imports-Keeps rs (run_import is_importable matching r s).1 m k
        ((run_import-IsRight r s).0 m k b)

  run_imports_binds :
      (rs : List Received) (s : BindingStore) {r : Received}
      → All (λ x. x ≡ Result.imported) (run_imports is_importable matching rs s).0
      → All (λ x. x.has_vals ≡ true) rs
      → In r rs
      → is_bound r.model r.external_key (run_imports is_importable matching rs s).1 ≡ true
  run_imports_binds [] s done vals m = elim m [ ]
  run_imports_binds (x ∷ rs) s {r} done vals (here q) =
      let after = (run_import is_importable matching x s).1 in
      let end = (run_imports is_importable matching rs after).1 in
      let b =
        run_imports-Keeps rs after x.model x.external_key
          ((run_import-IsRight x s).1 vals.0 done.0) in
      subst (λ y. is_bound y.model y.external_key end ≡ true) q b
  run_imports_binds (x ∷ rs) s done vals (there m) =
      run_imports_binds rs (run_import is_importable matching x s).1 done.1 vals.1 m

-- The response brings a record that is needed.
abbrev pub IsBrought : BindingStore → List Received → ℕ → Dependency → Type 0
IsBrought s rs model d =
    check_needed_dependency d model s ≡ true
    → (r : Received) × In r rs × (r.model ≡ model) × (d.external_key ≡ some r.external_key)

-- The search of local records finds those that there are. If the records of a response have values
-- and are all imported, and the response brings every dependency of a request that is needed, then
-- the request, when it is replayed, demands nothing more.
pub replay_demands_nothing :
    (is_importable : ℕ → Bool) (matching : Received → BindingStore → List ℕ)
    (dependencies : List (ℕ × List Dependency)) (rs : List Received) (s : BindingStore)
    → ((r : Received) (local : BindingStore) (id : ℕ)
        → mem id (matching r local) ≡ true
        → has_record r.model id local.records ≡ true)
    → All (λ x. x ≡ Result.imported) (run_imports is_importable matching rs s).0
    → All (λ x. x.has_vals ≡ true) rs
    → All (λ g. All (IsBrought s rs g.0) g.1) dependencies
    → check_for_dependencies dependencies (run_imports is_importable matching rs s).1 [] ≡ []
replay_demands_nothing is_importable matching dependencies rs s real done vals brought =
    models dependencies brought
  where
    after : BindingStore
    after = (run_imports is_importable matching rs s).1

    stays_bound : (m k : ℕ) → is_bound m k s ≡ true → is_bound m k after ≡ true
    stays_bound = run_imports-Keeps is_importable matching real rs s

    found_key :
        (model : ℕ) (key : Option ℕ)
        → not (is_some (get_record_by_external_key key model s).1) ≡ false
        → not (is_some (get_record_by_external_key key model after).1) ≡ false
    found_key model none h = h
    found_key model (some k) h = let b = stays_bound model k (ground (arith, h)) in rw b refl

    not_needed :
        (model : ℕ) (d : Dependency)
        → IsBrought s rs model d
        → check_needed_dependency d model after ≡ false
    not_needed model d brings = elim (Bool-cases (check_needed_dependency d model s)) [
      | inl e ↦
          let (r, m, same, key) = brings e in
          let b : is_bound r.model r.external_key after ≡ true =
            run_imports_binds is_importable matching real rs s done vals m in
          let b' : is_some (get_record_by_external_key d.external_key model after).1 ≡ true =
            ap (λ o. is_some (get_record_by_external_key o model after).1) key
            ∙ ap (λ x. is_bound x r.external_key after) (sym same)
            ∙ b in
          ground (arith, b')
      | inr e ↦ elim (Bool-cases d.has_transform_rule) [
        | inl t ↦ rw t refl
        | inr t ↦ rw t (found_key model d.external_key (rw t at e))
      ]
    ]

    in_model :
        (model : ℕ) (ds : List Dependency)
        → All (IsBrought s rs model) ds
        → check_model model ds after [] ≡ []
    in_model model [] h = refl
    in_model model (d ∷ ds) h = rw (not_needed model d h.0) (in_model model ds h.1)

    models :
        (gs : List (ℕ × List Dependency))
        → All (λ g. All (IsBrought s rs g.0) g.1) gs
        → check_for_dependencies gs after [] ≡ []
    models [] h = refl
    models ((model, ds) ∷ gs) h = rw (in_model model ds h.0) (models gs h.1)
