-- ===== src/BusIntegration/Binding/Tests.antt =====
-- A request needs a record that is not bound; of two others, one is bound and one has a rule.
use odoo_addons.Base.{ℕ, ◌≡◌, refl, Bool, true, false, ◌||◌, none, some, List, [], ◌∷◌, mem, here}
use odoo_addons.BusIntegration.Binding.{
  Transfer, BindingStore, Received, Dependency, Result, has_record, check_for_dependencies,
  run_imports, import_datas,
}
use odoo_addons.BusIntegration.Binding.Demand.{
  demands, needs, demands-check_for_dependencies, replay_demands_nothing,
}

abbrev bound_transfer : Transfer
bound_transfer = record {
  model = 1;
  external_key = 70;
  local_id = some 3;
  origin_write_date = some 9;
}

abbrev store : BindingStore
store = record { transfers = bound_transfer ∷ []; records = (1, 3) ∷ []; next_id = 20 }

abbrev dependencies : List (ℕ × List Dependency)
dependencies =
    (
      1,
      record { id = 5; external_key = some 50; has_transform_rule = false }
          ∷ record { id = 6; external_key = none; has_transform_rule = true }
          ∷ record { id = 7; external_key = some 70; has_transform_rule = false }
          ∷ [],
    )
    ∷ []

abbrev response : List Received
response = record { model = 1; external_key = 50; write_date = 4; has_vals = true } ∷ []

demanded : check_for_dependencies dependencies store [] ≡ (1, 5 ∷ []) ∷ []
demanded = refl

abbrev no_match : Received → BindingStore → List ℕ
no_match r local = []

abbrev every_model : ℕ → Bool
every_model model = true

imported_record : run_imports every_model no_match response store ≡ (
  Result.imported ∷ [],
  record {
    transfers =
        bound_transfer
        ∷ record { model = 1; external_key = 50; local_id = some 20; origin_write_date = some 4 }
        ∷ [];
    records = (1, 3) ∷ (1, 20) ∷ [];
    next_id = 21;
  },
)
imported_record = refl

-- Older data are rejected.
older :
    import_datas
      (some bound_transfer)
      (some 3)
      (record { model = 1; external_key = 70; write_date = 8; has_vals = true })
      store
    ≡ (Result.rejected, store)
older = refl

none_real :
    (r : Received) (local : BindingStore) (id : ℕ)
    → mem id (no_match r local) ≡ true
    → has_record r.model id local.records ≡ true
none_real r local id h = cc

demands-check_for_dependencies_example :
    demands 1 7 (check_for_dependencies dependencies store ((1, 7 ∷ []) ∷ []))
    ≡ (demands 1 7 ((1, 7 ∷ []) ∷ []) || needs 1 7 dependencies store)
demands-check_for_dependencies_example =
    demands-check_for_dependencies 1 7 dependencies store ((1, 7 ∷ []) ∷ [])

replay_demands_nothing_example :
    check_for_dependencies dependencies (run_imports every_model no_match response store).1 [] ≡ []
replay_demands_nothing_example =
    replay_demands_nothing every_model no_match dependencies response store none_real (refl, tt)
      (refl, tt)
      (
        (
          (λ h. (
            record { model = 1; external_key = 50; write_date = 4; has_vals = true },
            here refl,
            refl,
            refl,
          )),
          ((λ h. cc), ((λ h. cc), tt)),
        ),
        tt,
      )
