-- ===== src/BusIntegration/Binding.antt =====
-- bus_integration/models: the bindings of received records in bus_binder.py and
-- bus_receive_transfer.py, and the import of records with their dependencies in bus_importer.py.
--
-- A model and a date are numbers. Which models are configured, which local records match a received
-- one by its xml identifier or its fields, and whether the values of a record change something are
-- parameters. Translations, the mapping of values and logs are left out.
pub mod Bound
pub mod Imports
pub mod Demand
mod Tests
use odoo_addons.Base.{
  ℕ, suc, Bool, true, false, ◌&&◌, not, Option, none, some, List, [], ◌∷◌, ◌++◌, map, ltb, ◌==◌,
  same_id, is_some, if◌then◌else◌, any, mem,
}

-- `bus.receive.transfer`
pub record Transfer : Type 0 where
  pub model : ℕ
  pub external_key : ℕ
  pub local_id : Option ℕ
  pub origin_write_date : Option ℕ

-- The bindings and the local records by model and identifier.
pub record BindingStore : Type 0 where
  pub transfers : List Transfer
  pub records : List (ℕ × ℕ)
  pub next_id : ℕ

-- A record of a message; `has_vals` says whether the values that it is written with are any.
pub record Received : Type 0 where
  pub model : ℕ
  pub external_key : ℕ
  pub write_date : ℕ
  pub has_vals : Bool

-- A record that is listed as a dependency.
pub record Dependency : Type 0 where
  pub id : ℕ
  pub external_key : Option ℕ
  pub has_transform_rule : Bool

-- A failed import is logged as an error, a rejected one as information.
pub data Result : Type 0 where
  failed rejected imported : Result

abbrev pub is_for : ℕ → ℕ → Transfer → Bool
is_for model key t = t.model == model && t.external_key == key

abbrev pub first_transfer : ℕ → ℕ → List Transfer → Option Transfer
first_transfer model key [] = none
first_transfer model key (t ∷ ts) =
    let rest = first_transfer model key ts in if is_for model key t then some t else rest

-- `_get_transfer`
abbrev pub get_transfer : Option ℕ → ℕ → BindingStore → Option Transfer
get_transfer none model s = none
get_transfer (some key) model s = first_transfer model key s.transfers

abbrev pub has_record : ℕ → ℕ → List (ℕ × ℕ) → Bool
has_record model id records = any (λ r. r.0 == model && r.1 == id) records

abbrev pub existing : ℕ → Option ℕ → List (ℕ × ℕ) → Option ℕ
existing model none records = none
existing model (some id) records = if has_record model id records then some id else none

abbrev pub local_id_of : Option Transfer → Option ℕ
local_id_of none = none
local_id_of (some t) = t.local_id

-- `get_record_by_external_key`
abbrev pub get_record_by_external_key : Option ℕ → ℕ → BindingStore → Option Transfer × Option ℕ
get_record_by_external_key key model s =
    let transfer = get_transfer key model s in
    (transfer, existing model (local_id_of transfer) s.records)

abbrev pub write_transfer : ℕ → ℕ → (Transfer → Transfer) → List Transfer → List Transfer
write_transfer model key f ts = map (λ t. if is_for model key t then f t else t) ts

abbrev pub set_date : ℕ → Transfer → Transfer
set_date date t = record t { origin_write_date = some date }

abbrev pub set_local_id : ℕ → Transfer → Transfer
set_local_id id t = record t { local_id = some id }

abbrev pub new_transfer : Received → Option ℕ → Option ℕ → Transfer
new_transfer r local date = record {
  model = r.model;
  external_key = r.external_key;
  local_id = local;
  origin_write_date = date;
}

abbrev pub is_newer : Option ℕ → ℕ → Bool
is_newer none date = false
is_newer (some d) date = ltb date d

-- The record is created or written, and the binding gets its identifier.
abbrev pub write_record : Option ℕ → Received → BindingStore → BindingStore
write_record none r s = record s {
  transfers =
      if r.has_vals
      then write_transfer r.model r.external_key (set_local_id s.next_id) s.transfers
      else s.transfers;
  records = s.records ++ ((r.model, s.next_id) ∷ []);
  next_id = suc s.next_id;
}
write_record (some id) r s = record s {
  transfers =
      if r.has_vals
      then write_transfer r.model r.external_key (set_local_id id) s.transfers
      else s.transfers;
}

-- `import_datas`
abbrev pub import_datas :
    Option Transfer → Option ℕ → Received → BindingStore → Result × BindingStore
import_datas none local r s = (
  imported,
  write_record local r
      (record s { transfers = s.transfers ++ (new_transfer r none (some r.write_date) ∷ []) }),
)
import_datas (some t) local r s =
    if is_newer t.origin_write_date r.write_date then (rejected, s) else (
      imported,
      write_record local r (record s {
        transfers = write_transfer r.model r.external_key (set_date r.write_date) s.transfers;
      }),
    )

abbrev pub is_bound_to : ℕ → ℕ → Transfer → Bool
is_bound_to model id t = t.model == model && same_id t.local_id (some id)

-- The end of `process_binding`, for the local records that match: the binding, the record and the
-- store, or an error.
abbrev pub bind_match :
    List ℕ → Received → BindingStore → Option (Option Transfer × Option ℕ × BindingStore)
bind_match [] r s = some (none, none, s)
bind_match (id ∷ []) r s =
    let t = new_transfer r (some id) none in
    if any (is_bound_to r.model id) s.transfers
    then none
    else some (some t, some id, record s { transfers = s.transfers ++ (t ∷ []) })
bind_match (id ∷ other ∷ ids) r s = none

abbrev pub add_id : ℕ → List ℕ → List ℕ
add_id id ids = if mem id ids then ids else ids ++ (id ∷ [])

abbrev pub add_demand : ℕ → ℕ → List (ℕ × List ℕ) → List (ℕ × List ℕ)
add_demand model id [] = (model, id ∷ []) ∷ []
add_demand model id ((m, ids) ∷ demand) =
    let rest = add_demand model id demand in
    if m == model then (m, add_id id ids) ∷ demand else (m, ids) ∷ rest

-- `check_needed_dependency`
abbrev pub check_needed_dependency : Dependency → ℕ → BindingStore → Bool
check_needed_dependency d model s =
    not d.has_transform_rule && not (is_some (get_record_by_external_key d.external_key model s).1)

abbrev pub check_model : ℕ → List Dependency → BindingStore → List (ℕ × List ℕ) → List (ℕ × List ℕ)
check_model model [] s demand = demand
check_model model (d ∷ ds) s demand =
    check_model model ds s
      (if check_needed_dependency d model s then add_demand model d.id demand else demand)

-- `check_for_dependencies`
abbrev pub check_for_dependencies :
    List (ℕ × List Dependency) → BindingStore → List (ℕ × List ℕ) → List (ℕ × List ℕ)
check_for_dependencies [] s demand = demand
check_for_dependencies ((model, ds) ∷ dependencies) s demand =
    check_for_dependencies dependencies s (check_model model ds s demand)

-- What follows `process_binding`, unless there was an error.
abbrev pub import_bound :
    Option (Option Transfer × Option ℕ × BindingStore)
    → Received
    → BindingStore
    → Result × BindingStore
import_bound none r s = (failed, s)
import_bound (some b) r s = import_datas b.0 b.1 r b.2

module _ (is_importable : ℕ → Bool) (matching : Received → BindingStore → List ℕ) where
  -- `process_binding`
  abbrev pub process_binding :
      Received → BindingStore → Option (Option Transfer × Option ℕ × BindingStore)
  process_binding r s =
      let found = get_record_by_external_key (some r.external_key) r.model s in
      if is_some found.0 then some (found.0, found.1, s) else bind_match (matching r s) r s

  -- `run_import`
  abbrev pub run_import : Received → BindingStore → Result × BindingStore
  run_import r s = import_bound (if is_importable r.model then process_binding r s else none) r s

  -- The records of a message without demand, in the order in which they are imported.
  abbrev pub run_imports : List Received → BindingStore → List Result × BindingStore
  run_imports [] s = ([], s)
  run_imports (r ∷ rs) s =
      let first = run_import r s in let rest = run_imports rs first.1 in (first.0 ∷ rest.0, rest.1)
