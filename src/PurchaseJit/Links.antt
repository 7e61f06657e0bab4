-- ===== src/PurchaseJit/Links.antt =====
-- purchase_procurement_just_in_time/models/procurement.py: how procurements get on purchase lines
-- and off them.
--
-- The state is the list of the procurements. The other methods of openerp that `run` extends and the
-- supplier of a product are parameters. `Redistribution` follows one procurement through the loops.
pub mod Redistribution
pub mod Listed
mod Tests
use odoo_addons.Base.{
  ℕ, Bool, true, false, not, ◌&&◌, Option, none, some, List, [], ◌∷◌, ◌++◌, map, same_id, is_some,
  if◌then◌else◌, keep, mem, any, ltb, length, ◌==◌,
}
use odoo_addons.StockJit.Tables.{ProcState}
use odoo_addons.PurchaseJit.Assignment.{Procurement, Entry}

abbrev pub is_reset : ProcState → Bool
is_reset ProcState.running = true
is_reset ProcState.exception = true
is_reset ProcState.done = false
is_reset ProcState.cancel = false
is_reset ProcState.confirmed = false
is_reset ProcState.buy_to_run = false

abbrev pub is_exception : ProcState → Bool
is_exception ProcState.exception = true
is_exception ProcState.running = false
is_exception ProcState.done = false
is_exception ProcState.cancel = false
is_exception ProcState.confirmed = false
is_exception ProcState.buy_to_run = false

abbrev is_running_state : ProcState → Bool
is_running_state ProcState.running = true
is_running_state ProcState.exception = false
is_running_state ProcState.done = false
is_running_state ProcState.cancel = false
is_running_state ProcState.confirmed = false
is_running_state ProcState.buy_to_run = false

-- A write on the procurements that meet a test.
abbrev pub write_if :
    (Procurement → Bool) → (Procurement → Procurement) → List Procurement → List Procurement
write_if p f db = map (λ x. if p x then f x else x) db

abbrev pub remove_link : Procurement → Procurement
remove_link p = record p {
  purchase_line_id = none;
  state = if is_reset p.state then ProcState.buy_to_run else p.state;
}

abbrev pub remove_procs_from_lines : List ℕ → List Procurement → List Procurement
remove_procs_from_lines ids db = write_if (λ p. mem p.id ids) remove_link db

abbrev pub add_link : ℕ → Procurement → Procurement
add_link pol p = record (remove_link p) { purchase_line_id = some pol; state = ProcState.running }

-- The procurements of the line of an entry that the entry does not list.
abbrev pub is_unlisted : Procurement → Entry → Bool
is_unlisted p e = same_id p.purchase_line_id (some e.line_id) && not (mem p.id e.procurement_ids)

abbrev pub is_to_remove : List Entry → Procurement → Bool
is_to_remove dict_procs_lines p = any (is_unlisted p) dict_procs_lines

abbrev pub prepare_procurements_redistribution : List Entry → List Procurement → List Procurement
prepare_procurements_redistribution dict_procs_lines db =
    write_if (is_to_remove dict_procs_lines) remove_link db

abbrev pub is_to_add : Entry → Procurement → Bool
is_to_add e p = mem p.id e.procurement_ids && not (same_id p.purchase_line_id (some e.line_id))

-- `lines` are the lines that are there still.
abbrev pub redistribute_procurements_in_lines :
    List ℕ → List Entry → List Procurement → List Procurement
redistribute_procurements_in_lines lines [] db = db
redistribute_procurements_in_lines lines (e ∷ es) db =
    redistribute_procurements_in_lines lines es
      (if mem e.line_id lines then write_if (is_to_add e) (add_link e.line_id) db else db)

abbrev pub add_key : ℕ → List ℕ → List ℕ
add_key k keys = if mem k keys then keys else keys ++ (k ∷ [])

-- `dict_procs_lines.keys()`
abbrev pub order_keys : List ℕ → List Entry → List ℕ
order_keys keys [] = keys
order_keys keys (e ∷ es) = order_keys (add_key e.order_id keys) es

abbrev pub entries_of : List Entry → ℕ → List Entry
entries_of dict_procs_lines order_id = keep (λ e. e.order_id == order_id) dict_procs_lines

-- `launch_procurement_redistribution`: the arguments of the jobs, in their order, or the
-- procurements after the redistribution.
pub data Launched : Type 0 where
  jobs : List (List Entry) → Launched
  redistributed : List Procurement → Launched

abbrev pub launch_procurement_redistribution :
    List ℕ → List Entry → Bool → Bool → List Procurement → Launched
launch_procurement_redistribution lines dict_procs_lines jobify separate_jobs db =
    let keys = order_keys [] dict_procs_lines in
    if ltb 1 (length keys) && jobify && separate_jobs
    then Launched.jobs (map (entries_of dict_procs_lines) keys)
    else Launched.redistributed (redistribute_procurements_in_lines lines dict_procs_lines db)

abbrev pub set_exception_for_procs : List ℕ → List Procurement → List Procurement
set_exception_for_procs ids db =
    write_if (λ p. mem p.id ids && not (is_exception p.state))
      (λ p. record p { state = ProcState.exception }) db

-- `make_po`, of the procurements with these identifiers.
abbrev pub make_po :
    (ℕ → Option ℕ) → List Procurement → List Procurement → List (ℕ × Bool) × List Procurement
make_po supplier_of [] db = ([], db)
make_po supplier_of (p ∷ ps) db =
    let has_supplier = is_some (supplier_of p.product_id) in
    let rest =
      make_po supplier_of ps
        (if has_supplier then db else set_exception_for_procs (p.id ∷ []) db) in
    ((p.id, has_supplier) ∷ rest.0, rest.1)

-- `run`, after that of openerp, of procurements with a rule that buys.
abbrev pub run_buy :
    (List Procurement → List Procurement)
    → (Procurement → Bool)
    → List ℕ
    → List Procurement
    → List Procurement
run_buy super_run is_buy ids db =
    write_if
      (λ p.
        mem p.id ids && is_buy p && is_running_state p.state && not (is_some p.purchase_line_id))
      (λ p. record p { state = ProcState.buy_to_run }) (super_run db)
