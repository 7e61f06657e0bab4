-- ===== src/StockJit/Levels.antt =====
-- stock_procurement_just_in_time: `compute_stock_levels_requirements` and its queries.
-- The SQL of a query is written as a filter over the tables; `ORDER BY` and `sorted` are stable
-- insertion sorts. The parent store of the locations is taken as computed.
pub mod Sort
mod Running
pub mod Forecast
mod Tests
use odoo_addons.Base.{
  ℕ, zero, suc, ◌≡◌, Bool, true, false, not, ◌&&◌, ◌||◌, Option, none, some, List, [], ◌∷◌, ◌++◌,
  map, ltb, leb, ◌==◌, same_id, is_some, if◌then◌else◌, length, take, keep, any,
}
use odoo_addons.Base.Int.{ℤ, pos, ◌+ℤ◌, ◌-ℤ◌, ltb_ℤ, sum_ℤ}
use odoo_addons.StockJit.Tables.{
  MoveState, ProcState, Location, StockMove, Procurement, Quant, Tables, to_day,
}
use Sort.{sort_by}

pub data MoveType : Type 0 where
  existing incoming planned outgoing : MoveType

-- A dictionary of `intermediate_result`. The date `False` is `none`.
pub record Item : Type 0 where
  pub proc_id : Option ℕ
  pub location_id : ℕ
  pub move_type : MoveType
  pub date : Option ℕ
  pub move_qty : ℤ
  pub move_id : Option ℕ

-- A dictionary of `result`.
pub record Level : Type 0 where
  pub proc_id : Option ℕ
  pub product_id : ℕ
  pub location_id : ℕ
  pub move_type : MoveType
  pub date : Option ℕ
  pub qty : ℤ
  pub move_qty : ℤ
  pub move_id : Option ℕ

-- The place of a date in the order of Python 2, where `False` stands below every text.
abbrev pub rank : Option ℕ → ℕ
rank none = 0
rank (some d) = suc d

abbrev pub is_existing : MoveType → Bool
is_existing MoveType.existing = true
is_existing MoveType.incoming = false
is_existing MoveType.planned = false
is_existing MoveType.outgoing = false

-- `state NOT IN ('cancel', 'done', 'draft')`
abbrev pub is_pending : MoveState → Bool
is_pending MoveState.draft = false
is_pending MoveState.done = false
is_pending MoveState.cancel = false
is_pending MoveState.waiting = true
is_pending MoveState.confirmed = true
is_pending MoveState.assigned = true

abbrev pub is_draft : MoveState → Bool
is_draft MoveState.draft = true
is_draft MoveState.done = false
is_draft MoveState.cancel = false
is_draft MoveState.waiting = false
is_draft MoveState.confirmed = false
is_draft MoveState.assigned = false

-- `state NOT IN ('done', 'cancel')`
abbrev pub is_open_proc : ProcState → Bool
is_open_proc ProcState.done = false
is_open_proc ProcState.cancel = false
is_open_proc ProcState.confirmed = true
is_open_proc ProcState.exception = true
is_open_proc ProcState.running = true
is_open_proc ProcState.buy_to_run = true

abbrev find_procurement : List Procurement → ℕ → Option Procurement
find_procurement [] i = none
find_procurement (p ∷ ps) i = if p.id == i then some p else find_procurement ps i

-- `sl.parent_left >= left AND sl.parent_left < right` of the location with the identifier
abbrev pub lies_in : List Location → Location → ℕ → Bool
lies_in [] area i = false
lies_in (l ∷ ls) area i =
    if l.id == i
    then leb area.parent_left l.parent_left && ltb l.parent_left area.parent_right
    else lies_in ls area i

-- `date <= max_date`, where there is one
abbrev pub before_max : Option ℕ → ℕ → Bool
before_max none t = true
before_max (some m) t = leb t m

record InRow : Type 0 where
  id : ℕ
  qty : ℤ
  day : ℕ
  proc : Option ℕ

record OutRow : Type 0 where
  id : ℕ
  qty : ℤ
  day : ℕ

module _ (db : Tables) (product : ℕ) (area : Location) (max_date : Option ℕ) where
  -- `COALESCE(po.date_planned, sm.date)` behind the left join on the move's procurement
  abbrev joined : StockMove → Option Procurement
  joined m = elim m.procurement_id [ none ↦ none | some i ↦ find_procurement db.procurements i ]

  abbrev in_time : StockMove → ℕ
  in_time m = elim (joined m) [ none ↦ m.date | some p ↦ p.date_planned ]

  abbrev in_proc : StockMove → Option ℕ
  in_proc m = elim (joined m) [ none ↦ none | some p ↦ some p.id ]

  -- `get_query_move_in`
  query_moves_in : List InRow
  unfolding sort_by
  query_moves_in =
      sort_by (λ a b. leb a.day b.day)
        (map
          (λ m. record {
            id = m.id;
            qty = m.product_qty;
            day = to_day (in_time m);
            proc = in_proc m;
          })
          (keep
            (λ m.
              m.product_id == product
              && is_pending m.state
              && lies_in db.locations area m.location_dest_id
              && before_max max_date (in_time m))
            db.moves))

  -- `get_query_moves_out`
  query_moves_out : List OutRow
  unfolding sort_by
  query_moves_out =
      sort_by (λ a b. leb a.day b.day)
        (map (λ m. record { id = m.id; qty = m.product_qty; day = to_day m.date })
          (keep
            (λ m.
              m.product_id == product
              && is_pending m.state
              && lies_in db.locations area m.location_id
              && before_max max_date m.date)
            db.moves))

  abbrev moves_of : ℕ → List StockMove
  moves_of i = keep (λ m. same_id m.procurement_id (some i)) db.moves

  -- `sm.state = 'draft' OR sm.id IS NULL` for some row of the left join on the moves
  abbrev not_moving : Procurement → Bool
  not_moving p = elim (moves_of p.id) [
    | [] ↦ true
    | m ∷ ms ↦ any (λ m'. is_draft m'.state) (m ∷ ms)
  ]

  -- `get_query_procs`
  query_procs : List Procurement
  unfolding sort_by
  query_procs =
      sort_by (λ a b. leb a.date_planned b.date_planned)
        (keep
          (λ p.
            p.product_id == product
            && lies_in db.locations area p.location_id
            && is_open_proc p.state
            && not_moving p
            && before_max max_date p.date_planned)
          db.procurements)

  -- The smallest of the first days of the three queries.
  abbrev earlier : Option ℕ → Option ℕ → Option ℕ
  earlier none b = b
  earlier (some a) none = some a
  earlier (some a) (some b) = some (if leb a b then a else b)

  abbrev first_day {ℓ} : {A : Type ℓ} → (A → ℕ) → List A → Option ℕ
  first_day f [] = none
  first_day f (x ∷ xs) = some (f x)

  pub first_date : Option ℕ
  unfolding query_moves_in query_moves_out query_procs
  first_date = earlier (first_day (λ r. r.day) query_moves_in) (
      earlier (first_day (λ r. r.day) query_moves_out)
        (first_day (λ p. to_day p.date_planned) query_procs))

  pub existing_qty : ℤ
  existing_qty =
      if area.holds_stock
      then sum_ℤ (
          map (λ q. q.qty)
            (keep (λ q. q.product_id == product && lies_in db.locations area q.location_id)
              db.quants))
      else pos 0

  abbrev item : Option ℕ → MoveType → Option ℕ → ℤ → Option ℕ → Item
  item proc type day qty move = record {
    proc_id = proc;
    location_id = area.id;
    move_type = type;
    date = day;
    move_qty = qty;
    move_id = move;
  }

  -- `intermediate_result` before it is sorted
  pub intermediate_items : List Item
  unfolding existing_qty first_date
  intermediate_items =
      item none MoveType.existing first_date existing_qty none
      ∷ (map (λ (d, q). item none MoveType.incoming (some d) q none)
            (keep (λ (d, q). ltb_ℤ (pos 0) q) db.pols_in)
          ++ (map (λ r. item r.proc MoveType.incoming (some r.day) r.qty (some r.id)) query_moves_in
              ++ (map (λ r. item none MoveType.outgoing (some r.day) (pos 0 -ℤ r.qty) (some r.id))
                    query_moves_out
                  ++ map
                      (λ p.
                        item (some p.id) MoveType.planned (some (to_day p.date_planned)) p.qty none)
                      query_procs)))

abbrev pub sum_qty : List Item → ℤ
sum_qty [] = pos 0
sum_qty (i ∷ is) = i.move_qty +ℤ sum_qty is

abbrev pub same_date : Option ℕ → Item → Bool
same_date d i = rank i.date == rank d

abbrev pub other_date : Option ℕ → Item → Bool
other_date d i = not (rank i.date == rank d)

-- The row of `result` for a dictionary, when the stock stands at `qty` after its date.
abbrev pub level_row : ℕ → ℤ → Item → Level
level_row product qty i = record {
  proc_id = i.proc_id;
  product_id = product;
  location_id = i.location_id;
  move_type = i.move_type;
  date = i.date;
  qty = if is_existing i.move_type then i.move_qty else qty;
  move_qty = i.move_qty;
  move_id = i.move_id;
}

-- The `while intermediate_result` loop: each round takes the dictionaries of the first one's date
-- out of the list. Taking each of them out by `remove` leaves those of the other dates.
pub running_levels : ℕ → (MoveType → Bool) → ℕ → ℤ → List Item → List Level
running_levels zero wanted product qty items = []
running_levels (suc fuel) wanted product qty [] = []
running_levels (suc fuel) wanted product qty (x ∷ xs) =
    let stock_levels = keep (same_date x.date) (x ∷ xs) in
    let qty' = qty +ℤ sum_qty stock_levels in
    map (level_row product qty') (keep (λ i. wanted i.move_type) stock_levels)
    ++ running_levels fuel wanted product qty' (keep (other_date x.date) (x ∷ xs))

abbrev pub by_date : Bool → Level → Level → Bool
by_date false a b = leb (rank a.date) (rank b.date)
by_date true a b = leb (rank b.date) (rank a.date)

-- `if limit: result[:limit]`
abbrev pub limited {ℓ} : {A : Type ℓ} → Option ℕ → List A → List A
limited none xs = xs
limited (some zero) xs = xs
limited (some (suc n)) xs = take (suc n) xs

-- `compute_stock_levels_requirements`, sorted by date as every caller asks.
pub compute_stock_levels_requirements :
    Tables → ℕ → Location → (MoveType → Bool) → Option ℕ → Bool → Option ℕ → List Level
unfolding intermediate_items running_levels sort_by
compute_stock_levels_requirements db product area wanted limit to_reverse max_date =
    let items =
      sort_by (λ a b. leb (rank a.date) (rank b.date))
        (intermediate_items db product area max_date) in
    limited limit
      (sort_by (by_date to_reverse) (running_levels (length items) wanted product (pos 0) items))

-- `get_list_events`
pub get_list_events : Tables → ℕ → Location → List Level
unfolding compute_stock_levels_requirements sort_by
get_list_events db product area =
    sort_by (by_date false)
      (compute_stock_levels_requirements db product area (λ t. true) none false none)

-- `['in', 'out', 'existing']`
abbrev pub scheduled_type : MoveType → Bool
scheduled_type MoveType.existing = true
scheduled_type MoveType.incoming = true
scheduled_type MoveType.outgoing = true
scheduled_type MoveType.planned = false

-- `get_last_scheduled_date`
pub get_last_scheduled_date : Tables → ℕ → Location → Option ℕ
unfolding compute_stock_levels_requirements
get_last_scheduled_date db product area =
    elim (compute_stock_levels_requirements db product area scheduled_type (some 1) true none) [
      | [] ↦ none
      | l ∷ ls ↦ l.date
    ]
