-- ===== src/StockJit/Process.antt =====
-- stock_procurement_just_in_time: `process` of `StockWarehouseOrderPointJit`, which walks along the
-- events of the forecast, cancels the procurements that oversupply and creates those that lack.
--
-- Parameters: those of `Orderpoint`, and what the cancellation of a procurement that openerp
-- implements comes to (`cancels`: does the procurement end in state `cancel`). The events and the
-- last scheduled date are read once, before and after the loop, and are arguments of `process`.
mod Steps
mod Tests
use odoo_addons.Base.{
  ℕ, ◌+◌, ◌≡◌, Bool, true, false, not, ◌&&◌, ◌||◌, Option, none, some, List, [], ◌∷◌, ◌++◌, leb,
  ◌==◌, is_some, same_id, if◌then◌else◌, keep, any,
}
use odoo_addons.Base.Int.{ℤ, pos, ◌+ℤ◌, ◌-ℤ◌}
use odoo_addons.Base.Float.{FloatTools}
use odoo_addons.StockJit.Tables.{StockMove}
use odoo_addons.StockJit.Levels.{MoveType, Level}
use odoo_addons.StockJit.Orderpoint.{
  Orderpoint, Config, NewProc, seconds_of, create_from_need, is_over_stock_max, is_under_stock_min,
  quantities,
}

-- A procurement of the product at the location, as the processing sees it.
pub record StoreProc : Type 0 where
  pub id : ℕ
  pub done : Bool
  pub protected_against_scheduler : Bool
  pub date_planned : ℕ

-- The procurements that are there, and those that the processing has created.
pub record World : Type 0 where
  pub procs : List StoreProc
  pub created : List NewProc

-- The variables of the loop in `process`.
pub record Loop : Type 0 where
  pub done_dates : List (Option ℕ)
  pub events_at_date : List Level
  pub stock_after_event : ℤ
  pub world : World

abbrev pub sum_moves : List Level → ℤ
sum_moves [] = pos 0
sum_moves (l ∷ ls) = l.move_qty +ℤ sum_moves ls

-- `event['date'] in dates`
abbrev pub date_in : Option ℕ → List (Option ℕ) → Bool
date_in d [] = false
date_in d (e ∷ es) = same_id d e || date_in d es

-- `event['move_type'] in ['in', 'planned']`
abbrev pub is_supply : MoveType → Bool
is_supply MoveType.incoming = true
is_supply MoveType.planned = true
is_supply MoveType.existing = false
is_supply MoveType.outgoing = false

abbrev pub is_outgoing : MoveType → Bool
is_outgoing MoveType.outgoing = true
is_outgoing MoveType.incoming = false
is_outgoing MoveType.planned = false
is_outgoing MoveType.existing = false

-- `proc.unlink()`
abbrev pub unlink : ℕ → World → World
unlink i w = record w { procs = keep (λ p. not (p.id == i)) w.procs }

abbrev pub start : World → Loop
start w = record { done_dates = []; events_at_date = []; stock_after_event = pos 0; world = w }

-- `stock_after_event += new_proc and new_proc.product_qty or 0`
abbrev pub supplied : Option NewProc → Loop → Loop
supplied none s = s
supplied (some p) s = record s {
  stock_after_event = s.stock_after_event +ℤ p.qty;
  world = record s.world { created = s.world.created ++ (p ∷ []) };
}

module _ (tools : FloatTools) (schedule : ℕ → ℕ → ℕ) (moves : List StockMove) (config : Config)
    (cancels : ℕ → Bool) (op : Orderpoint) where
  -- `cancel_procs_just_in_time`: `ForbiddenCancelProtectedProcurement` leaves all as it was.
  pub cancel_procs_just_in_time : StoreProc → ℤ → ℤ → World → ℤ × World
  cancel_procs_just_in_time proc stock_qty qty w =
      if proc.protected_against_scheduler
      then (stock_qty, w)
      else if cancels proc.id
      then (stock_qty -ℤ qty, unlink proc.id w)
      else (stock_qty, w)

  -- `process_events_at_date`
  pub process_events_at_date : Level → List Level → ℤ → List Level × ℤ
  process_events_at_date event events stock_after_event =
      let events_at_date = keep (λ item. same_id item.date event.date) events in
      (events_at_date, stock_after_event +ℤ sum_moves events_at_date)

  -- The first statement of the loop: the events of a new date are added to the stock.
  pub enter_date : Level → List Level → Loop → Loop
  unfolding process_events_at_date
  enter_date event events s =
      if date_in event.date s.done_dates
      then s
      else let (at_date, stock) = process_events_at_date event events s.stock_after_event in
        record s {
          done_dates = s.done_dates ++ (event.date ∷ []);
          events_at_date = at_date;
          stock_after_event = stock;
        }

  -- The loop over the procurements that oversupply.
  pub cancel_oversupply : List Level → List StoreProc → ℤ → World → ℤ × World
  unfolding cancel_procs_just_in_time
  cancel_oversupply events [] stock w = (stock, w)
  cancel_oversupply events (proc ∷ procs) stock w =
      let qty_same_proc = sum_moves (keep (λ item. same_id item.proc_id (some proc.id)) events) in
      let (stock', w') = cancel_procs_just_in_time proc stock qty_same_proc w in
      cancel_oversupply events procs stock' w'

  -- `search([('id', 'in', [item['proc_id'] …]), ('state', '!=', 'done')])`
  pub procs_oversupply : List Level → World → List StoreProc
  procs_oversupply events_at_date w =
      keep (λ p. any (λ item. same_id item.proc_id (some p.id)) events_at_date && not p.done)
        w.procs

  -- A procurement for the event's need, and the stock with it.
  pub supply_need : Level → Loop → Loop
  supply_need event s =
      supplied (create_from_need tools schedule moves config op event.date s.stock_after_event) s

  pub is_oversupply : Level → Loop → Bool
  unfolding is_over_stock_max
  is_oversupply event s =
      is_over_stock_max tools schedule moves config op event.date s.stock_after_event
      && is_supply event.move_type
      && is_some event.proc_id

  pub under : ℤ → Bool
  unfolding is_under_stock_min
  under = is_under_stock_min tools schedule moves config op

  pub cancel_step : Level → List Level → Loop → Loop
  cancel_step event events s =
      let (stock, w) =
        cancel_oversupply events (procs_oversupply s.events_at_date s.world) s.stock_after_event
          s.world in
      record s { stock_after_event = stock; world = w }

  -- The rest of the loop's body.
  pub decide_event : Level → List Level → Loop → Loop
  decide_event event events s =
      if is_oversupply event s
      then (let s' = cancel_step event events s in
          if under s'.stock_after_event
            && any (λ item. is_outgoing item.move_type) s'.events_at_date
          then supply_need event s'
          else s')
      else if under s.stock_after_event
      then supply_need event s
      else s

  pub process_event : List Level → Level → Loop → Loop
  process_event events event s = decide_event event events (enter_date event events s)

  pub process_events : List Level → List Level → Loop → Loop
  process_events events [] s = s
  process_events events (e ∷ es) s = process_events events es (process_event events e s)

  -- `remove_unecessary_procurements`: the open procurements planned after the time are canceled
  -- and unlinked. That openerp refuses to unlink one that it could not cancel is left out.
  pub remove_unecessary_procurements : ℕ → World → World
  remove_unecessary_procurements timestamp w = record w {
    procs = keep (λ p. p.done || leb p.date_planned timestamp) w.procs;
  }

  -- `process`, for the events and the last scheduled date of the rule
  pub process : List Level → Option ℕ → World → Loop
  process events last_scheduled_date w =
      let s = process_events events events (start w) in
      elim last_scheduled_date [
        | none ↦ s
        | some d ↦ record s { world = remove_unecessary_procurements (seconds_of (d + 1)) s.world }
      ]

-- Opens the whole run, for the tests.
pub program : Unit {0}
unfolding quantities process process_events process_event enter_date decide_event supply_need
    create_from_need is_oversupply under cancel_step cancel_oversupply procs_oversupply
    remove_unecessary_procurements
program = tt
