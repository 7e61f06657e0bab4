-- ===== src/StockJit/Orderpoint.antt =====
-- stock_procurement_just_in_time: `StockWarehouseOrderPointJit`, the quantities of a minimum stock
-- rule, with `get_max_qty` of procurement_foresight_strategy.
--
-- Parameters: the float tools, and the working days calendar of the rule's location (`schedule`).
-- Dates of events are days; a time is a number of seconds.
pub mod Cover
pub mod Allowed
pub mod Multiple
pub mod Reach
mod Tests
use odoo_addons.Base.{
  ℕ, zero, suc, ◌+◌, ◌-◌, ◌*◌, ◌%◌, ◌≡◌, Bool, true, false, not, ◌&&◌, ◌||◌, Option, none, some,
  List, [], ◌∷◌, ◌++◌, map, ltb, leb, ◌==◌, is_some, if◌then◌else◌, length, keep, any,
}
use odoo_addons.Base.Int.{
  ℤ, pos, negsuc, ◌+ℤ◌, ◌-ℤ◌, ltb_ℤ, leb_ℤ, max_ℤ, sum_ℤ, mod_ℤ, next_multiple, percent,
}
use odoo_addons.Base.Float.{FloatTools}
use odoo_addons.StockJit.Tables.{MoveState, StockMove}
use odoo_addons.StockJit.Levels.{MoveType, Level, rank}

pub data FillStrategy : Type 0 where
  max duration : FillStrategy

pub record Orderpoint : Type 0 where
  pub product_id : ℕ
  pub location_id : ℕ
  pub product_min_qty : ℤ
  pub product_max_qty_operator : ℤ
  pub fill_strategy : FillStrategy
  pub fill_duration : ℕ
  pub qty_multiple : ℕ
  -- `product_uom.rounding` and `product_id.uom_id.rounding`
  pub uom_rounding : ℕ
  pub product_rounding : ℕ

-- The system parameters that the rule reads, in percent and in quantities, and the present day.
pub record Config : Type 0 where
  pub consider_end_contract_effect : Bool
  pub relative_stock_delta : ℤ
  pub absolute_stock_delta : ℤ
  pub today : ℕ

-- What `create_from_need` asks for: a procurement of `qty`, at noon of `date` if there is one.
pub record NewProc : Type 0 where
  pub qty : ℤ
  pub date : Option ℕ

abbrev pub seconds_of : ℕ → ℕ
seconds_of d = d * 86400

-- `state in ['confirmed', 'waiting']`
abbrev is_waiting : MoveState → Bool
is_waiting MoveState.confirmed = true
is_waiting MoveState.waiting = true
is_waiting MoveState.draft = false
is_waiting MoveState.done = false
is_waiting MoveState.cancel = false
is_waiting MoveState.assigned = false

module _ (tools : FloatTools) (schedule : ℕ → ℕ → ℕ) (moves : List StockMove) (config : Config)
    (op : Orderpoint) where
  -- `get_max_qty` of procurement_foresight_strategy; `none` is a date that is not given.
  pub get_max_qty : Option ℕ → ℤ
  get_max_qty date = elim op.fill_strategy [
    | FillStrategy.max ↦ op.product_max_qty_operator
    | FillStrategy.duration ↦ elim date [
      | none ↦ pos 0
      | some t ↦ sum_ℤ (
          map (λ m. m.product_qty)
            (keep
              (λ m.
                m.product_id == op.product_id
                && m.location_id == op.location_id
                && is_waiting m.state
                && leb m.date (schedule (op.fill_duration + 1) t)
                && ltb t m.date)
              moves))
    ]
  ]

  -- The minimum on top, for a duration whose end of contract is not considered.
  abbrev pub with_min : ℤ → ℤ
  with_min qty = elim op.fill_strategy [
    | FillStrategy.max ↦ qty
    | FillStrategy.duration ↦
        if config.consider_end_contract_effect then qty else qty +ℤ op.product_min_qty
  ]

  abbrev pub has_multiple : Bool
  has_multiple = ltb tools.one op.qty_multiple

  -- The maximum that `get_max_allowed_qty` brings to a multiple. A rule looks at its maximum for
  -- the last second of the day.
  pub wanted_qty : Option ℕ → ℤ
  wanted_qty date =
      with_min (elim date [ none ↦ pos 0 | some d ↦ get_max_qty (some (seconds_of d + 86399)) ])

  pub allowed_qty : Option ℕ → ℤ
  allowed_qty date =
      if has_multiple && not (mod_ℤ (wanted_qty date) op.qty_multiple == 0)
      then next_multiple (wanted_qty date) op.qty_multiple
      else wanted_qty date

  -- `get_max_allowed_qty`
  pub get_max_allowed_qty : Option ℕ → ℤ
  get_max_allowed_qty date =
      max_ℤ (percent config.relative_stock_delta (allowed_qty date))
        (allowed_qty date +ℤ config.absolute_stock_delta)

  -- `float_compare(a, b) > 0` and `< 0`
  abbrev pub above : ℤ → ℤ → ℕ → Bool
  above a b r = ltb_ℤ (pos 0) (tools.float_compare a b r)

  abbrev pub below : ℤ → ℤ → ℕ → Bool
  below a b r = ltb_ℤ (tools.float_compare a b r) (pos 0)

  unfoldable pub is_over_stock_max : Option ℕ → ℤ → Bool
  is_over_stock_max date stock_after_event =
      above stock_after_event (get_max_allowed_qty date) op.product_rounding

  unfoldable pub is_under_stock_min : ℤ → Bool
  is_under_stock_min stock_after_event =
      below stock_after_event op.product_min_qty op.product_rounding

  -- The quantity that is missing to the maximum, before it is brought to a multiple.
  pub missing_qty : Option ℕ → ℤ → ℤ
  unfolding get_max_qty
  missing_qty date stock_after_event =
      let end_cover_date : ℕ = elim date [
        | none ↦ seconds_of (config.today + 1)
        | some d ↦ seconds_of (d + 1)
      ] in
      let product_max_qty = with_min (get_max_qty (some end_cover_date)) in
      max_ℤ (max_ℤ op.product_min_qty product_max_qty -ℤ stock_after_event) (pos 0)

  abbrev pub to_multiple : ℤ → ℤ
  to_multiple qty =
      let reste = pos (mod_ℤ qty op.qty_multiple) in
      if has_multiple && above reste (pos 0) op.uom_rounding
      then qty +ℤ (pos op.qty_multiple -ℤ reste)
      else qty

  -- `create_from_need`
  unfoldable pub create_from_need : Option ℕ → ℤ → Option NewProc
  create_from_need date stock_after_event =
      let qty =
        tools.float_round (to_multiple (missing_qty date stock_after_event)) op.uom_rounding in
      if above qty (pos 0) op.uom_rounding then some (record { qty = qty; date = date }) else none

-- Opens the quantities, for runs of the modules that use them.
unfoldable pub quantities : Unit {0}
unfolding missing_qty get_max_qty wanted_qty allowed_qty get_max_allowed_qty is_over_stock_max
    is_under_stock_min create_from_need ◌+ℤ◌ ◌-ℤ◌ max_ℤ mod_ℤ next_multiple percent
quantities = tt
