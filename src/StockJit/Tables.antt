-- ===== src/StockJit/Tables.antt =====
-- stock_procurement_just_in_time: the tables that the stock level requirements are read from.
-- Quantities are whole numbers of a unit finer than any rounding; a date and time is a number of
-- seconds and its day (`::DATE`) the number of full days.
use odoo_addons.Base.{ℕ, ◌/◌, Bool, Option, List}
use odoo_addons.Base.Int.{ℤ}

pub data MoveState : Type 0 where
  draft waiting confirmed assigned done cancel : MoveState

pub data ProcState : Type 0 where
  confirmed exception running done cancel buy_to_run : ProcState

pub record Location : Type 0 where
  pub id : ℕ
  pub parent_left : ℕ
  pub parent_right : ℕ
  -- `usage in ['internal', 'transit']`
  pub holds_stock : Bool

pub record StockMove : Type 0 where
  pub id : ℕ
  pub product_id : ℕ
  pub product_qty : ℤ
  pub date : ℕ
  pub state : MoveState
  pub location_id : ℕ
  pub location_dest_id : ℕ
  pub procurement_id : Option ℕ

pub record Procurement : Type 0 where
  pub id : ℕ
  pub product_id : ℕ
  pub qty : ℤ
  pub date_planned : ℕ
  pub state : ProcState
  pub location_id : ℕ

pub record Quant : Type 0 where
  pub product_id : ℕ
  pub qty : ℤ
  pub location_id : ℕ

-- `pols_in` holds the rows (day, quantity) of `get_query_pols_in`, which this repository leaves
-- to another module: it is empty where none provides the query.
pub record Tables : Type 0 where
  pub locations : List Location
  pub moves : List StockMove
  pub procurements : List Procurement
  pub quants : List Quant
  pub pols_in : List (ℕ × ℤ)

abbrev pub to_day : ℕ → ℕ
to_day t = t / 86400
