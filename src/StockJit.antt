-- ===== src/StockJit.antt =====
-- stock_procurement_just_in_time/stock_procurement_jit.py: the minimum stock rules processed just
-- in time. `Tables` holds the records, `Levels` the forecast of the stock level, `Orderpoint` the
-- decisions taken along that forecast.
pub mod Tables
pub mod Levels
pub mod Orderpoint
pub mod Process
pub mod Controller
pub mod Insertion
pub mod Cancel
