-- ===== src/PurchaseJit.antt =====
-- purchase_procurement_just_in_time/models/procurement.py: the purchase scheduler, which links
-- procurements to the lines of purchase orders.
--
-- `Assignment` chooses which procurements a line takes, `Grouping` which ones go together into new
-- lines. Quantities are whole numbers of the rounding of their unit, so that `float_compare`
-- compares them as they are; `_compute_qty` of openerp, which converts between units, is a
-- parameter. A dictionary is an association list in the order of insertion.
pub mod Assignment
pub mod Scheduling
pub mod Schedule
pub mod Grouping
pub mod Lines
pub mod Links
