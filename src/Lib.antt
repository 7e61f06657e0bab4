-- ===== src/Lib.antt =====
-- Verification of the scheduling core of the add-ons: the forecast of the stock of a product, the
-- minimum stock rules that keep it between its bounds, the controller that processes the rules
-- sequence by sequence, the purchase scheduler that puts procurements on purchase lines, and the
-- check that keeps bills of materials free of cycles. Besides these, the messages that databases
-- exchange over the bus.
--
-- How the parts interact. A cron runs `update_scheduler_controller`, which pops jobs for the rules
-- of the least sequence that is not done. A job calls `process` of a rule, which reads the
-- forecast of the stock (`compute_stock_levels_requirements`), cancels procurements that
-- oversupply and creates those that lack (`create_from_need`), up to the quantity of the foresight
-- strategy. Dates that are working days away come from the calendars of locations and companies,
-- jobs that confirm, run and assign from the asynchronous scheduler. Procurements to buy go to the
-- purchase scheduler, which sorts them by supplier, assigns them to open purchase lines
-- (`compute_which_procs_for_lines`), groups the rest into new lines
-- (`group_procurements_by_orders`) and moves the links accordingly; the moves of a line follow its
-- quantity. Bills of materials are checked when they are written, received products dispatched and
-- dunnings created independently of the scheduler. A request over the bus is answered by a demand
-- for the records that it needs, or by a response; the answer to the demand replays the request.
--
-- Files:
--   Base           Boolean tests, lists, integers over the native numbers, the float tools
--   StockJit       stock_procurement_just_in_time/stock_procurement_jit.py
--     Tables       the tables that the SQL queries read
--     Levels       compute_stock_levels_requirements, get_list_events, get_last_scheduled_date
--     Orderpoint   create_from_need, get_max_allowed_qty, is_over_stock_max, is_under_stock_min and
--                  get_max_qty of procurement_foresight_strategy/procurement_foresight_strategy.py
--     Process      process, process_events_at_date, cancel_procs_just_in_time,
--                  remove_unecessary_procurements
--     Controller   StockSchedulerController, process_orderpoints, and the confirmation tests of
--                  scheduler_async/scheduler_async.py
--     Insertion    _procure_orderpoint_confirm, insert_new_controller_lines,
--                  delete_old_controller_lines
--     Cancel       check_can_be_canceled, cancel, propagate_cancel, remove_done_moves,
--                  action_cancel, delete_cancelled_moves_and_procs
--   SchedulerAsync scheduler_async/scheduler_async.py: run_confirm_moves, run_assign_moves,
--                  _do_procurements_run_or_check and the choice of moves in the job confirm_moves
--   WorkingDays    stock_working_days/stock_working_days.py
--     Days         _schedule_days
--     Week         the days of the week of schedule_working_days
--     Cache        schedule_days_get_date and its table of computed dates; the table after calls
--     Location     get_warehouse, schedule_working_days and the rules that call it
--   PurchaseJit    purchase_procurement_just_in_time/models
--     Assignment   compute_which_procs_for_lines, compute_procs_for_first_line_found and
--                  get_dict_ordered_procs_by_product of procurement.py
--     Schedule     purchase_schedule_procurements and the steps that it composes, and split of
--                  stock_procurement_split/stock_procurement_split.py
--     Scheduling   launch_purchase_schedule and launch_purchase_schedule_seller of procurement.py, and the
--                  next date of a supplier in partner.py
--     Grouping     group_procurements_by_orders, get_corresponding_draft_order,
--                  get_purchase_line_procurements and create_nb_max_draft_orders of procurement.py
--     Links        remove_procs_from_lines, add_proc_to_line, the redistribution, make_po and run of
--                  procurement.py
--     Lines        adjust_moves_qties, update_moves, write and create of a line of purchase.py, and the
--                  quantities of a line of purchase_improved/purchase_improved.py
--   BusIntegration bus_integration/models
--     Messages     create_message and the parents of a message in bus_message.py, receive_message of
--                  bus_receiver.py and the headers of the answers of bus_exporter.py
--     Binding      the bindings of bus_binder.py and bus_receive_transfer.py, run_import and
--                  check_for_dependencies of bus_importer.py
--   InvoiceDunning account_invoice_dunning/models/dunning.py: action_create_dunning and the states
--   PutawayDispatch product_putaway_dispatch/product_putaway_dispatch.py: action_dispatch, for the
--                  lines that are not in packs
--   BomRecursion   mrp_check_bom_recursion/mrp_check_bom_recursion.py
--
-- State and operations. A recordset is a list, an SQL query a filter over a list of rows, an
-- exception a value of the result, a write on records a map over the list that holds them, and the
-- queue of jobs a list. An operation is a function from the state before to the state after.
--
-- Numbers. A quantity is a whole number of a unit finer than any rounding; float_round and
-- float_compare of openerp are a record of functions with the laws of a rounding, which an
-- instance with cents shows to hold together. Dates are days and times are seconds.
--
-- Fuel. The recursion of the BoM check takes fuel for one round more than the database has lines,
-- and the theorem on `too_deep` shows that this never runs out. The loop over the levels has the
-- length of its list as fuel, and each round takes at least one item out; the loop over
-- chunks has the number of lines. `_schedule_days` counts a thousand rounds, as in the source. The
-- theorems on them hold for the result of the whole loop. The grouping of the procurements of a
-- product has as many rounds as procurements; the source has no bound, and the theorem on it says
-- under which condition that many are enough; `purchase_schedule_procurements` has an outcome for a
-- grouping that does not end.
--
-- Parameters. openerp's calendars and dateutil's weekdays, openerp's own cancellation of a
-- procurement, the conversion of units, the order of a search, and what the confirmation of
-- procurements does to the queue of the controller are arguments. So are the first purchase dates
-- of a supplier, the local records that match a received one, and whether its values change any.
--
-- Not modelled: views, reports, wizards, connections to services, and the add-ons that override a
-- single method of openerp; logging. Of purchase_procurement_just_in_time the quantities and prices
-- of new lines, the coverage states of orders and the supply chain control have no model here, of
-- bus_integration the export of records, the mapping of values and the treatment of deletions.
pub mod Base
pub mod BomRecursion
pub mod BusIntegration
pub mod InvoiceDunning
pub mod PurchaseJit
pub mod PutawayDispatch
pub mod SchedulerAsync
pub mod StockJit
pub mod WorkingDays
