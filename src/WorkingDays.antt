-- ===== src/WorkingDays.antt =====
-- stock_working_days/stock_working_days.py: dates that are a number of working days away.
--
-- Children: `Days`, the walk along the days of a calendar; `Week`, the days of the week that a
-- rule allows; `Cache`, the table of the dates that have been computed before; `Location`, the
-- dates of a location and the procurement and push rules that ask for them. A date is a number of
-- days in `Days` and `Week`, and a number of seconds elsewhere.
mod Days
mod Week
mod Cache
mod Location
mod Tests
