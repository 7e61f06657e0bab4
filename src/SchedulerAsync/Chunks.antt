-- ===== src/SchedulerAsync/Chunks.antt =====
-- scheduler_async/scheduler_async.py: chunks hold every record once, in order.
use odoo_addons.Base.{ℕ, List, [], ◌∷◌, ◌++◌}

abbrev pub joined : List (List ℕ) → List ℕ
joined [] = []
joined (c ∷ cs) = c ++ joined cs
