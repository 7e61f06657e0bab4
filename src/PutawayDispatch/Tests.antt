-- ===== src/PutawayDispatch/Tests.antt =====
-- A dispatch of twelve units over two locations that need ten.
use odoo_addons.Base.{◌≡◌, refl, List, [], ◌∷◌}
use odoo_addons.PutawayDispatch.{
  Need, Operation, total, fill, location_qty, dispatch_op, split_operation, split_operations,
}
use odoo_addons.PutawayDispatch.Conservation.{quantities, total-split_operations}

abbrev needs : List Need
needs =
    record { location_id = 1; product_qty = 4 }
    ∷ record { location_id = 2; product_qty = 5 }
    ∷ record { location_id = 1; product_qty = 1 }
    ∷ []

abbrev operation : Operation
operation = record { quantity = 12; sourceloc_id = 9; destinationloc_id = 8 }

dispatched :
    (split_operations (operation ∷ []) (location_qty 12 needs)).0 ≡ (1, 5) ∷ (2, 5) ∷ (9, 2) ∷ []
unfolding split_operations split_operation dispatch_op location_qty fill
dispatched = refl

total-split_operations_example :
    total (split_operations (operation ∷ []) ((1, 5) ∷ (2, 5) ∷ [])).0 ≡ quantities (operation ∷ [])
total-split_operations_example = total-split_operations (operation ∷ []) ((1, 5) ∷ (2, 5) ∷ [])
