-- ===== src/PutawayDispatch.antt =====
-- product_putaway_dispatch/product_putaway_dispatch.py: `action_dispatch`, for the lines of one
-- product that are not in packs. Quantities are whole numbers of the rounding of the unit, so that
-- `float_compare` and `float_round` change nothing.
mod Conservation
mod Tests
use odoo_addons.Base.{
  ℕ, zero, suc, ◌+◌, ◌-◌, ◌≡◌, Bool, true, false, not, List, [], ◌∷◌, ◌++◌, leb, ltb, ◌==◌,
  if◌then◌else◌,
}

-- A confirmed move that needs the product at a location.
pub record Need : Type 0 where
  pub location_id : ℕ
  pub product_qty : ℕ

abbrev pub least : ℕ → ℕ → ℕ
least a b = if leb a b then a else b

-- The total of a list of pairs of a location and a quantity.
abbrev pub total : List (ℕ × ℕ) → ℕ
total [] = 0
total ((l, q) ∷ rest) = q + total rest

abbrev pub needed : List Need → ℕ
needed [] = 0
needed (m ∷ ms) = m.product_qty + needed ms

-- `d[location] += qty`, for a location that may be missing.
abbrev pub add_to : ℕ → ℕ → List (ℕ × ℕ) → List (ℕ × ℕ)
add_to location qty [] = (location, qty) ∷ []
add_to location qty ((l, q) ∷ rest) =
    let more = add_to location qty rest in
    if l == location then (l, q + qty) ∷ rest else (l, q) ∷ more

-- The loop over the moves that fills `location_qty`.
pub fill : ℕ → List Need → List (ℕ × ℕ) → List (ℕ × ℕ)
fill qty_left [] location_qty = location_qty
fill qty_left (m ∷ ms) location_qty =
    let qty_to_add = least m.product_qty qty_left in
    let rest = fill (qty_left - qty_to_add) ms (add_to m.location_id qty_to_add location_qty) in
    if qty_left == 0 then location_qty else rest

-- The quantities to dispatch to each location.
pub location_qty : ℕ → List Need → List (ℕ × ℕ)
unfolding fill
location_qty qty_todo need_moves = fill (least (needed need_moves) qty_todo) need_moves []

-- What the loop over the locations leaves: the lines split from the operation (destination and
-- quantity), the quantities of the locations, and the quantity that is not dispatched.
pub record Split : Type 0 where
  pub split_ops : List (ℕ × ℕ)
  pub locations : List (ℕ × ℕ)
  pub op_qty_todo : ℕ

abbrev pub with_location : ℕ × ℕ → Split → Split
with_location l s = record s { locations = l ∷ s.locations }

pub dispatch_op : ℕ → List (ℕ × ℕ) → List (ℕ × ℕ) → Split
dispatch_op todo [] lines = record { split_ops = lines; locations = []; op_qty_todo = todo }
dispatch_op todo ((location, qty_loc) ∷ rest) lines =
    let qty = least todo qty_loc in
    let skipped = with_location (location, qty_loc) (dispatch_op todo rest lines) in
    let taken =
      with_location (location, qty_loc - qty)
        (dispatch_op (todo - qty) rest (add_to location qty lines)) in
    if todo == 0
    then record { split_ops = lines; locations = (location, qty_loc) ∷ rest; op_qty_todo = todo }
    else if qty_loc == 0
    then skipped
    else taken

-- The operation's own line goes where it has got no quantity.
abbrev pub without_empty : List (ℕ × ℕ) → List (ℕ × ℕ)
without_empty [] = []
without_empty ((l, q) ∷ lines) = if q == 0 then lines else (l, q) ∷ lines

abbrev pub sent_back : ℕ → ℕ → List (ℕ × ℕ)
sent_back source todo = if ltb 0 todo then (source, todo) ∷ [] else []

pub record Operation : Type 0 where
  pub quantity : ℕ
  pub sourceloc_id : ℕ
  pub destinationloc_id : ℕ

-- The lines of one operation, and what the locations still need.
pub split_operation : Operation → List (ℕ × ℕ) → List (ℕ × ℕ) × List (ℕ × ℕ)
unfolding dispatch_op
split_operation op locations =
    let s = dispatch_op op.quantity locations ((op.destinationloc_id, 0) ∷ []) in
    (without_empty s.split_ops ++ sent_back op.sourceloc_id s.op_qty_todo, s.locations)

-- The loop over the operations.
pub split_operations : List Operation → List (ℕ × ℕ) → List (ℕ × ℕ) × List (ℕ × ℕ)
unfolding split_operation
split_operations [] locations = ([], locations)
split_operations (op ∷ ops) locations =
    let first = split_operation op locations in
    let rest = split_operations ops first.1 in (first.0 ++ rest.0, rest.1)
