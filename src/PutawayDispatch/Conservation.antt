-- ===== src/PutawayDispatch/Conservation.antt =====
-- product_putaway_dispatch/product_putaway_dispatch.py: a dispatch neither makes nor loses quantities.
use odoo_addons.Base.{
  ℕ, ◌+◌, ◌-◌, ◌≤◌, ◌≡◌, refl, List, [], ◌∷◌, ◌++◌, ◌==◌, arith, Bool-cases, inl, inr,
}
use odoo_addons.PutawayDispatch.{
  Need, least, total, needed, add_to, fill, location_qty, Split, dispatch_op, without_empty,
  sent_back, Operation, split_operation, split_operations,
}

total-add_to :
    (location qty : ℕ) (xs : List (ℕ × ℕ)) → total (add_to location qty xs) ≡ total xs + qty
total-add_to location qty [] = omega arith
total-add_to location qty ((l, q) ∷ rest) = elim (Bool-cases (l == location)) [
  | inl t ↦ rw t (omega arith)
  | inr t ↦ rw t (omega (arith, total-add_to location qty rest))
]

total-fill :
    (left : ℕ) (ms : List Need) (xs : List (ℕ × ℕ))
    → total (fill left ms xs) ≡ total xs + least (needed ms) left
unfolding fill
total-fill left [] xs = ground arith
total-fill left (m ∷ ms) xs =
    let q = least m.product_qty left in
    let rest = total-fill (left - q) ms (add_to m.location_id q xs) in
    let added = total-add_to m.location_id q xs in ground arith

-- The locations get as much together as the moves need, or all that there is to dispatch where
-- that is less.
pub total-location_qty :
    (qty_todo : ℕ) (ms : List Need) → total (location_qty qty_todo ms) ≡ least (needed ms) qty_todo
unfolding location_qty
total-location_qty qty_todo ms =
    let h = total-fill (least (needed ms) qty_todo) ms [] in ground arith

record Kept (todo : ℕ) (locations lines : List (ℕ × ℕ)) (s : Split) : Type 0 where
  quantity : total s.split_ops + s.op_qty_todo ≡ total lines + todo
  wanted : total s.locations + total s.split_ops ≡ total locations + total lines

dispatch_op-Kept :
    (todo : ℕ) (locations lines : List (ℕ × ℕ))
    → Kept todo locations lines (dispatch_op todo locations lines)
unfolding dispatch_op
dispatch_op-Kept todo [] lines = record { quantity = refl; wanted = refl }
dispatch_op-Kept todo ((l, q) ∷ rest) lines = elim (Bool-cases (todo == 0)) [
  | inl t ↦ rw t (record { quantity = refl; wanted = refl })
  | inr t ↦ elim (Bool-cases (q == 0)) [
    | inl e ↦
        let h = dispatch_op-Kept todo rest lines in
        rw t (rw e (record { quantity = h.quantity; wanted = omega (arith, h.wanted) }))
    | inr e ↦
        let h = dispatch_op-Kept (todo - least todo q) rest (add_to l (least todo q) lines) in
        let a = total-add_to l (least todo q) lines in
        let le : least todo q ≤ todo = ground arith in
        let le' : least todo q ≤ q = ground arith in
        rw t (
          rw e (record {
            quantity = omega (arith, h.quantity, a, le);
            wanted = omega (arith, h.wanted, a, le, le');
          }))
  ]
]

total-append : (xs ys : List (ℕ × ℕ)) → total (xs ++ ys) ≡ total xs + total ys
total-append [] ys = omega arith
total-append ((l, q) ∷ xs) ys = omega (arith, total-append xs ys)

total-without_empty : (xs : List (ℕ × ℕ)) → total (without_empty xs) ≡ total xs
total-without_empty [] = refl
total-without_empty ((l, q) ∷ xs) = ground arith

total-sent_back : (l q : ℕ) → total (sent_back l q) ≡ q
total-sent_back l q = ground arith

total-split_operation :
    (op : Operation) (locations : List (ℕ × ℕ))
    → total (split_operation op locations).0 ≡ op.quantity
unfolding split_operation
total-split_operation op locations =
    let s = dispatch_op op.quantity locations ((op.destinationloc_id, 0) ∷ []) in
    let h = (dispatch_op-Kept op.quantity locations ((op.destinationloc_id, 0) ∷ [])).quantity in
    omega (
      arith,
      total-append (without_empty s.split_ops) (sent_back op.sourceloc_id s.op_qty_todo),
      total-without_empty s.split_ops,
      total-sent_back op.sourceloc_id s.op_qty_todo,
      h,
    )

abbrev pub quantities : List Operation → ℕ
quantities [] = 0
quantities (op ∷ ops) = op.quantity + quantities ops

-- The lines that a dispatch leaves hold the quantities of the operations, no more and no less.
pub total-split_operations :
    (ops : List Operation) (locations : List (ℕ × ℕ))
    → total (split_operations ops locations).0 ≡ quantities ops
unfolding split_operations
total-split_operations [] locations = refl
total-split_operations (op ∷ ops) locations = omega (
  arith,
  total-append (split_operation op locations).0
      (split_operations ops (split_operation op locations).1).0,
  total-split_operation op locations,
  total-split_operations ops (split_operation op locations).1,
)
