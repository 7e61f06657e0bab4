-- ===== src/PurchaseJit/Lines/Adjust/Running.antt =====
-- purchase_procurement_just_in_time/models/purchase.py: what runs after `adjust_moves_qties`.
use odoo_addons.Base.{
  ℕ, ◌≡◌, refl, sym, ap, ◌∙◌, Bool, true, false, none, some, List, [], ◌∷◌, ◌++◌, map,
  if◌then◌else◌, arith, ◌==◌, Bool-cases, inl, inr,
}
use odoo_addons.Base.Int.{ℤ, pos, ◌+ℤ◌, ◌-ℤ◌, ltb_ℤ, int_laws, eq_of_parts, +ℤ_parts, -ℤ_parts}
use odoo_addons.StockJit.Tables.{MoveState}
use odoo_addons.PurchaseJit.Lines.{
  OrderLine, Move, Outcome, is_over_move, is_delivery, is_return, is_running, value_if, total_qty,
  is_stocked, set_null, cancel_move, compute_remaining_qty, prepare_order_line_move,
  create_stock_moves, adjust_moves_qties, is_zero,
}
use odoo_addons.PurchaseJit.Lines.Adjust.{
  add_zero, +ℤ_cong, over_done, stocked_service, converts_zero, in_line_uom, in_line_uom-append,
  delivered, returned, running, Converts, Adjusted, total_qty-map, total_qty-map_zero,
  value_if-delivery_null, value_if-return_null, value_if-running_null, value_if-delivery_cancel,
  value_if-return_cancel, value_if-running_cancel,
}

zero_of : (q : ℤ) → is_zero q ≡ true → q ≡ pos 0
zero_of q h = eq_of_parts q (pos 0) (ground arith)

module _ (compute_qty : ℕ → ℤ → ℕ → ℤ) (price_of : OrderLine → ℕ) (confirmed_state : MoveState)
    (line : OrderLine) (stocked : is_stocked line.product_type ≡ true)
    (runs : is_over_move confirmed_state ≡ false) (laws : Converts compute_qty line) where
  abbrev new_move : ℤ → Move
  new_move q = record {
    purchase_line_id = some line.id;
    state = confirmed_state;
    product_qty = compute_qty line.product_uom q line.product_uom_id;
    origin_returned_move_id = none;
    price_unit = price_of line;
  }

  abbrev lacks : List Move → ℤ
  lacks ms =
      line.product_qty
      -ℤ delivered compute_qty line ms
      +ℤ returned compute_qty line ms
      -ℤ running compute_qty line ms

  create-shape :
      (ms : List Move)
      → create_stock_moves compute_qty price_of confirmed_state line ms
        ≡ (if is_zero (lacks ms) then [] else new_move (lacks ms) ∷ [])
  unfolding create_stock_moves prepare_order_line_move compute_remaining_qty
  create-shape ms = rw stocked refl

  self : (line.id == line.id) ≡ true
  self = ground arith

  in_uom :
      (p : Move → Bool) (q a : ℤ)
      → value_if p (new_move q) ≡ a
      → in_line_uom compute_qty line p (new_move q ∷ [])
        ≡ compute_qty line.product_uom_id a line.product_uom
  in_uom p q a h =
      ap (λ x. compute_qty line.product_uom_id x line.product_uom)
        (add_zero (value_if p (new_move q)) ∙ h)

  created : (p : Move → Bool) (ms : List Move) → ℤ
  created p ms =
      in_line_uom compute_qty line p
        (create_stock_moves compute_qty price_of confirmed_state line ms)

  created-running : (ms : List Move) → created (is_running line) ms ≡ lacks ms
  unfolding created
  created-running ms = elim (Bool-cases (is_zero (lacks ms))) [
    | inl z ↦
        rw (create-shape ms) rw z (converts_zero compute_qty line laws ∙ sym (zero_of (lacks ms) z))
    | inr z ↦
        let v : value_if (is_running line) (new_move (lacks ms))
            ≡ compute_qty line.product_uom (lacks ms) line.product_uom_id =
          rw self rw runs refl in
        rw (create-shape ms) rw z (
          in_uom (is_running line) (lacks ms)
            (compute_qty line.product_uom (lacks ms) line.product_uom_id) v
          ∙ laws.converts_back (lacks ms))
  ]

  created_none :
      (p : Move → Bool)
      → ((q : ℤ) → p (new_move q) ≡ false)
      → (ms : List Move) → created p ms ≡ pos 0
  unfolding created
  created_none p absent ms = elim (Bool-cases (is_zero (lacks ms))) [
    | inl z ↦ rw (create-shape ms) rw z (converts_zero compute_qty line laws)
    | inr z ↦
        let v : value_if p (new_move (lacks ms)) ≡ pos 0 = rw (absent (lacks ms)) refl in
        rw (create-shape ms) rw z
          (in_uom p (lacks ms) (pos 0) v ∙ converts_zero compute_qty line laws)
  ]

  absent-delivery : (q : ℤ) → is_delivery line (new_move q) ≡ false
  absent-delivery q = rw self rw (over_done confirmed_state runs) refl

  absent-return : (q : ℤ) → is_return line (new_move q) ≡ false
  absent-return q = rw self rw (over_done confirmed_state runs) refl

  abbrev final_qty : ℤ → List Move → ℤ
  final_qty target ms = target -ℤ delivered compute_qty line ms +ℤ returned compute_qty line ms

  -- Lists that deliver and return the same, of which the same quantity runs.
  record Keeps (moves ms : List Move) (k : ℤ) : Type 0 where
    keeps_running : running compute_qty line ms ≡ k
    keeps_delivered : delivered compute_qty line ms ≡ delivered compute_qty line moves
    keeps_returned : returned compute_qty line ms ≡ returned compute_qty line moves

  abbrev filled : ℤ → ℤ → List Move → List Move
  filled k final zeroed =
      if ltb_ℤ k final
      then create_stock_moves compute_qty price_of confirmed_state line zeroed
      else []

  plus_none :
      (p : Move → Bool) (old new : List Move) (a : ℤ)
      → in_line_uom compute_qty line p old ≡ a
      → in_line_uom compute_qty line p new ≡ pos 0
      → in_line_uom compute_qty line p (old ++ new) ≡ a
  plus_none p old new a h k =
      in_line_uom-append compute_qty line laws p old new ∙ +ℤ_cong h k ∙ add_zero a

  filled_none :
      (p : Move → Bool)
      → ((q : ℤ) → p (new_move q) ≡ false)
      → (k final : ℤ) (zeroed : List Move)
      → in_line_uom compute_qty line p (filled k final zeroed) ≡ pos 0
  unfolding created
  filled_none p absent k final zeroed = elim (Bool-cases (ltb_ℤ k final)) [
    | inl t ↦ rw t (created_none p absent zeroed)
    | inr t ↦ rw t (converts_zero compute_qty line laws)
  ]

  filled-running :
      (target k : ℤ) (moves old zeroed : List Move)
      → line.product_qty ≡ target
      → Keeps moves old k
      → Keeps moves zeroed k
      → ltb_ℤ (final_qty target moves) k ≡ false
      → running compute_qty line (old ++ filled k (final_qty target moves) zeroed)
        ≡ final_qty target moves
  unfolding created
  filled-running target k moves old zeroed qty o z le =
      elim (Bool-cases (ltb_ℤ k (final_qty target moves))) [
        | inl t ↦ rw t (
            in_line_uom-append compute_qty line laws (is_running line) old
              (create_stock_moves compute_qty price_of confirmed_state line zeroed)
            ∙ +ℤ_cong o.keeps_running (created-running zeroed ∙ same_lack)
            ∙ back k (final_qty target moves))
        | inr t ↦ rw t (
            plus_none (is_running line) old [] k o.keeps_running
              (converts_zero compute_qty line laws)
            ∙ eq_of_parts k (final_qty target moves) (ground arith))
      ]
    where
      same_lack : lacks zeroed ≡ final_qty target moves -ℤ k
      same_lack = rw qty rw z.keeps_running rw z.keeps_delivered rw z.keeps_returned refl

      back : (a b : ℤ) → a +ℤ (b -ℤ a) ≡ b
      back a b = omega int_laws

  filled-Adjusted :
      (target k : ℤ) (moves old zeroed : List Move)
      → line.product_qty ≡ target
      → Keeps moves old k
      → Keeps moves zeroed k
      → ltb_ℤ (final_qty target moves) k ≡ false
      → Adjusted compute_qty line target moves
          (Outcome.updated (old ++ filled k (final_qty target moves) zeroed))
  filled-Adjusted target k moves old zeroed qty o z le =
      let final = final_qty target moves in
      (
        filled-running target k moves old zeroed qty o z le,
        plus_none (is_delivery line) old (filled k final zeroed) (delivered compute_qty line moves)
            o.keeps_delivered (filled_none (is_delivery line) absent-delivery k final zeroed),
        plus_none (is_return line) old (filled k final zeroed) (returned compute_qty line moves)
            o.keeps_returned (filled_none (is_return line) absent-return k final zeroed),
      )

  in_uom_same :
      (p : Move → Bool) (xs ys : List Move)
      → total_qty p xs ≡ total_qty p ys
      → in_line_uom compute_qty line p xs ≡ in_line_uom compute_qty line p ys
  in_uom_same p xs ys h = ap (λ x. compute_qty line.product_uom_id x line.product_uom) h

  null-Keeps : (moves : List Move) → Keeps moves (map (set_null line) moves) (pos 0)
  null-Keeps moves = record {
    keeps_running =
        ap (λ x. compute_qty line.product_uom_id x line.product_uom)
          (total_qty-map_zero (is_running line) (set_null line) (value_if-running_null line) moves)
        ∙ converts_zero compute_qty line laws;
    keeps_delivered =
        in_uom_same (is_delivery line) (map (set_null line) moves) moves
          (total_qty-map (is_delivery line) (set_null line) (value_if-delivery_null line) moves);
    keeps_returned =
        in_uom_same (is_return line) (map (set_null line) moves) moves
          (total_qty-map (is_return line) (set_null line) (value_if-return_null line) moves);
  }

  cancel-Keeps :
      (moves ms : List Move)
      → Keeps moves ms (pos 0)
      → Keeps moves (map (cancel_move line) ms) (pos 0)
  cancel-Keeps moves ms h = record {
    keeps_running =
        ap (λ x. compute_qty line.product_uom_id x line.product_uom)
          (total_qty-map_zero (is_running line) (cancel_move line) (value_if-running_cancel line)
            ms)
        ∙ converts_zero compute_qty line laws;
    keeps_delivered =
        in_uom_same (is_delivery line) (map (cancel_move line) ms) ms
          (total_qty-map (is_delivery line) (cancel_move line) (value_if-delivery_cancel line) ms)
        ∙ h.keeps_delivered;
    keeps_returned =
        in_uom_same (is_return line) (map (cancel_move line) ms) ms
          (total_qty-map (is_return line) (cancel_move line) (value_if-return_cancel line) ms)
        ∙ h.keeps_returned;
  }

  -- The moves of a line of goods on which the new quantity is written, in the unit that the line
  -- has: either the quantity is below what was delivered and not returned, and that is the error, or
  -- what runs afterwards is the quantity less what was delivered and more what was returned, and
  -- these two are as before. The units convert without loss, and a new move is neither done nor
  -- cancelled.
  pub adjust_moves_qties-Adjusted :
      (target : ℤ) (moves : List Move)
      → line.product_qty ≡ target
      → Adjusted compute_qty line target moves
          (adjust_moves_qties compute_qty price_of confirmed_state line target none moves)
  unfolding adjust_moves_qties compute_remaining_qty
  adjust_moves_qties-Adjusted target moves qty =
      rw stocked rw (stocked_service line line.product_type stocked)
        elim (Bool-cases
          (ltb_ℤ target (delivered compute_qty line moves -ℤ returned compute_qty line moves))) [
            | inl under ↦ rw under (ground arith, refl)
            | inr enough ↦
                elim (Bool-cases
                  (ltb_ℤ (final_qty target moves) (running compute_qty line moves))) [
                    | inl over ↦ rw enough rw over (
                        filled-Adjusted target (pos 0) moves
                          (map (cancel_move line) (map (set_null line) moves))
                          (map (set_null line) moves) qty
                          (cancel-Keeps moves (map (set_null line) moves) (null-Keeps moves))
                          (null-Keeps moves)
                          (not_below target (delivered compute_qty line moves)
                            (returned compute_qty line moves) enough))
                    | inr fits ↦ rw enough rw fits (
                        filled-Adjusted target (running compute_qty line moves) moves moves moves
                          qty unchanged unchanged fits)
                  ]
          ]
    where
      unchanged : Keeps moves moves (running compute_qty line moves)
      unchanged = record { keeps_running = refl; keeps_delivered = refl; keeps_returned = refl }

      not_below : (t d r : ℤ) → ltb_ℤ t (d -ℤ r) ≡ false → ltb_ℤ (t -ℤ d +ℤ r) (pos 0) ≡ false
      not_below t d r h = ground (arith, -ℤ_parts d r, -ℤ_parts t d, +ℤ_parts (t -ℤ d) r)
