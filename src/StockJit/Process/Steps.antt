-- ===== src/StockJit/Process/Steps.antt =====
-- stock_procurement_just_in_time: what one event of `process` does to the stock.
use odoo_addons.Base.{
  ℕ, ◌≡◌, refl, inl, inr, ◌⊎◌, Bool, true, false, some, List, [], ◌∷◌, ◌++◌, any, keep, All,
  Bool-cases, arith, same_id,
}
use odoo_addons.Base.Int.{ℤ, pos}
use odoo_addons.Base.Float.{FloatTools}
use odoo_addons.StockJit.Tables.{StockMove}
use odoo_addons.StockJit.Levels.{Level}
use odoo_addons.StockJit.Orderpoint.{Orderpoint, Config}
use odoo_addons.StockJit.Orderpoint.Cover.{Grid, create_from_need-Covers}
use odoo_addons.StockJit.Process.{
  StoreProc, World, Loop, start, sum_moves, is_outgoing, cancel_procs_just_in_time, enter_date,
  cancel_oversupply, procs_oversupply, supply_need, is_oversupply, under, cancel_step, decide_event,
  process_event, process_events,
}

module _ (tools : FloatTools) (schedule : ℕ → ℕ → ℕ) (moves : List StockMove) (config : Config)
    (cancels : ℕ → Bool) (op : Orderpoint) where
  abbrev R : ℤ → Type 0
  R a = Grid tools op.product_rounding a

  -- The quantities that the rule and the events are given in are rounded.
  pub record IsRounded (events : List Level) : Type 0 where
    pub same : op.uom_rounding ≡ op.product_rounding
    pub min : R op.product_min_qty
    pub zero : R (pos 0)
    pub quantities : All (λ (l : Level). R l.move_qty) events

  sum_moves-R :
      (events : List Level)
      → R (pos 0)
      → All (λ (l : Level). R l.move_qty) events
      → R (sum_moves events)
  sum_moves-R [] z h = z
  sum_moves-R (l ∷ ls) z h =
      tools.round_add l.move_qty (sum_moves ls) op.product_rounding h.0 (sum_moves-R ls z h.1)

  keep-R :
      (p : Level → Bool) (events : List Level)
      → All (λ (l : Level). R l.move_qty) events
      → All (λ (l : Level). R l.move_qty) (keep p events)
  keep-R p [] h = tt
  keep-R p (l ∷ ls) h = ground (arith, keep-R p ls h.1)

  enter_date-R :
      (event : Level) (events : List Level) (s : Loop)
      → IsRounded events
      → R s.stock_after_event
      → R (enter_date tools schedule moves config cancels op event events s).stock_after_event
  unfolding enter_date
  enter_date-R event events s h g =
      let at = keep (λ item. same_id item.date event.date) events in
      let g' = tools.round_add s.stock_after_event (sum_moves at) op.product_rounding g (
        sum_moves-R at h.zero
          (keep-R (λ item. same_id item.date event.date) events h.quantities)) in
      ground (arith, g')

  cancel-R :
      (events : List Level) (procs : List StoreProc) (stock : ℤ) (w : World)
      → IsRounded events
      → R stock
      → R (cancel_oversupply tools schedule moves config cancels op events procs stock w).0
  unfolding cancel_oversupply
  cancel-R events [] stock w h g = g
  cancel-R events (p ∷ ps) stock w h g =
      let qty = sum_moves (keep (λ item. same_id item.proc_id (some p.id)) events) in
      let gq =
        sum_moves-R (keep (λ item. same_id item.proc_id (some p.id)) events) h.zero
          (keep-R (λ item. same_id item.proc_id (some p.id)) events h.quantities) in
      let (stock', w') =
        cancel_procs_just_in_time tools schedule moves config cancels op p stock qty w in
      let g' : R stock' = ground (arith, tools.round_sub stock qty op.product_rounding g gq) in
      cancel-R events ps stock' w' h g'

  -- What supplying a need at a stock below the minimum leaves.
  supply_need-covers :
      (event : Level) (events : List Level) (s : Loop)
      → IsRounded events
      → R s.stock_after_event
      → under tools schedule moves config cancels op s.stock_after_event ≡ true
      → let s' = supply_need tools schedule moves config cancels op event s in
        R s'.stock_after_event
        × (under tools schedule moves config cancels op s'.stock_after_event ≡ false)
  unfolding supply_need under
  supply_need-covers event events s h g u =
      let (p, e, g', up, ok) =
        create_from_need-Covers tools schedule moves config op event.date s.stock_after_event h.same
          g h.min u in
      rw e (g', ok)

  abbrev pub has_out : Loop → Bool
  has_out s = any (λ item. is_outgoing item.move_type) s.events_at_date

  -- The stock is rounded and no longer below the minimum.
  abbrev pub IsCovered : Loop → Type 0
  IsCovered s =
      R s.stock_after_event
      × (under tools schedule moves config cancels op s.stock_after_event ≡ false)

  decide-R :
      (event : Level) (events : List Level) (s : Loop)
      → IsRounded events
      → R s.stock_after_event
      → R (decide_event tools schedule moves config cancels op event events s).stock_after_event
  unfolding decide_event cancel_step
  decide-R event events s h g =
      elim (Bool-cases (is_oversupply tools schedule moves config cancels op event s)) [
        | inl o ↦
            let s' = cancel_step tools schedule moves config cancels op event events s in
            let g' : R s'.stock_after_event =
              cancel-R events
                (procs_oversupply tools schedule moves config cancels op s.events_at_date s.world)
                s.stock_after_event s.world h g in
            elim (Bool-cases (under tools schedule moves config cancels op s'.stock_after_event)) [
              | inl u ↦ elim (Bool-cases (has_out s)) [
                | inl out ↦ rw (o, u, out) (supply_need-covers event events s' h g' u).0
                | inr out ↦ rw (o, u, out) g'
              ]
              | inr u ↦ rw (o, u) g'
            ]
        | inr o ↦
            elim (Bool-cases (under tools schedule moves config cancels op s.stock_after_event)) [
              | inl u ↦ rw (o, u) ((supply_need-covers event events s h g u).0)
              | inr u ↦ rw (o, u) g
            ]
      ]

  decide_no_oversupply :
      (event : Level) (events : List Level) (s : Loop)
      → IsRounded events
      → R s.stock_after_event
      → is_oversupply tools schedule moves config cancels op event s ≡ false
      → under tools schedule moves config cancels op
          (decide_event tools schedule moves config cancels op event events s).stock_after_event
        ≡ false
  unfolding decide_event
  decide_no_oversupply event events s h g o =
      elim (Bool-cases (under tools schedule moves config cancels op s.stock_after_event)) [
        | inl u ↦ rw (o, u) (supply_need-covers event events s h g u).1
        | inr u ↦ rw (o, u) u
      ]

  decide_delivery :
      (event : Level) (events : List Level) (s : Loop)
      → IsRounded events
      → R s.stock_after_event
      → is_oversupply tools schedule moves config cancels op event s ≡ true
      → has_out s ≡ true
      → under tools schedule moves config cancels op
          (decide_event tools schedule moves config cancels op event events s).stock_after_event
        ≡ false
  unfolding decide_event cancel_step
  decide_delivery event events s h g o out =
      let s' = cancel_step tools schedule moves config cancels op event events s in
      let g' : R s'.stock_after_event =
        cancel-R events
          (procs_oversupply tools schedule moves config cancels op s.events_at_date s.world)
          s.stock_after_event s.world h g in
      elim (Bool-cases (under tools schedule moves config cancels op s'.stock_after_event)) [
        | inl u ↦ rw (o, u, out) (supply_need-covers event events s' h g' u).1
        | inr u ↦ rw (o, u) u
      ]

  decide-covers :
      (event : Level) (events : List Level) (s : Loop)
      → IsRounded events
      → R s.stock_after_event
      → (is_oversupply tools schedule moves config cancels op event s ≡ false) ⊎ (has_out s ≡ true)
      → under tools schedule moves config cancels op
          (decide_event tools schedule moves config cancels op event events s).stock_after_event
        ≡ false
  decide-covers event events s h g (inl o) = decide_no_oversupply event events s h g o
  decide-covers event events s h g (inr out) =
      elim (Bool-cases (is_oversupply tools schedule moves config cancels op event s)) [
        | inl o ↦ decide_delivery event events s h g o out
        | inr o ↦ decide_no_oversupply event events s h g o
      ]

  process_events-R :
      (events es : List Level) (s : Loop)
      → IsRounded events
      → R s.stock_after_event
      → R (process_events tools schedule moves config cancels op events es s).stock_after_event
  unfolding process_events process_event
  process_events-R events [] s h g = g
  process_events-R events (e ∷ es) s h g =
      process_events-R events es _ h (decide-R e events _ h (enter_date-R e events s h g))

  process_events_last :
      (events es : List Level) (e : Level) (s : Loop)
      → process_events tools schedule moves config cancels op events (es ++ (e ∷ [])) s
        ≡ process_event tools schedule moves config cancels op events e
            (process_events tools schedule moves config cancels op events es s)
  unfolding process_events
  process_events_last events [] e s = refl
  process_events_last events (d ∷ es) e s =
      process_events_last events es e
        (process_event tools schedule moves config cancels op events d s)

  -- The loop when event `e`, behind the events `es`, has been added to the stock.
  unfoldable pub reached : List Level → List Level → Level → World → Loop
  reached events es e w =
      enter_date tools schedule moves config cancels op e events
        (process_events tools schedule moves config cancels op events es (start w))

  -- After each event that is no oversupply, and after each event of a date with a delivery, the
  -- stock that the loop has planned is not below the minimum, whichever procurements could be
  -- canceled. The quantities of the rule and of the events are rounded.
  pub process_events-covers :
      (events es : List Level) (e : Level) (w : World)
      → IsRounded events
      → (is_oversupply tools schedule moves config cancels op e (reached events es e w) ≡ false)
        ⊎ (has_out (reached events es e w) ≡ true)
      → under tools schedule moves config cancels op
          (process_events tools schedule moves config cancels op events
            (es ++ (e ∷ []))
            (start w)).stock_after_event
        ≡ false
  unfolding reached process_event
  process_events-covers events es e w h k = rw process_events_last (
      decide-covers e events _ h
        (enter_date-R e events _ h (process_events-R events es (start w) h h.zero)) k)
