-- ===== src/StockJit/Insertion/Survival.antt =====
-- stock_procurement_just_in_time: which lines of the controller a new confirmation leaves.
use odoo_addons.Base.{
  ℕ, ◌≡◌, refl, ap, Bool, true, false, not, ◌&&◌, none, some, List, [], ◌∷◌, ◌++◌, keep, arith, All,
  Bool-cases, inl, inr,
}
use odoo_addons.StockJit.Controller.{Line}
use odoo_addons.StockJit.Insertion.{
  Catalogue, StockRule, before, is_not_started, invalidate, delete_old_controller_lines,
  insert_new_controller_lines, procure_orderpoint_confirm,
}

-- A line that is not done has no date.
abbrev pub IsDated : Line → Type 0
IsDated l = l.done ≡ false → l.date_done ≡ none

abbrev pub stays : ℕ → ℕ → Line → Bool
stays company limit l = not (is_not_started company l) && not (l.done && before limit l.date_done)

old_goes :
    (company limit msg : ℕ) (l : Line)
    → IsDated l
    → is_not_started company l ≡ true
    → (before limit l.date_done ≡ true) × (stays company limit l ≡ false)
old_goes company limit msg l h t =
    let undone : l.done ≡ false = ground arith in ((rw (h undone) refl), rw t refl)

delete_old-invalidate :
    (company msg limit : ℕ) (ls : List Line)
    → All IsDated ls
    → delete_old_controller_lines limit (invalidate company msg ls) ≡ keep (stays company limit) ls
unfolding delete_old_controller_lines
delete_old-invalidate company msg limit [] h = refl
delete_old-invalidate company msg limit (l ∷ ls) h =
    let rest = delete_old-invalidate company msg limit ls h.1 in
    elim (Bool-cases (is_not_started company l)) [
      | inl t ↦ let (b, u) = old_goes company limit msg l h.0 t in rw t (rw b rest)
      | inr t ↦ elim (Bool-cases (l.done && before limit l.date_done)) [
        | inl b ↦ rw t (rw b rest)
        | inr b ↦ rw t (rw b (ap (λ xs. l ∷ xs) rest))
      ]
    ]

-- Where lines that are not done have no date of their end, a confirmation for a company removes the
-- lines of the company that are not started and, of any company, the done lines that have no date
-- of their end or one before the date that lines are kept from. It leaves all others as they were,
-- and puts the new lines behind them.
pub procure_orderpoint_confirm-stays :
    (db : Catalogue) (ops : List StockRule) (company user_company msg limit next_id : ℕ)
    (ls : List Line)
    → All IsDated ls
    → procure_orderpoint_confirm db ops (some company) user_company msg limit next_id ls
      ≡ keep (stays company limit) ls ++ insert_new_controller_lines db ops company next_id
unfolding procure_orderpoint_confirm
procure_orderpoint_confirm-stays db ops company user_company msg limit next_id ls h =
    ap (λ xs. xs ++ insert_new_controller_lines db ops company next_id)
      (delete_old-invalidate company msg limit ls h)
