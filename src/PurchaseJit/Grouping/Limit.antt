-- ===== src/PurchaseJit/Grouping/Limit.antt =====
-- purchase_procurement_just_in_time/models/procurement.py: the rounds once the last order has lines.
use odoo_addons.Base.{
  ℕ, zero, suc, ◌≤◌, ◌≡◌, refl, ap, ◌∙◌, Bool, true, false, not, Option, none, some, List, [], ◌∷◌,
  ltb, ◌==◌, if◌then◌else◌, keep, mem, any, arith,
}
use odoo_addons.PurchaseJit.Assignment.{Procurement}
use odoo_addons.PurchaseJit.Grouping.{
  DraftOrder, Groups, Setting, get_corresponding_draft_order, get_purchase_line_procurements,
  get_purchase_date, is_empty, end_round, group_round, group_product,
}
use odoo_addons.PurchaseJit.Grouping.Rounds.{found-Same, Reaches, first-get_line}

nonempty : (a : ℕ) (ids : List ℕ) → mem a ids ≡ true → is_empty ids ≡ false
nonempty a [] h = cc
nonempty a (x ∷ xs) h = refl

abbrev pub has_line : Groups → DraftOrder → Bool
has_line g order = any (λ l. l.order_id == order.id) g.dict_lines_to_create

abbrev pub found_order : Setting → Procurement → Groups → Option DraftOrder × Groups
found_order s p g =
    get_corresponding_draft_order s.period s.nb_max (s.place_of p) false (ltb 0 s.nb_max)
      (get_purchase_date s p) g

module _ (s : Setting)
    (reaches : (p : Procurement) (date : ℕ) → Reaches (s.period_end p date) p.date_planned) where
  end_round-stops :
      (o : Option DraftOrder) (product_id : ℕ) (ids : List ℕ) (g : Groups)
      → 1 ≤ s.nb_max
      → is_empty ids ≡ false
      → g.nb_draft_orders ≡ s.nb_max
      → ((order : DraftOrder) → o ≡ some order → has_line g order ≡ true)
      → (end_round s o product_id ids g).1 ≡ true
  end_round-stops none product_id ids g limit full same known = ground arith
  end_round-stops (some order) product_id ids g limit full same known =
      let k = known order refl in rw full rw k rw same ground arith

  -- Once as many orders have lines as the supplier may have draft orders, the loop over another
  -- product ends after one round, whatever procurements are left, if the order that is found for the
  -- first of them, if any, has lines already.
  pub group_product_ends_at_limit :
      (n : ℕ) (p : Procurement) (ps : List Procurement) (g : Groups)
      → 1 ≤ s.nb_max
      → g.nb_draft_orders ≡ s.nb_max
      → ((order : DraftOrder) → (found_order s p g).0 ≡ some order → has_line g order ≡ true)
      → group_product s (suc n) (p ∷ ps) g
        ≡ some
            (group_round s p
              (get_purchase_line_procurements s p (p ∷ ps) (get_purchase_date s p))
              g).0
  unfolding group_product
  group_product_ends_at_limit n p ps g limit full known =
      let ids = get_purchase_line_procurements s p (p ∷ ps) (get_purchase_date s p) in
      let (same, same_lines, same_nb) =
        found-Same s.period s.nb_max (s.place_of p) false (ltb 0 s.nb_max) (get_purchase_date s p)
          g in
      let stops : (group_round s p ids g).1 ≡ true =
        end_round-stops (found_order s p g).0 p.product_id ids (found_order s p g).1 limit
          (nonempty p.id ids (first-get_line s reaches p ps (get_purchase_date s p)))
          (same_nb ∙ full)
          (λ order e. ap (λ ls. any (λ l. l.order_id == order.id) ls) same_lines ∙ known order e) in
      ap
        (λ b.
          group_product s n (if b then [] else keep (λ x. not (mem x.id ids)) (p ∷ ps))
            (group_round s p ids g).0)
        stops
      ∙ nothing_left n (group_round s p ids g).0
    where
      nothing_left : (n : ℕ) (r : Groups) → group_product s n [] r ≡ some r
      nothing_left zero r = refl
      nothing_left (suc n) r = refl
