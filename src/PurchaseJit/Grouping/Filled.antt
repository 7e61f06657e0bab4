-- ===== src/PurchaseJit/Grouping/Filled.antt =====
-- purchase_procurement_just_in_time/models/procurement.py: every new line has a procurement.
use mathlib.Core.Path.{subst}
use odoo_addons.Base.{
  ℕ, zero, suc, ◌≡◌, refl, sym, false, not, ◌&&◌, Option, none, some, List, [], ◌∷◌, ◌++◌, ltb,
  ◌==◌, if◌then◌else◌, keep, mem, length, All, Bool-cases, inl, inr,
}
use odoo_addons.PurchaseJit.Assignment.{Procurement, get_dict_ordered_procs_by_product}
use odoo_addons.PurchaseJit.Grouping.{
  DraftOrder, NewLine, Groups, Setting, add_line, is_empty, get_corresponding_draft_order,
  get_purchase_line_procurements, get_purchase_date, end_round, group_round, group_product,
  group_products, group_order, group_procurements_by_orders,
}
use odoo_addons.PurchaseJit.Grouping.Rounds.{found-Same}

abbrev pub IsFilled : NewLine → Type 0
IsFilled l = is_empty l.procurement_ids ≡ false

-- The lines of groups that are found have procurements.
abbrev pub AllFilled : Option Groups → Type 0
AllFilled none = Unit
AllFilled (some g) = All IsFilled g.dict_lines_to_create

filled_before : (xs ys : List ℕ) → is_empty xs ≡ false → is_empty (xs ++ ys) ≡ false
filled_before [] ys h = cc
filled_before (x ∷ xs) ys h = refl

add_line-IsFilled :
    (order_id product_id : ℕ) (ids : List ℕ) (ls : List NewLine)
    → is_empty ids ≡ false
    → All IsFilled ls
    → All IsFilled (add_line order_id product_id ids ls)
add_line-IsFilled order_id product_id ids [] h all = (h, tt)
add_line-IsFilled order_id product_id ids (l ∷ ls) h all =
    elim (Bool-cases (l.order_id == order_id && l.product_id == product_id)) [
      | inl t ↦ rw t (filled_before l.procurement_ids ids all.0, all.1)
      | inr t ↦ rw t (all.0, add_line-IsFilled order_id product_id ids ls h all.1)
    ]

end_round-IsFilled :
    (s : Setting) (o : Option DraftOrder) (product_id : ℕ) (ids : List ℕ) (g : Groups)
    → All IsFilled g.dict_lines_to_create
    → All IsFilled (end_round s o product_id ids g).0.dict_lines_to_create
end_round-IsFilled s none product_id ids g h = h
end_round-IsFilled s (some order) product_id ids g h = elim (Bool-cases (is_empty ids)) [
  | inl t ↦ rw t h
  | inr t ↦ rw t (add_line-IsFilled order.id product_id ids g.dict_lines_to_create t h)
]

group_round-IsFilled :
    (s : Setting) (first : Procurement) (ids : List ℕ) (g : Groups)
    → All IsFilled g.dict_lines_to_create
    → All IsFilled (group_round s first ids g).0.dict_lines_to_create
group_round-IsFilled s first ids g h =
    let found =
      get_corresponding_draft_order s.period s.nb_max (s.place_of first) false (ltb 0 s.nb_max)
        (get_purchase_date s first) g in
    let same =
      found-Same s.period s.nb_max (s.place_of first) false (ltb 0 s.nb_max)
        (get_purchase_date s first) g in
    end_round-IsFilled s found.0 first.product_id ids found.1
      (subst (λ ls. All IsFilled ls) (sym same.1) h)

group_product-AllFilled :
    (s : Setting) (n : ℕ) (ps : List Procurement) (g : Groups)
    → All IsFilled g.dict_lines_to_create
    → AllFilled (group_product s n ps g)
unfolding group_product
group_product-AllFilled s n [] g h = h
group_product-AllFilled s zero (p ∷ ps) g h = tt
group_product-AllFilled s (suc n) (p ∷ ps) g h =
    let ids = get_purchase_line_procurements s p (p ∷ ps) (get_purchase_date s p) in
    let round = group_round s p ids g in
    group_product-AllFilled s n (if round.1 then [] else keep (λ x. not (mem x.id ids)) (p ∷ ps))
      round.0 (group_round-IsFilled s p ids g h)

group_products-AllFilled :
    (s : Setting) (groups : List (ℕ × List Procurement)) (g : Groups)
    → All IsFilled g.dict_lines_to_create
    → AllFilled (group_products s groups g)
group_products-AllFilled s [] g h = h
group_products-AllFilled s ((product, ps) ∷ groups) g h =
    split (λ g' h'. group_products-AllFilled s groups g' h') (group_product s (length ps) ps g)
      (group_product-AllFilled s (length ps) ps g h)
  where
    split :
        ((g' : Groups)
          → All IsFilled g'.dict_lines_to_create
          → AllFilled (group_products s groups g'))
        → (o : Option Groups) → AllFilled o
        → AllFilled
            (elim o as (λ x. Option Groups) [ none ↦ none | some g' ↦ group_products s groups g' ])
    split rest none h' = tt
    split rest (some g') h' = rest g' h'

pub group_procurements-AllFilled :
    (s : Setting) (db : List Procurement) (ids : List ℕ) (orders : List DraftOrder)
    (next_order_id : ℕ)
    → AllFilled (group_procurements_by_orders s db ids orders next_order_id)
unfolding group_procurements_by_orders
group_procurements-AllFilled s db ids orders next_order_id =
    group_products-AllFilled s (get_dict_ordered_procs_by_product db (group_order s) ids) _ tt
