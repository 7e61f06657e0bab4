-- ===== src/StockJit/Levels/Forecast.antt =====
-- stock_procurement_just_in_time: `compute_stock_levels_requirements` against the forecast that it
-- reports, and the last scheduled date read from it.
use odoo_addons.Base.{
  ℕ, ◌≤◌, ◌≡◌, refl, ap, ◌∙◌, inl, inr, Bool, true, false, Option, none, some, List, [], ◌∷◌, map,
  leb, length, All, Bool-cases, arith,
}
use odoo_addons.Base.Int.{ℤ, pos, ◌+ℤ◌, int_laws}
use odoo_addons.StockJit.Tables.{Location, Tables}
use odoo_addons.StockJit.Levels.Sort.{
  insert_by, sort_by, IsSorted, sort_by-IsSorted, sort_by-IsSorted',
}
use odoo_addons.StockJit.Levels.{
  MoveType, Item, Level, rank, level_row, by_date, limited, running_levels, intermediate_items,
  compute_stock_levels_requirements, get_list_events, get_last_scheduled_date, scheduled_type,
}
use odoo_addons.StockJit.Levels.Running.{
  key, balance, balance_row, typed, balance-sort, running_levels-eq,
}

abbrev item_le : Item → Item → Bool
item_le a b = leb (key a) (key b)

-- The forecast: each dictionary of a wanted type, by date, with the sum of all quantities up to
-- its date.
abbrev pub forecast : (MoveType → Bool) → ℕ → List Item → List Level
forecast wanted product items =
    map (λ i. level_row product (balance (key i) items) i) (typed wanted (sort_by item_le items))

forecast-IsSorted :
    (product : ℕ) (f : Item → ℤ) (wanted : MoveType → Bool) (items : List Item)
    → IsSorted key items
    → IsSorted
        (λ (l : Level). rank l.date)
        (map (λ i. level_row product (f i) i) (typed wanted items))
forecast-IsSorted product f wanted [] s = tt
forecast-IsSorted product f wanted (x ∷ xs) s = elim (Bool-cases (wanted x.move_type)) [
  | inl e ↦ rw e (later (key x) xs s.0, forecast-IsSorted product f wanted xs s.1)
  | inr e ↦ rw e (forecast-IsSorted product f wanted xs s.1)
]
  where
    later :
        (n : ℕ) (ys : List Item)
        → All (λ y. n ≤ key y) ys
        → All
            (λ (l : Level). n ≤ rank l.date)
            (map (λ i. level_row product (f i) i) (typed wanted ys))
    later n [] h = tt
    later n (y ∷ ys) h = elim (Bool-cases (wanted y.move_type)) [
      | inl e ↦ rw e (h.0, later n ys h.1)
      | inr e ↦ rw e (later n ys h.1)
    ]

zero_base : (a b : ℤ) → a ≡ b → pos 0 +ℤ a ≡ b
zero_base a b e = rw e (omega int_laws)

rows-eq :
    (product : ℕ) (sorted items xs : List Item)
    → ((d : ℕ) → balance d sorted ≡ balance d items)
    → map (balance_row product (pos 0) sorted) xs
      ≡ map (λ i. level_row product (balance (key i) items) i) xs
rows-eq product sorted items [] h = refl
rows-eq product sorted items (x ∷ xs) h = cc (
  ap (λ (q : ℤ). level_row product q x) (zero_base _ _ (h (key x))),
  rows-eq product sorted items xs h,
)

-- The loop gives the forecast.
running-forecast :
    (wanted : MoveType → Bool) (product : ℕ) (items : List Item)
    → running_levels (length (sort_by item_le items)) wanted product (pos 0) (sort_by item_le items)
      ≡ forecast wanted product items
running-forecast wanted product items =
    running_levels-eq (length (sort_by item_le items)) wanted product (pos 0)
      (sort_by item_le items) (omega arith) (sort_by-IsSorted key items)
    ∙ rows-eq product (sort_by item_le items) items (typed wanted (sort_by item_le items))
        (λ d. balance-sort d items)

-- Without a limit the requirements are the forecast of all dictionaries: by date, with the stock
-- that is there (or moves alone) for the existing stock and the balance at the date for the rest.
pub compute_stock_levels_requirements-forecast :
    (db : Tables) (product : ℕ) (area : Location) (wanted : MoveType → Bool) (max_date : Option ℕ)
    → compute_stock_levels_requirements db product area wanted none false max_date
      ≡ forecast wanted product (intermediate_items db product area max_date)
unfolding compute_stock_levels_requirements
compute_stock_levels_requirements-forecast db product area wanted max_date =
    let items = intermediate_items db product area max_date in
    ap (sort_by (by_date false)) (running-forecast wanted product items)
    ∙ sort_by-IsSorted' (λ (l : Level). rank l.date) (forecast wanted product items)
        (forecast-IsSorted product (λ i. balance (key i) items) wanted (sort_by item_le items)
          (sort_by-IsSorted key items))

-- `get_list_events` gives the forecast of all dictionaries, whatever their type.
pub get_list_events-forecast :
    (db : Tables) (product : ℕ) (area : Location)
    → get_list_events db product area
      ≡ forecast (λ t. true) product (intermediate_items db product area none)
unfolding get_list_events
get_list_events-forecast db product area =
    let items = intermediate_items db product area none in
    ap (sort_by (by_date false))
      (compute_stock_levels_requirements-forecast db product area (λ t. true) none)
    ∙ sort_by-IsSorted' (λ (l : Level). rank l.date) (forecast (λ t. true) product items)
        (forecast-IsSorted product (λ i. balance (key i) items) (λ t. true) (sort_by item_le items)
          (sort_by-IsSorted key items))

-- A list sorted downwards begins with its latest date.
abbrev HasLatest : List Level → List Level → Type 0
HasLatest xs s =
    (h : Level) × (t : List Level) × (s ≡ h ∷ t) × All (λ x. rank x.date ≤ rank h.date) xs

All_trans :
    (n m : ℕ) (xs : List Level)
    → n ≤ m
    → All (λ x. rank x.date ≤ n) xs
    → All (λ x. rank x.date ≤ m) xs
All_trans n m [] h a = tt
All_trans n m (x ∷ xs) h a = (omega arith, All_trans n m xs h a.1)

insert_latest :
    (x : Level) (xs s : List Level)
    → HasLatest xs s
    → HasLatest (x ∷ xs) (insert_by (by_date true) x s)
unfolding insert_by
insert_latest x xs s (h, t, e, a) = elim (Bool-cases (by_date true x h)) [
  | inl q ↦
      let up : rank h.date ≤ rank x.date = ground arith in
      (x, h ∷ t, rw (e, q), (omega arith, All_trans (rank h.date) (rank x.date) xs up a))
  | inr q ↦ (h, insert_by (by_date true) x t, rw (e, q), (ground arith, a))
]

pub sort_latest :
    (x : Level) (xs : List Level) → HasLatest (x ∷ xs) (sort_by (by_date true) (x ∷ xs))
unfolding sort_by insert_by
sort_latest x [] = (x, [], refl, (omega arith, tt))
sort_latest x (y ∷ ys) =
    insert_latest x (y ∷ ys) (sort_by (by_date true) (y ∷ ys)) (sort_latest y ys)

latest_head :
    (xs s : List Level) (n : Option ℕ)
    → HasLatest xs s
    → n ≡ elim (limited (some 1) s) [ [] ↦ none | l ∷ ls ↦ l.date ]
    → All (λ x. rank x.date ≤ rank n) xs
latest_head xs s n (h, t, e, a) q = rw (q, e) a

-- No existing stock, receipt or delivery of the forecast is later than the last scheduled date.
pub get_last_scheduled_date-ge :
    (db : Tables) (product : ℕ) (area : Location)
    → All
        (λ l. rank l.date ≤ rank (get_last_scheduled_date db product area))
        (forecast scheduled_type product (intermediate_items db product area none))
unfolding get_last_scheduled_date compute_stock_levels_requirements
get_last_scheduled_date-ge db product area =
    let items = intermediate_items db product area none in
    go (forecast scheduled_type product items) (running-forecast scheduled_type product items)
  where
    go :
        (f : List Level)
        → running_levels
            (length (sort_by item_le (intermediate_items db product area none)))
            scheduled_type
            product
            (pos 0)
            (sort_by item_le (intermediate_items db product area none))
          ≡ f
        → All (λ l. rank l.date ≤ rank (get_last_scheduled_date db product area)) f
    go [] e = tt
    go (x ∷ xs) e =
        latest_head (x ∷ xs) (sort_by (by_date true) (x ∷ xs))
          (get_last_scheduled_date db product area) (sort_latest x xs)
          (ap
            (λ (l : List Level). elim (limited (some 1) (sort_by (by_date true) l)) [
              | [] ↦ none
              | m ∷ ms ↦ m.date
            ])
            e)
