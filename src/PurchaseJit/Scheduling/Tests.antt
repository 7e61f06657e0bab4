-- ===== src/PurchaseJit/Scheduling/Tests.antt =====
-- Three procurements of two locations, of which one is past; suppliers and their dates.
use odoo_addons.Base.{ℕ, ◌+◌, ◌≡◌, refl, true, false, ◌&&◌, none, some, List, [], ◌∷◌, keep, mem}
use odoo_addons.Base.Count.{times}
use odoo_addons.StockJit.Levels.Sort.{sort_by}
use odoo_addons.PurchaseJit.Scheduling.{
  ToBuy, Plan, SellerRow, SellerJob, ids_of, min_date, seller_loop, launch_purchase_schedule_seller,
  launch_purchase_schedule, next_date,
}
use odoo_addons.PurchaseJit.Scheduling.Partition.{
  AllHome, in_plan, launch_purchase_schedule_seller-parts,
}

abbrev proc : ℕ → ℕ → ℕ → ToBuy
proc id location date = record {
  id = id;
  company_id = 1;
  product_id = 3;
  location_id = location;
  date_planned = date;
  purchase_line_id = none;
  is_active = true;
}

abbrev db : List ToBuy
db = proc 1 7 10 ∷ proc 2 8 30 ∷ proc 3 7 40 ∷ []

abbrev delivery : ℕ → ℕ
delivery product = 20

planned :
    launch_purchase_schedule_seller delivery [] true false true db (1 ∷ 2 ∷ 3 ∷ [])
    ≡ some (record {
      exceptions = [];
      removed = 1 ∷ [];
      dict_procs =
          record { company_id = 1; location_id = 7; procurements = proc 3 7 40 ∷ [] }
          ∷ record { company_id = 1; location_id = 8; procurements = proc 2 8 30 ∷ [] }
          ∷ [];
    })
unfolding launch_purchase_schedule_seller seller_loop min_date sort_by
planned = refl

-- A supplier without a scheduler: its procurements without a line are exceptions.
excepted :
    launch_purchase_schedule_seller delivery [] true true true db (1 ∷ 2 ∷ 3 ∷ [])
    ≡ some (record { exceptions = 1 ∷ 3 ∷ 2 ∷ []; removed = []; dict_procs = [] })
unfolding launch_purchase_schedule_seller seller_loop min_date sort_by
excepted = refl

abbrev row : ℕ → ℕ → SellerRow
row id seller = record { procurement_id = id; seller_id = seller; product_id = 3 }

launched :
    launch_purchase_schedule false true
      (5 ∷ 6 ∷ [])
      []
      []
      (5 ∷ 6 ∷ [])
      (row 1 5 ∷ row 2 9 ∷ row 3 5 ∷ [])
    ≡ some
        (SellerJob.purchase_schedule_seller 5 (1 ∷ 3 ∷ []) ∷ SellerJob.sanitize_draft_orders 6 ∷ [])
launched = refl

-- The next date is the first after now.
next_day : next_date 3 200000 1 100000 ≡ some 272800
next_day = refl

launch_purchase_schedule_seller-parts_example :
    (r : Plan) × (launch_purchase_schedule_seller delivery [] true false true db (1 ∷ 2 ∷ 3 ∷ [])
      ≡ some r)
    × AllHome r.dict_procs
    × ((i : ℕ)
        → times i r.removed + in_plan i r.dict_procs
          ≡ times i (ids_of (keep (λ p. mem p.id (1 ∷ 2 ∷ 3 ∷ []) && p.is_active) db)))
launch_purchase_schedule_seller-parts_example =
    launch_purchase_schedule_seller-parts delivery [] true db (1 ∷ 2 ∷ 3 ∷ [])
