-- ===== src/StockJit/Insertion/Tests.antt =====
-- Runs of the insertion on two rules, one of a product that is manufactured.
use odoo_addons.Base.{
  ℕ, ◌≡◌, ◌++◌, refl, Bool, true, false, Option, none, some, List, [], ◌∷◌, keep,
}
use odoo_addons.StockJit.Controller.{Line}
use odoo_addons.StockJit.Insertion.{
  Product, SchedulerSequence, StockRule, Catalogue, is_manufactured_product, orderpoints_to_insert,
  insert_new_controller_lines, procure_orderpoint_confirm,
}
use odoo_addons.StockJit.Insertion.Survival.{stays, procure_orderpoint_confirm-stays}

abbrev chair : Product
chair = record {
  id = 1;
  active = true;
  product_tmpl_id = 11;
  template_active = true;
  categ_id = 21;
}

abbrev screw : Product
screw = record {
  id = 2;
  active = true;
  product_tmpl_id = 12;
  template_active = true;
  categ_id = 22;
}

abbrev sequence : ℕ → Bool → SchedulerSequence
sequence n made_only = record {
  location_id = 5;
  name = n;
  exclude_non_manufactured_products = made_only;
  exclude_manufactured_products = false;
}

abbrev shop : Catalogue
shop = record {
  products = chair ∷ screw ∷ [];
  routes = record { id = 31; active = true } ∷ [];
  rules = record { route_id = 31; location_id = 5; active = true; manufactures = true } ∷ [];
  route_categ = (31, 21) ∷ [];
  route_product = [];
  sequences = sequence 10 true ∷ sequence 20 false ∷ [];
}

abbrev rules : List StockRule
rules =
    record { id = 7; product_id = 1; location_id = 5 }
    ∷ record { id = 8; product_id = 2; location_id = 5 }
    ∷ []

-- The screw, which is bought, is left out of the first sequence.
rows : orderpoints_to_insert shop rules ≡ (some 7, 10) ∷ (some 7, 20) ∷ (some 8, 20) ∷ []
unfolding orderpoints_to_insert is_manufactured_product
rows = refl

abbrev old : ℕ → Option ℕ → Bool → Line
old i uuid d = record {
  id = i;
  orderpoint_id = some 7;
  location_sequence = 10;
  run_procs = false;
  job_uuid = uuid;
  job_creation_date = none;
  date_done = none;
  done = d;
  company_id = 1;
}

procure_orderpoint_confirm-stays_example :
    procure_orderpoint_confirm shop rules
      (some 1)
      1
      99
      1000
      100
      (old 1 none false ∷ old 2 (some 50) false ∷ [])
    ≡ keep (stays 1 1000) (old 1 none false ∷ old 2 (some 50) false ∷ [])
      ++ insert_new_controller_lines shop rules 1 100
procure_orderpoint_confirm-stays_example =
    procure_orderpoint_confirm-stays shop rules 1 1 99 1000 100
      (old 1 none false ∷ old 2 (some 50) false ∷ []) ((λ h. refl), ((λ h. refl), tt))
