-- ===== src/StockJit/Controller/Tests.antt =====
-- stock_procurement_just_in_time: a controller with two sequences, and the theorems at it.
use odoo_addons.Base.{
  ℕ, sym, ap, ◌∙◌, arith, All_at, ◌≡◌, refl, true, false, Bool, Option, none, some, List, [], ◌∷◌,
  map, here, there, All,
}
use odoo_addons.StockJit.Controller.{
  Line, Job, JobFunction, JobState, State, update_scheduler_controller, pop_job_orderpoint_process,
  program, is_startable,
}
use odoo_addons.StockJit.Controller.Evolution.{is_begun, InOrder}
use odoo_addons.StockJit.Controller.Order.{UniqueIds, BegunIds, update-InOrder, pop_job-InOrder}
use odoo_addons.StockJit.Controller.Launch.{Popped, update_starts}

abbrev line : ℕ → Option ℕ → ℕ → Bool → Option ℕ → Bool → Line
line i op seq run uuid d = record {
  id = i;
  orderpoint_id = op;
  location_sequence = seq;
  run_procs = run;
  job_uuid = uuid;
  job_creation_date = none;
  date_done = none;
  done = d;
  company_id = 1;
}

abbrev no_confirm : Bool → List Job → List Job
no_confirm j q = q

abbrev fresh : State
fresh = record {
  lines =
      line 1 (some 11) 0 false none false
      ∷ line 2 none 0 true none false
      ∷ line 3 (some 11) 1 false none false
      ∷ [];
  queue = [];
  next_uuid = 50;
}

-- The line of rule 11 has its job, which is still under way.
abbrev under_way : State
under_way = record {
  lines = line 1 (some 11) 0 false (some 50) false ∷ line 2 none 0 true none false ∷ [];
  queue =
      record {
        uuid = 50;
        function = JobFunction.process_orderpoints;
        ids = 11 ∷ [];
        state = JobState.started;
      }
      ∷ [];
  next_uuid = 51;
}

first_update :
    map {B = Option ℕ}
      (λ l. l.job_uuid)
      (update_scheduler_controller no_confirm 9 true true fresh).lines
    ≡ some 50 ∷ none ∷ none ∷ []
unfolding program
first_update = refl

abbrev two : State
two = record {
  lines = line 1 (some 11) 0 false none false ∷ line 3 (some 11) 1 false none false ∷ [];
  queue = [];
  next_uuid = 50;
}

id_of : {l k : Line} → l ≡ k → l.id ≡ k.id
id_of e = ap (λ (x : Line). x.id) e

two_UniqueIds : UniqueIds two.lines
two_UniqueIds l k (here e) (here q) i = sym e ∙ q
two_UniqueIds l k (here e) (there (here q)) i = absurd (omega (arith, id_of e, id_of q))
two_UniqueIds l k (there (here e)) (here q) i = absurd (omega (arith, id_of e, id_of q))
two_UniqueIds l k (there (here e)) (there (here q)) i = sym e ∙ q
two_UniqueIds l k (there (there e)) j i = elim e [ ]
two_UniqueIds l k j (there (there e)) i = elim e [ ]

two_not_begun : All (λ l. is_begun l ≡ false) two.lines
two_not_begun = (refl, (refl, tt))

two_InOrder : InOrder two.lines
two_InOrder l k i j b lt = let n = All_at (λ l. is_begun l ≡ false) i two_not_begun in cc

update-InOrder_example : InOrder (update_scheduler_controller no_confirm 9 true true two).lines
update-InOrder_example = update-InOrder no_confirm 9 true true two two_UniqueIds two_InOrder

abbrev popped : State
popped = record {
  lines = line 1 (some 11) 0 false (some 50) false ∷ [];
  queue = [];
  next_uuid = 51;
}

popped_InOrder : InOrder popped.lines
popped_InOrder l k (here e) (here q) b lt =
    let s = ap (λ (x : Line). x.location_sequence) e in
    let t = ap (λ (x : Line). x.location_sequence) q in absurd (omega arith)
popped_InOrder l k (there e) j b lt = elim e [ ]
popped_InOrder l k j (there e) b lt = elim e [ ]

popped_BegunIds : BegunIds (1 ∷ []) popped.lines
popped_BegunIds l (here e) h = rw (← e) refl
popped_BegunIds l (there e) h = elim e [ ]

pop_job-InOrder_example :
    InOrder (pop_job_orderpoint_process no_confirm 9 popped.lines popped).lines
pop_job-InOrder_example =
    pop_job-InOrder no_confirm 9 popped.lines popped popped_BegunIds popped_InOrder

update_starts_example :
    let s' = update_scheduler_controller no_confirm 9 true true fresh in
    All (λ l. is_startable 0 l ≡ false) s'.lines × Popped (1 ∷ []) fresh s'
update_starts_example = update_starts no_confirm 9 true fresh 0 refl refl refl refl
