-- ===== src/SchedulerAsync.antt =====
-- scheduler_async/scheduler_async.py: the jobs that confirm moves, run or check procurements, and
-- assign moves.
--
-- The queue is a list of jobs; `delay` puts a pending job with a fresh uuid at its end. A dictionary
-- is an association list in the order of insertion. `Groups` shows what the groups of moves hold,
-- `Claims` that every draft move is claimed by a job, `Chunks` that chunks lose nothing.
mod Groups
mod Claims
mod Chunks
mod Tests
use odoo_addons.Base.{
  ℕ, zero, suc, ◌≡◌, Bool, true, false, not, ◌&&◌, ◌||◌, Option, none, some, List, [], ◌∷◌, ◌++◌,
  map, leb, ◌==◌, same_id, if◌then◌else◌, keep, any, mem, take, drop, length,
}
use odoo_addons.StockJit.Tables.{MoveState, ProcState}
use odoo_addons.StockJit.Levels.{is_draft}

pub data Action : Type 0 where
  run check : Action

-- What a job does, and the records that it does it to.
pub data Task : Type 0 where
  run_or_check_procurements : Action → List ℕ → Task
  confirm_moves : List ℕ → Task
  assign_moves : List ℕ → Task

pub record Job : Type 0 where
  pub uuid : ℕ
  pub task : Task
  -- `state IN ('done', 'failed')`
  pub is_over : Bool

pub record Move : Type 0 where
  pub id : ℕ
  pub group_id : Option ℕ
  pub location_id : ℕ
  pub location_dest_id : ℕ
  pub state : MoveState
  pub confirm_job_uuid : Option ℕ

pub record Procurement : Type 0 where
  pub id : ℕ
  pub product_id : ℕ
  pub company_id : ℕ
  pub state : ProcState
  pub run_or_confirm_job_uuid : Option ℕ

pub record State : Type 0 where
  pub moves : List Move
  pub procurements : List Procurement
  pub queue : List Job
  pub next_uuid : ℕ

abbrev pub delay : Task → State → State
delay task s = record s {
  queue = s.queue ++ (record { uuid = s.next_uuid; task = task; is_over = false } ∷ []);
  next_uuid = suc s.next_uuid;
}

-- The key of a move's group.
pub record Key : Type 0 where
  pub group_id : Option ℕ
  pub location_id : ℕ
  pub location_dest_id : ℕ

abbrev pub key_of : Move → Key
key_of m = record {
  group_id = m.group_id;
  location_id = m.location_id;
  location_dest_id = m.location_dest_id;
}

abbrev pub same_key : Key → Key → Bool
same_key a b =
    same_id a.group_id b.group_id
    && a.location_id == b.location_id
    && a.location_dest_id == b.location_dest_id

-- `group_draft_moves[key].append(id)`, for a key that may be missing.
abbrev pub append_to : Key → ℕ → List (Key × List ℕ) → List (Key × List ℕ)
append_to k i [] = (k, i ∷ []) ∷ []
append_to k i ((k', ids) ∷ groups) =
    let rest = append_to k i groups in
    if same_key k k' then (k', ids ++ (i ∷ [])) ∷ groups else (k', ids) ∷ rest

pub group_moves : List (Key × List ℕ) → List Move → List (Key × List ℕ)
group_moves groups [] = groups
group_moves groups (m ∷ ms) = group_moves (append_to (key_of m) m.id groups) ms

-- `qj.id IS NULL OR qj.state IN ('done', 'failed')`, for the job of the uuid
abbrev pub is_free : List Job → Option ℕ → Bool
is_free queue uuid =
    not (any (λ j. same_id uuid (some j.uuid)) queue)
    || any (λ j. same_id uuid (some j.uuid) && j.is_over) queue

abbrev pub claim : List Job → ℕ → List ℕ → Move → Move
claim queue uuid ids m =
    if mem m.id ids && is_free queue m.confirm_job_uuid
    then record m { confirm_job_uuid = some uuid }
    else m

-- The job of one group: the uuid is written on the moves that have none, or that of a job that is
-- over.
abbrev pub launch_group : List ℕ → State → State
launch_group ids s =
    let s' = delay (Task.confirm_moves ids) s in
    record s' { moves = map (claim s'.queue s.next_uuid ids) s.moves }

pub launch_groups : List (Key × List ℕ) → State → State
launch_groups [] s = s
launch_groups ((k, ids) ∷ groups) s = launch_groups groups (launch_group ids s)

-- `run_confirm_moves` with jobs, for the draft moves of the domain in the order of the search.
pub run_confirm_moves : (List Move → List Move) → State → State
unfolding group_moves launch_groups
run_confirm_moves search s =
    launch_groups (group_moves [] (search (keep (λ m. is_draft m.state) s.moves))) s

-- The moves that the job `confirm_moves` confirms.
pub moves_to_confirm : List ℕ → ℕ → List Move → List Move
moves_to_confirm ids job_uuid moves =
    keep
      (λ m.
        mem m.id ids
        && (same_id m.confirm_job_uuid none || same_id m.confirm_job_uuid (some job_uuid)))
      moves

-- A `while` loop that takes chunks from the front of a list.
pub chunks_of : ℕ → ℕ → List ℕ → List (List ℕ)
chunks_of zero size ids = []
chunks_of (suc fuel) size [] = []
chunks_of (suc fuel) size (i ∷ is) = take size (i ∷ is) ∷ chunks_of fuel size (drop size (i ∷ is))

abbrev pub delay_all : List Task → State → State
delay_all [] s = s
delay_all (t ∷ ts) s = delay_all ts (delay t s)

abbrev pub is_confirmed : Move → Bool
is_confirmed m = elim m.state [
  | MoveState.confirmed ↦ true
  | MoveState.draft ↦ false
  | MoveState.waiting ↦ false
  | MoveState.assigned ↦ false
  | MoveState.done ↦ false
  | MoveState.cancel ↦ false
]

-- `run_assign_moves` with jobs
pub run_assign_moves : State → State
unfolding chunks_of
run_assign_moves s =
    let confirmed = map (λ m. m.id) (keep is_confirmed s.moves) in
    delay_all (map Task.assign_moves (chunks_of (length confirmed) 100 confirmed)) s

-- `launch_run_or_check_jobs_for_ids`
abbrev pub launch_run_or_check_jobs_for_ids : Action → List ℕ → State → State
launch_run_or_check_jobs_for_ids action proc_ids s =
    let s' = delay (Task.run_or_check_procurements action proc_ids) s in
    record s' {
      procurements =
          map
            (λ p.
              if mem p.id proc_ids
              then record p { run_or_confirm_job_uuid = some s.next_uuid }
              else p)
            s.procurements;
    }

abbrev pub launch_each : List ℕ → State → State
launch_each [] s = s
launch_each (i ∷ is) s = launch_each is (launch_run_or_check_jobs_for_ids Action.run (i ∷ []) s)

abbrev pub launch_action : Action → List ℕ → State → State
launch_action Action.run ids s = launch_each ids s
launch_action Action.check ids s = launch_run_or_check_jobs_for_ids Action.check ids s

abbrev pub in_company : Option ℕ → ℕ → Bool
in_company none c = true
in_company (some company) c = c == company

-- The query of `_do_procurements_run_or_check`, for one chunk of products.
abbrev pub proc_for_job_ids : (ProcState → Bool) → Option ℕ → List ℕ → State → List ℕ
proc_for_job_ids in_state company products s =
    map (λ p. p.id)
      (keep
        (λ p.
          is_free s.queue p.run_or_confirm_job_uuid
          && in_state p.state
          && mem p.product_id products
          && in_company company p.company_id)
        s.procurements)

-- The loop over the chunks of products, with jobs.
pub run_or_check_products : (ProcState → Bool) → Action → Option ℕ → List (List ℕ) → State → State
run_or_check_products in_state action company [] s = s
run_or_check_products in_state action company (products ∷ chunks) s =
    run_or_check_products in_state action company chunks
      (launch_action action (proc_for_job_ids in_state company products s) s)

-- `_do_procurements_run_or_check` with jobs
pub do_procurements_run_or_check : (ProcState → Bool) → Action → Option ℕ → List ℕ → State → State
unfolding chunks_of
do_procurements_run_or_check in_state action company products s =
    run_or_check_products in_state action company (chunks_of (length products) 100 products) s

abbrev is_confirmed_proc : ProcState → Bool
is_confirmed_proc ProcState.confirmed = true
is_confirmed_proc ProcState.exception = false
is_confirmed_proc ProcState.running = false
is_confirmed_proc ProcState.done = false
is_confirmed_proc ProcState.cancel = false
is_confirmed_proc ProcState.buy_to_run = false

-- `run_confirm_procurements`
pub run_confirm_procurements : Option ℕ → List ℕ → State → State
unfolding do_procurements_run_or_check
run_confirm_procurements company products s =
    do_procurements_run_or_check is_confirmed_proc Action.run company products s
