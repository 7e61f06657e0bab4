-- ===== src/SchedulerAsync/Tests.antt =====
-- Runs of the asynchronous scheduler on a few moves.
use odoo_addons.Base.{
  ℕ, ◌≡◌, refl, true, false, Option, none, some, List, [], ◌∷◌, map, keep, In, here, there,
}
use odoo_addons.StockJit.Tables.{MoveState, ProcState}
use odoo_addons.SchedulerAsync.{
  Move, State, Task, Procurement, key_of, same_key, group_moves, run_confirm_moves, chunks_of,
  launch_groups, run_confirm_procurements, do_procurements_run_or_check, run_or_check_products,
  moves_to_confirm,
}
use odoo_addons.SchedulerAsync.Groups.{lookup, lookup-group_moves}
use odoo_addons.SchedulerAsync.Claims.{is_claimed, run_confirm_moves-Claimed}

abbrev move : ℕ → Option ℕ → MoveState → Option ℕ → Move
move i g s u = record {
  id = i;
  group_id = g;
  location_id = 1;
  location_dest_id = 2;
  state = s;
  confirm_job_uuid = u;
}

abbrev moves : List Move
moves =
    move 10 none MoveState.draft none
    ∷ move 11 (some 5) MoveState.draft (some 70)
    ∷ move 12 none MoveState.draft (some 71)
    ∷ move 13 none MoveState.confirmed none
    ∷ []

abbrev need : Procurement
need = record {
  id = 30;
  product_id = 3;
  company_id = 1;
  state = ProcState.confirmed;
  run_or_confirm_job_uuid = none;
}

-- The job 70 is over, the job 71 is not.
abbrev state : State
state = record {
  moves = moves;
  procurements = need ∷ [];
  queue =
      record { uuid = 70; task = Task.confirm_moves (11 ∷ []); is_over = true }
      ∷ record { uuid = 71; task = Task.confirm_moves (12 ∷ []); is_over = false }
      ∷ [];
  next_uuid = 72;
}

-- The third draft keeps the job that it has.
claimed_uuids :
    map (λ m. m.confirm_job_uuid) (run_confirm_moves (λ ms. ms) state).moves
    ≡ some 72 ∷ some 73 ∷ some 71 ∷ none ∷ []
unfolding run_confirm_moves group_moves launch_groups
claimed_uuids = refl

-- So the job of its group confirms the first alone.
confirmed_by_72 :
    map (λ m. m.id) (moves_to_confirm (10 ∷ 12 ∷ []) 72 (run_confirm_moves (λ ms. ms) state).moves)
    ≡ 10 ∷ []
unfolding run_confirm_moves group_moves launch_groups moves_to_confirm
confirmed_by_72 = refl

procurements_run :
    map (λ p. p.run_or_confirm_job_uuid) (run_confirm_procurements none (3 ∷ []) state).procurements
    ≡ some 72 ∷ []
unfolding run_confirm_procurements do_procurements_run_or_check run_or_check_products chunks_of
procurements_run = refl

lookup-group_moves_example :
    lookup (key_of (move 10 none MoveState.draft none)) (group_moves [] moves)
    ≡ map
        (λ m. m.id)
        (keep (λ m. same_key (key_of (move 10 none MoveState.draft none)) (key_of m)) moves)
lookup-group_moves_example =
    lookup-group_moves (key_of (move 10 none MoveState.draft none)) [] moves

second_taken :
    In (move 11 (some 5) MoveState.draft (some 73)) (run_confirm_moves (λ ms. ms) state).moves
unfolding run_confirm_moves group_moves launch_groups
second_taken = there (here refl)

run_confirm_moves-Claimed_example :
    is_claimed (run_confirm_moves (λ ms. ms) state).queue (some 73) ≡ true
run_confirm_moves-Claimed_example =
    run_confirm_moves-Claimed (λ ms. ms) state (move 11 (some 5) MoveState.draft (some 70))
      (move 11 (some 5) MoveState.draft (some 73)) (there (here refl)) second_taken refl
