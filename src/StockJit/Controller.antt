-- ===== src/StockJit/Controller.antt =====
-- stock_procurement_just_in_time: `StockSchedulerController`, the lines that say which minimum
-- stock rules are still to be processed, sequence by sequence, and the jobs that process them.
--
-- The queue of the connector is a list of jobs; `delay` puts a pending job with a fresh uuid at
-- its end. Parameters: `confirm`, what `run_confirm_procurements` of scheduler_async does to the
-- queue, and the present time. Processing a rule itself is the module `Process`.
pub mod Evolution
pub mod Order
pub mod Launch
mod Tests
use odoo_addons.Base.{
  ℕ, zero, suc, ◌≡◌, Bool, true, false, not, ◌&&◌, ◌||◌, Option, none, some, List, [], ◌∷◌, ◌++◌,
  map, ltb, leb, ◌==◌, same_id, is_some, if◌then◌else◌, length, take, drop, keep, any, mem,
}

pub record Line : Type 0 where
  pub id : ℕ
  pub orderpoint_id : Option ℕ
  pub location_sequence : ℕ
  pub run_procs : Bool
  pub job_uuid : Option ℕ
  pub job_creation_date : Option ℕ
  pub date_done : Option ℕ
  pub done : Bool
  pub company_id : ℕ

-- The functions of the jobs that the controller looks for.
pub data JobFunction : Type 0 where
  pop_sub_process_orderpoints process_orderpoints run_procure_orderpoint_async : JobFunction
  run_or_check_procurements confirm_moves : JobFunction

pub data JobState : Type 0 where
  pending started done failed : JobState

pub record Job : Type 0 where
  pub uuid : ℕ
  pub function : JobFunction
  pub ids : List ℕ
  pub state : JobState

pub record State : Type 0 where
  pub lines : List Line
  pub queue : List Job
  pub next_uuid : ℕ

-- `state in ('done', 'failed')`
abbrev pub is_over : JobState → Bool
is_over JobState.done = true
is_over JobState.failed = true
is_over JobState.pending = false
is_over JobState.started = false

-- `get_stock_scheduler_blocking_job_function_names`
abbrev pub is_blocking : JobFunction → Bool
is_blocking JobFunction.pop_sub_process_orderpoints = true
is_blocking JobFunction.run_procure_orderpoint_async = true
is_blocking JobFunction.process_orderpoints = false
is_blocking JobFunction.run_or_check_procurements = false
is_blocking JobFunction.confirm_moves = false

abbrev pub confirms_procs : JobFunction → Bool
confirms_procs JobFunction.run_or_check_procurements = true
confirms_procs JobFunction.pop_sub_process_orderpoints = false
confirms_procs JobFunction.run_procure_orderpoint_async = false
confirms_procs JobFunction.process_orderpoints = false
confirms_procs JobFunction.confirm_moves = false

abbrev pub confirms_moves : JobFunction → Bool
confirms_moves JobFunction.confirm_moves = true
confirms_moves JobFunction.run_or_check_procurements = false
confirms_moves JobFunction.pop_sub_process_orderpoints = false
confirms_moves JobFunction.run_procure_orderpoint_async = false
confirms_moves JobFunction.process_orderpoints = false

abbrev pub running : (JobFunction → Bool) → List Job → Bool
running p queue = any (λ j. p j.function && not (is_over j.state)) queue

-- `is_any_stock_scheduler_blocking_process`
abbrev pub is_any_stock_scheduler_blocking_process : State → Bool
is_any_stock_scheduler_blocking_process s = running is_blocking s.queue

-- `is_procs_confirmation_ok` and `is_moves_confirmation_ok` of scheduler_async
abbrev pub is_confirmation_ok : State → Bool
is_confirmation_ok s = not (running confirms_procs s.queue) && not (running confirms_moves s.queue)

-- The least sequence of the lines that are not done.
abbrev pub min_with : ℕ → Option ℕ → Option ℕ
min_with n none = some n
min_with n (some m) = some (if leb n m then n else m)

abbrev pub line_min_sequence : List Line → Option ℕ
line_min_sequence [] = none
line_min_sequence (l ∷ ls) =
    let rest = line_min_sequence ls in if l.done then rest else min_with l.location_sequence rest

-- The three searches on the lines of the least sequence.
abbrev pub is_startable : ℕ → Line → Bool
is_startable m l =
    not l.done && not (is_some l.job_uuid) && l.location_sequence == m && not l.run_procs

abbrev pub is_blocked : ℕ → Line → Bool
is_blocked m l = not l.done && is_some l.job_uuid && l.location_sequence == m && not l.run_procs

abbrev pub is_run_procs : ℕ → Line → Bool
is_run_procs m l = not l.done && l.location_sequence == m && l.run_procs

-- `line.write(values)` on the lines that satisfy the test
abbrev pub write_where : (Line → Bool) → (Line → Line) → List Line → List Line
write_where p f ls = map (λ l. if p l then f l else l) ls

-- `set_to_done`
abbrev pub set_to_done : ℕ → Line → Line
set_to_done now l = record l { done = true; date_done = some now }

abbrev pub set_job : ℕ → ℕ → Line → Line
set_job uuid now l = record l { job_uuid = some uuid; job_creation_date = some now }

abbrev pub delay : JobFunction → List ℕ → State → State
delay f ids s = record s {
  queue =
      s.queue
      ++ (record { uuid = s.next_uuid; function = f; ids = ids; state = JobState.pending } ∷ []);
  next_uuid = suc s.next_uuid;
}

-- The jobs of a line's uuid that are over, and all of them.
abbrev pub job_over : List Job → Line → Bool
job_over queue l = any (λ j. same_id l.job_uuid (some j.uuid) && is_over j.state) queue

abbrev pub job_known : List Job → Line → Bool
job_known queue l = any (λ j. same_id l.job_uuid (some j.uuid)) queue

-- The loop over the blocked lines: a line whose job is over is done, one whose job is gone is
-- launched again, and one whose job is under way is left.
abbrev pub unblock : List Job → Line → Line
unblock queue l =
    if job_over queue l
    then record l { done = true }
    else if not (job_known queue l)
    then record l { job_uuid = none }
    else l

abbrev pub is_to_relaunch : List Job → Line → Bool
is_to_relaunch queue l = not (job_over queue l) && not (job_known queue l)

-- `POP_PROCESS_CHUNK`
abbrev pub pop_process_chunk : ℕ
pop_process_chunk = 100

-- The `while controller_lines_no_run` loop: a job for each chunk of lines.
pub pop_chunks : ℕ → ℕ → List ℕ → State → State
pop_chunks zero now ids s = s
pop_chunks (suc fuel) now [] s = s
pop_chunks (suc fuel) now (i ∷ is) s =
    let chunk = take pop_process_chunk (i ∷ is) in
    let s' = delay JobFunction.pop_sub_process_orderpoints chunk s in
    pop_chunks fuel now (drop pop_process_chunk (i ∷ is))
      (record s' { lines = write_where (λ l. mem l.id chunk) (set_job s.next_uuid now) s.lines })

-- `process_orderpoints` in a job: the line of the job is done once the rules are processed.
abbrev pub finish_job : ℕ → ℕ → List Line → List Line
finish_job uuid now ls =
    write_where (λ l. same_id l.job_uuid (some uuid) && not l.done) (set_to_done now) ls

-- The loop without jobs: the identifier of the rule serves as the uuid.
pub process_lines : ℕ → List Line → List Line → List Line
process_lines now [] ls = ls
process_lines now (l ∷ todo) ls =
    let uuid : ℕ = elim l.orderpoint_id [ none ↦ 0 | some o ↦ o ] in
    process_lines now todo (
      finish_job uuid now
        (write_where (λ k. k.id == l.id) (λ k. record k { job_uuid = some uuid }) ls))

module _ (confirm : Bool → List Job → List Job) (now : ℕ) where
  -- The lines of the least sequence that run procurements.
  pub run_procs_lines : Bool → Bool → ℕ → State → State
  run_procs_lines jobify run_procurements m s =
      if any (is_run_procs m) s.lines
      then record s {
        lines = write_where (is_run_procs m) (set_to_done now) s.lines;
        queue = if run_procurements then confirm jobify s.queue else s.queue;
      }
      else s

  -- No line of the least sequence is left to start.
  pub update_blocked : Bool → Bool → ℕ → State → State
  update_blocked jobify run_procurements m s =
      let s' = record s { lines = write_where (is_blocked m) (unblock s.queue) s.lines } in
      if any (λ l. is_blocked m l && is_to_relaunch s.queue l) s.lines
      then s'
      else run_procs_lines jobify run_procurements m s'

  pub start_lines : Bool → ℕ → State → State
  start_lines jobify m s =
      let todo = keep (is_startable m) s.lines in
      if jobify
      then pop_chunks (length todo) now (map (λ l. l.id) todo) s
      else record s { lines = process_lines now todo s.lines }

  pub update_sequence : Bool → Bool → ℕ → State → State
  update_sequence jobify run_procurements m s =
      if is_confirmation_ok s
      then (if any (is_startable m) s.lines
          then start_lines jobify m s
          else update_blocked jobify run_procurements m s)
      else s

  -- `update_scheduler_controller`
  pub update_scheduler_controller : Bool → Bool → State → State
  update_scheduler_controller jobify run_procurements s =
      if is_any_stock_scheduler_blocking_process s then s else elim (line_min_sequence s.lines) [
        | none ↦ s
        | some m ↦ update_sequence jobify run_procurements m s
      ]

  -- The `pop_sub_process_orderpoints` job: a job for each line's rule, whose uuid the line takes.
  pub pop_job_orderpoint_process : List Line → State → State
  pop_job_orderpoint_process [] s = s
  pop_job_orderpoint_process (line ∷ todo) s =
      let s' =
        delay JobFunction.process_orderpoints
          (elim line.orderpoint_id [ none ↦ [] | some o ↦ o ∷ [] ]) s in
      pop_job_orderpoint_process todo
        (record s' { lines = write_where (λ l. l.id == line.id) (set_job s.next_uuid now) s.lines })

  -- `clean_scheduler_controller_lines`: lines done before the limit date are removed.
  pub clean_scheduler_controller_lines : ℕ → List Line → List Line
  clean_scheduler_controller_lines limit_date ls =
      keep (λ l. not (l.done && elim l.date_done [ none ↦ false | some d ↦ ltb d limit_date ])) ls

-- Opens an update, for the tests.
pub program : Unit {0}
unfolding update_scheduler_controller update_sequence update_blocked start_lines run_procs_lines
    pop_chunks process_lines
program = tt
