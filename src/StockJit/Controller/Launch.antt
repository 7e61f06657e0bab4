-- ===== src/StockJit/Controller/Launch.antt =====
-- stock_procurement_just_in_time: what an update launches, and what it does not wait for.
use mathlib.Core.List.{append-nil, append_assoc}
use odoo_addons.Base.{
  ℕ, zero, suc, ◌≤◌, ◌≡◌, refl, sym, ap, ◌∙◌, ◌⊎◌, inl, inr, Bool, true, false, some, List, [], ◌∷◌,
  ◌++◌, map, length, take, drop, keep, any, mem, In, here, there, In-keep, if◌then◌else◌,
  Bool-cases, arith, All, All_of_In, mem-of_In,
}
use odoo_addons.StockJit.Controller.{
  Line, Job, JobFunction, JobState, State, line_min_sequence, is_startable, write_where, set_job,
  delay, pop_process_chunk, pop_chunks, start_lines, update_sequence, update_scheduler_controller,
  is_confirmation_ok, is_any_stock_scheduler_blocking_process,
}

abbrev pub all_ids : List Job → List ℕ
all_ids [] = []
all_ids (j ∷ js) = j.ids ++ all_ids js

-- A job of the chunks: it pops at most a hundred lines.
abbrev pub IsPopJob : Job → Type 0
IsPopJob j =
    (j.function ≡ JobFunction.pop_sub_process_orderpoints) × (length j.ids ≤ pop_process_chunk)

take-drop : (n : ℕ) (ids : List ℕ) → take n ids ++ drop n ids ≡ ids
take-drop zero ids = refl
take-drop (suc n) [] = refl
take-drop (suc n) (i ∷ is) = ap (λ (l : List ℕ). i ∷ l) (take-drop n is)

length-take-le : (n : ℕ) (ids : List ℕ) → length (take n ids) ≤ n
length-take-le zero ids = omega arith
length-take-le (suc n) [] = omega arith
length-take-le (suc n) (i ∷ is) = omega (arith, length-take-le n is)

length-drop-le : (n : ℕ) (ids : List ℕ) → length (drop n ids) ≤ length ids
length-drop-le zero ids = omega arith
length-drop-le (suc n) [] = omega arith
length-drop-le (suc n) (i ∷ is) = omega (arith, length-drop-le n is)

mem-take-drop :
    (n a : ℕ) (ids : List ℕ)
    → mem a ids ≡ true
    → mem a (take n ids) ≡ false
    → mem a (drop n ids) ≡ true
mem-take-drop zero a ids h k = h
mem-take-drop (suc n) a [] h k = h
mem-take-drop (suc n) a (i ∷ is) h k = ground (arith, mem-take-drop n a is)

-- The jobs that are put at the end of the queue.
abbrev pub Popped : List ℕ → State → State → Type 0
Popped ids s s' =
    (jobs : List Job) × (s'.queue ≡ s.queue ++ jobs) × (all_ids jobs ≡ ids) × All IsPopJob jobs

pop_chunks-Popped :
    (fuel now : ℕ) (ids : List ℕ) (s : State)
    → length ids ≤ fuel
    → Popped ids s (pop_chunks fuel now ids s)
unfolding pop_chunks
pop_chunks-Popped zero now [] s h = ([], sym (append-nil s.queue), refl, tt)
pop_chunks-Popped zero now (i ∷ is) s h = absurd (omega arith)
pop_chunks-Popped (suc fuel) now [] s h = ([], sym (append-nil s.queue), refl, tt)
pop_chunks-Popped (suc fuel) now (i ∷ is) s h =
    let chunk = take pop_process_chunk (i ∷ is) in
    let rest = drop pop_process_chunk (i ∷ is) in
    let job : Job = record {
      uuid = s.next_uuid;
      function = JobFunction.pop_sub_process_orderpoints;
      ids = chunk;
      state = JobState.pending;
    } in
    let s' = delay JobFunction.pop_sub_process_orderpoints chunk s in
    let lines' = write_where (λ l. mem l.id chunk) (set_job s.next_uuid now) s.lines in
    let (jobs, q, a, p) =
      pop_chunks-Popped fuel now rest (record s' { lines = lines' })
        (omega (arith, length-drop-le 99 is)) in
    (
      job ∷ jobs,
      q ∙ append_assoc s.queue (job ∷ []) jobs,
      ap (λ (l : List ℕ). chunk ++ l) a ∙ take-drop pop_process_chunk (i ∷ is),
      ((refl, length-take-le pop_process_chunk (i ∷ is)), p),
    )

module _ (m : ℕ) where
  abbrev Waits : List ℕ → Line → Type 0
  Waits ids l = (mem l.id ids ≡ true) ⊎ (is_startable m l ≡ false)

  write-Waits :
      (n uuid now : ℕ) (ids : List ℕ) (ls : List Line)
      → All (Waits ids) ls
      → All (Waits (drop n ids)) (write_where (λ l. mem l.id (take n ids)) (set_job uuid now) ls)
  write-Waits n uuid now ids [] h = tt
  write-Waits n uuid now ids (l ∷ ls) h = (one l h.0, write-Waits n uuid now ids ls h.1)
    where
      one :
          (l : Line)
          → Waits ids l
          → Waits (drop n ids) (if mem l.id (take n ids) then set_job uuid now l else l)
      one l w = elim (Bool-cases (mem l.id (take n ids))) [
        | inl e ↦ rw e (inr (ground arith))
        | inr e ↦ rw e (elim w [ inl i ↦ inl (mem-take-drop n l.id ids i e) | inr k ↦ inr k ])
      ]

  none-Waits : (ls : List Line) → All (Waits []) ls → All (λ l. is_startable m l ≡ false) ls
  none-Waits [] h = tt
  none-Waits (l ∷ ls) h = (elim h.0 [ inl e ↦ cc | inr e ↦ e ], none-Waits ls h.1)

  pop_chunks-starts :
      (fuel now : ℕ) (ids : List ℕ) (s : State)
      → length ids ≤ fuel
      → All (Waits ids) s.lines
      → All (λ l. is_startable m l ≡ false) (pop_chunks fuel now ids s).lines
  unfolding pop_chunks
  pop_chunks-starts zero now [] s n h = none-Waits s.lines h
  pop_chunks-starts zero now (i ∷ is) s n h = absurd (omega arith)
  pop_chunks-starts (suc fuel) now [] s n h = none-Waits s.lines h
  pop_chunks-starts (suc fuel) now (i ∷ is) s n h =
      pop_chunks-starts fuel now (drop pop_process_chunk (i ∷ is)) _
        (omega (arith, length-drop-le 99 is))
        (write-Waits pop_process_chunk s.next_uuid now (i ∷ is) s.lines h)

In-map_id : {l : Line} {ls : List Line} → In l ls → In l.id (map (λ k. k.id) ls)
In-map_id (here e) = here (ap (λ (k : Line). k.id) e)
In-map_id (there i) = there (In-map_id i)

all_wait : (m : ℕ) (ls : List Line) → All (Waits m (map (λ k. k.id) (keep (is_startable m) ls))) ls
all_wait m ls = All_of_In (Waits m (map (λ k. k.id) (keep (is_startable m) ls))) ls one
  where
    one : (l : Line) → In l ls → Waits m (map (λ k. k.id) (keep (is_startable m) ls)) l
    one l i = elim (Bool-cases (is_startable m l)) [
      | inl e ↦ inl (mem-of_In (In-map_id (In-keep (is_startable m) i e)))
      | inr e ↦ inr e
    ]

length-map_id : (ls : List Line) → length (map (λ (k : Line). k.id) ls) ≡ length ls
length-map_id [] = refl
length-map_id (l ∷ ls) = ap suc (length-map_id ls)

module _ (confirm : Bool → List Job → List Job) (now : ℕ) where
  -- When nothing blocks the scheduler and lines of the least sequence wait, an update with jobs
  -- leaves none of them waiting: each is popped by exactly one of the jobs that it puts behind the
  -- queue, which pop at most a hundred lines each.
  pub update_starts :
      (run_procurements : Bool) (s : State) (m : ℕ)
      → is_any_stock_scheduler_blocking_process s ≡ false
      → line_min_sequence s.lines ≡ some m
      → is_confirmation_ok s ≡ true
      → any (is_startable m) s.lines ≡ true
      → let s' = update_scheduler_controller confirm now true run_procurements s in
        All (λ l. is_startable m l ≡ false) s'.lines
        × Popped (map (λ k. k.id) (keep (is_startable m) s.lines)) s s'
  unfolding update_scheduler_controller update_sequence start_lines
  update_starts run_procurements s m b e c w =
      let todo = keep (is_startable m) s.lines in
      let ids = map (λ (k : Line). k.id) todo in
      let fits : length ids ≤ length todo = omega (arith, length-map_id todo) in
      rw (b, e, c, w)
        (
          pop_chunks-starts m (length todo) now ids s fits (all_wait m s.lines),
          pop_chunks-Popped (length todo) now ids s fits,
        )
