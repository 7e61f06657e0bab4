-- ===== src/StockJit/Controller/Order.antt =====
-- stock_procurement_just_in_time: the sequences are processed in order.
use mathlib.Core.Path.{subst}
use odoo_addons.Base.{
  ℕ, zero, suc, ◌≤◌, ◌≡◌, refl, ap, ◌⊎◌, inl, inr, Bool, true, not, ◌&&◌, Option, none, some, List,
  [], ◌∷◌, map, ◌==◌, same_id, length, take, drop, keep, any, mem, In-of_mem, keep-In, In-map, In,
  here, there, if◌then◌else◌, Bool-cases, Option-cases, arith,
}
use odoo_addons.StockJit.Controller.{
  Line, Job, JobFunction, State, line_min_sequence, min_with, is_startable, is_blocked,
  is_run_procs, write_where, set_to_done, set_job, delay, unblock, is_to_relaunch,
  pop_process_chunk, pop_chunks, finish_job, process_lines, run_procs_lines, update_blocked,
  start_lines, update_sequence, update_scheduler_controller, pop_job_orderpoint_process,
  is_confirmation_ok, is_any_stock_scheduler_blocking_process,
}
use odoo_addons.StockJit.Controller.Evolution.{
  where_Keeps, DoneBelow, Evolves, Evolves-InOrder, Evolves-trans, IdsOf, IdsOf-where, InOrder,
  finish_Keeps, is_begun, mem-drop, mem-take, one_write, run_procs_Keeps, unblock-Keeps,
  write-InOrder, stay,
}

pop_chunks-Evolves :
    (m fuel now : ℕ) (ids : List ℕ) (s : State)
    → IdsOf m ids s.lines
    → Evolves m s.lines (pop_chunks fuel now ids s).lines
unfolding pop_chunks
pop_chunks-Evolves m zero now ids s h = stay
pop_chunks-Evolves m (suc fuel) now [] s h = stay
pop_chunks-Evolves m (suc fuel) now (i ∷ is) s h =
    let chunk = take pop_process_chunk (i ∷ is) in
    let w =
      where_Keeps m s.lines (λ l. mem l.id chunk) (set_job s.next_uuid now) (λ l. refl) (λ l e. e)
        (λ l at e b. inr (h l at (mem-take pop_process_chunk l.id (i ∷ is) e))) in
    let s' = delay JobFunction.pop_sub_process_orderpoints chunk s in
    let lines' = write_where (λ l. mem l.id chunk) (set_job s.next_uuid now) s.lines in
    Evolves-trans (one_write w) (
      pop_chunks-Evolves m fuel now (drop pop_process_chunk (i ∷ is)) (record s' { lines = lines' })
        (IdsOf-where m _ (λ l. mem l.id chunk) (set_job s.next_uuid now) s.lines (λ l. (refl, refl))
          (λ l at e. h l at (mem-drop pop_process_chunk l.id (i ∷ is) e))))

abbrev ids_of : List Line → List ℕ
ids_of ls = map (λ l. l.id) ls

process_lines-Evolves :
    (m now : ℕ) (todo ls : List Line)
    → IdsOf m (ids_of todo) ls
    → Evolves m ls (process_lines now todo ls)
unfolding process_lines
process_lines-Evolves m now [] ls h = stay
process_lines-Evolves m now (t ∷ ts) ls h =
    let uuid : ℕ = elim t.orderpoint_id [ none ↦ 0 | some o ↦ o ] in
    let ls' = write_where (λ k. k.id == t.id) (λ k. record k { job_uuid = some uuid }) ls in
    let w =
      where_Keeps m ls (λ k. k.id == t.id) (λ k. record k { job_uuid = some uuid }) (λ l. refl)
        (λ l e. e) (λ l at e b. inr (h l at (ground arith))) in
    Evolves-trans (one_write w) (
      Evolves-trans (one_write (finish_Keeps m uuid now ls')) (
        process_lines-Evolves m now ts (finish_job uuid now ls') (
          IdsOf-where m _ (λ l. same_id l.job_uuid (some uuid) && not l.done) (set_to_done now) ls'
            (λ l. (refl, refl))
            (IdsOf-where m _ (λ k. k.id == t.id) (λ k. record k { job_uuid = some uuid }) ls
              (λ l. (refl, refl)) (λ l at e. h l at (ground arith))))))

-- No two lines have one identifier.
abbrev pub UniqueIds : List Line → Type 0
UniqueIds ls = (l k : Line) → In l ls → In k ls → l.id ≡ k.id → l ≡ k

startable-IdsOf :
    (m : ℕ) (ls : List Line) → UniqueIds ls → IdsOf m (ids_of (keep (is_startable m) ls)) ls
startable-IdsOf m ls u l at e =
    let (k, i, q) =
      In-map (λ (l : Line). l.id) (keep (is_startable m) ls) l.id (In-of_mem l.id _ e) in
    let (at', t) = keep-In (is_startable m) ls i in
    let same : k ≡ l = u k l at' at q in rw (← same) (ground arith)

abbrev AtLeast : Option ℕ → ℕ → Type 0
AtLeast none n = ⊥
AtLeast (some m) n = m ≤ n

min_with-le : (a : ℕ) (o : Option ℕ) → AtLeast (min_with a o) a
min_with-le a none = omega arith
min_with-le a (some m) = ground arith

min_with-weak : (a n : ℕ) (o : Option ℕ) → AtLeast o n → AtLeast (min_with a o) n
min_with-weak a n none h = elim h [ ]
min_with-weak a n (some m) h = ground arith

line_min-le :
    (ls : List Line) (k : Line)
    → In k ls
    → (k.done ≡ true) ⊎ AtLeast (line_min_sequence ls) k.location_sequence
line_min-le [] k i = elim i [ ]
line_min-le (l ∷ ls) k (here e) = elim (Bool-cases l.done) [
  | inl d ↦ inl (rw e at d)
  | inr d ↦ inr (
      rw d (
        subst (λ (n : ℕ). AtLeast (min_with l.location_sequence (line_min_sequence ls)) n)
          (ap (λ (x : Line). x.location_sequence) e)
          (min_with-le l.location_sequence (line_min_sequence ls))))
]
line_min-le (l ∷ ls) k (there i) = elim (line_min-le ls k i) [
  | inl d ↦ inl d
  | inr b ↦ inr (elim (Bool-cases l.done) [
    | inl d ↦ rw d b
    | inr d ↦ rw d (min_with-weak l.location_sequence k.location_sequence (line_min_sequence ls) b)
  ])
]

line_min-DoneBelow : (ls : List Line) (m : ℕ) → line_min_sequence ls ≡ some m → DoneBelow m ls
line_min-DoneBelow ls m h k i lt = elim (line_min-le ls k i) [
  | inl d ↦ d
  | inr b ↦ let b' : m ≤ k.location_sequence = rw h at b in absurd (omega arith)
]

module _ (confirm : Bool → List Job → List Job) (now : ℕ) (jobify run_procurements : Bool) where
  run_procs-Evolves :
      (m : ℕ) (s : State)
      → Evolves m s.lines (run_procs_lines confirm now jobify run_procurements m s).lines
  unfolding run_procs_lines
  run_procs-Evolves m s = elim (Bool-cases (any (is_run_procs m) s.lines)) [
    | inl e ↦ rw e (one_write (run_procs_Keeps m now s.lines))
    | inr e ↦ rw e stay
  ]

  blocked-Evolves :
      (m : ℕ) (s : State)
      → Evolves m s.lines (update_blocked confirm now jobify run_procurements m s).lines
  unfolding update_blocked
  blocked-Evolves m s =
      elim (Bool-cases (any (λ l. is_blocked m l && is_to_relaunch s.queue l) s.lines)) [
        | inl e ↦ rw e (one_write (unblock-Keeps m s.lines s.queue))
        | inr e ↦ rw e (
            Evolves-trans (one_write (unblock-Keeps m s.lines s.queue)) (
              run_procs-Evolves m
                (record s { lines = write_where (is_blocked m) (unblock s.queue) s.lines })))
      ]

  start-Evolves :
      (m : ℕ) (s : State)
      → UniqueIds s.lines
      → Evolves m s.lines (start_lines confirm now jobify m s).lines
  unfolding start_lines
  start-Evolves m s u =
      let todo = keep (is_startable m) s.lines in
      let ids = startable-IdsOf m s.lines u in
      elim (Bool-cases jobify) [
        | inl e ↦ rw e (pop_chunks-Evolves m (length todo) now (ids_of todo) s ids)
        | inr e ↦ rw e (process_lines-Evolves m now todo s.lines ids)
      ]

  sequence-Evolves :
      (m : ℕ) (s : State)
      → UniqueIds s.lines
      → Evolves m s.lines (update_sequence confirm now jobify run_procurements m s).lines
  unfolding update_sequence
  sequence-Evolves m s u = elim (Bool-cases (is_confirmation_ok s)) [
    | inl c ↦ elim (Bool-cases (any (is_startable m) s.lines)) [
      | inl e ↦ rw (c, e) (start-Evolves m s u)
      | inr e ↦ rw (c, e) (blocked-Evolves m s)
    ]
    | inr c ↦ rw c stay
  ]

  -- An update keeps the order of the sequences: a line is begun only when every line of a lower
  -- sequence is done. The lines have distinct identifiers.
  pub update-InOrder :
      (s : State)
      → UniqueIds s.lines
      → InOrder s.lines
      → InOrder (update_scheduler_controller confirm now jobify run_procurements s).lines
  unfolding update_scheduler_controller
  update-InOrder s u h = elim (Bool-cases (is_any_stock_scheduler_blocking_process s)) [
    | inl b ↦ rw b h
    | inr b ↦ elim (Option-cases (line_min_sequence s.lines)) [
      | inl e ↦ rw (b, e) h
      | inr (m, e) ↦
          rw (b, e) (Evolves-InOrder (sequence-Evolves m s u) (line_min-DoneBelow s.lines m e) h).0
    ]
  ]

-- The lines with these identifiers are begun.
abbrev pub BegunIds : List ℕ → List Line → Type 0
BegunIds ids ls = (l : Line) → In l ls → mem l.id ids ≡ true → is_begun l ≡ true

set_job-BegunIds :
    (ids : List ℕ) (p : Line → Bool) (uuid now : ℕ) (ls : List Line)
    → BegunIds ids ls
    → BegunIds ids (write_where p (set_job uuid now) ls)
set_job-BegunIds ids p uuid now ls h b i e =
    let (a, at, q) = In-map (λ l. if p l then set_job uuid now l else l) ls b i in
    elim (Bool-cases (p a)) [
      | inl t ↦ let q' : set_job uuid now a ≡ b = rw t at q in rw (← q') (refl)
      | inr t ↦ let q' : a ≡ b = rw t at q in rw (← q') (h a at (rw q' e))
    ]

-- The job that puts one job for each of its lines keeps the order, if its lines have been begun,
-- as an update leaves them.
pub pop_job-InOrder :
    (confirm : Bool → List Job → List Job) (now : ℕ) (todo : List Line) (s : State)
    → BegunIds (ids_of todo) s.lines
    → InOrder s.lines
    → InOrder (pop_job_orderpoint_process confirm now todo s).lines
unfolding pop_job_orderpoint_process
pop_job-InOrder confirm now [] s b h = h
pop_job-InOrder confirm now (t ∷ ts) s b h =
    let p : Line → Bool = λ l. l.id == t.id in
    let w =
      where_Keeps 0 s.lines p (set_job s.next_uuid now) (λ l. refl) (λ l e. e)
        (λ l at e q. inl (b l at (ground arith))) in
    let below : DoneBelow 0 s.lines = λ k at lt. absurd (omega arith) in
    let h' =
      write-InOrder 0 (λ l. if p l then set_job s.next_uuid now l else l) s.lines w below h in
    let s' =
      delay JobFunction.process_orderpoints (elim t.orderpoint_id [ none ↦ [] | some o ↦ o ∷ [] ])
        s in
    pop_job-InOrder confirm now ts
      (record s' { lines = write_where p (set_job s.next_uuid now) s.lines })
      (set_job-BegunIds (ids_of ts) p s.next_uuid now s.lines (λ l at e. b l at (ground arith))) h'
