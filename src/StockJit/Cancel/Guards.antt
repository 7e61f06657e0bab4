-- ===== src/StockJit/Cancel/Guards.antt =====
-- stock_procurement_just_in_time: what a cancellation refuses, spares and marks.
use odoo_addons.Base.{
  ℕ, ◌≤◌, ◌≡◌, refl, ap, ◌∙◌, Bool, true, false, not, ◌&&◌, ◌||◌, some, List, [], ◌∷◌, ◌++◌, map,
  same_id, if◌then◌else◌, any, mem, length, arith, Bool-cases, inl, inr, In, here, there, keep-In,
  In-keep, In-map, map-In, mem-of_In,
}
use odoo_addons.StockJit.Cancel.{
  Context, Proc, ProcMove, Store, forbidden, is_done, is_cancel, is_protected,
  check_can_be_canceled, moves_of, ToUnlink, collect_move, collect_moves, collect, cancel,
  cancel_unless, find_proc, has_state_cancel, moves_to_cancel, propagate_context,
}

check-some :
    (context : Context) (recs : List Proc) (p : Proc)
    → In p recs
    → is_protected context p ≡ true
    → (q : Proc) × In q recs × (check_can_be_canceled context recs ≡ some q.id)
unfolding check_can_be_canceled
check-some context [] p m h = elim m [ ]
check-some context (r ∷ rs) p (here e) h =
    let t : is_protected context r ≡ true = rw e h in (r, here refl, rw t refl)
check-some context (r ∷ rs) p (there m) h = elim (Bool-cases (is_protected context r)) [
  | inl t ↦ (r, here refl, rw t refl)
  | inr t ↦ let (q, i, e) = check-some context rs p m h in (q, there i, rw t e)
]

module _ (super_cancel : Context → List ℕ → Store → Store) (in_itself : List ℕ → Bool) where
  -- When the scheduler cancels, and does not propagate another cancellation, a protected
  -- procurement among the records stops the whole cancellation by the exception on one of them.
  pub cancel-forbidden :
      (context : Context) (recs : List Proc) (s : Store) (p : Proc)
      → In p recs
      → p.protected_against_scheduler ≡ true
      → context.is_scheduler ≡ true
      → context.propagation_cancel ≡ false
      → (q : Proc) × In q recs × (cancel super_cancel in_itself context recs s ≡ forbidden q.id)
  unfolding cancel
  cancel-forbidden context recs s p m a b c =
      let (q, i, e) = check-some context recs p m (rw a (rw b (rw c refl))) in
      (q, i, ap (λ o. cancel_unless super_cancel in_itself o context (map (λ r. r.id) recs) s) e)

  -- A recordset with one record contains itself, so nothing is added to it.
  add-le :
      ((i : ℕ) → in_itself (i ∷ []) ≡ true)
      → (ps : List ℕ) (i : ℕ) (b c : Bool) → length ps ≤ 1
      → length (if not (in_itself ps) && b && c then ps ++ (i ∷ []) else ps) ≤ 1
  add-le one [] i b c h = elim (Bool-cases (not (in_itself []) && b && c)) [
    | inl t ↦ rw t (omega arith)
    | inr t ↦ rw t (omega arith)
  ]
  add-le one (x ∷ []) i b c h = rw (one x) (omega arith)
  add-le one (x ∷ y ∷ ys) i b c h = absurd (omega (arith, h))

  collect_move-le :
      ((i : ℕ) → in_itself (i ∷ []) ≡ true)
      → (s : Store) (i : ℕ) (t : ToUnlink) (m : ProcMove) → length t.procurements ≤ 1
      → length (collect_move super_cancel in_itself s i t m).procurements ≤ 1
  collect_move-le one s i t m h = elim (Bool-cases (is_cancel m.state)) [
    | inl c ↦ rw c (
        add-le one t.procurements i (has_state_cancel (find_proc i s.procs))
          (not (any (λ n. is_done n.state) (moves_of i s.moves))) h)
    | inr c ↦ rw c h
  ]

  collect_moves-le :
      ((i : ℕ) → in_itself (i ∷ []) ≡ true)
      → (s : Store) (i : ℕ) (ms : List ProcMove) (t : ToUnlink) → length t.procurements ≤ 1
      → length (collect_moves super_cancel in_itself s i ms t).procurements ≤ 1
  unfolding collect_moves
  collect_moves-le one s i [] t h = h
  collect_moves-le one s i (m ∷ ms) t h =
      collect_moves-le one s i ms (collect_move super_cancel in_itself s i t m)
        (collect_move-le one s i t m h)

  -- However many procurements a cancellation is for, at most one is marked to be unlinked, if a
  -- recordset of one record contains itself and the collection starts with at most one.
  pub collect-le :
      ((i : ℕ) → in_itself (i ∷ []) ≡ true)
      → (s : Store) (ids : List ℕ) (t : ToUnlink) → length t.procurements ≤ 1
      → length (collect super_cancel in_itself s ids t).procurements ≤ 1
  unfolding collect
  collect-le one s [] t h = h
  collect-le one s (i ∷ is) t h =
      collect-le one s is (collect_moves super_cancel in_itself s i (moves_of i s.moves) t)
        (collect_moves-le one s i (moves_of i s.moves) t h)

not_both : (a b c : Bool) → b ≡ true → ¬ ((a && not b && c) ≡ true)
not_both a b c h k = ground arith

moves_to_cancel-ignored :
    (context : Context) (ids : List ℕ) (s : Store) (i : ℕ)
    → mem i context.ignore_move_ids ≡ true
    → ¬ In i (moves_to_cancel context ids s)
unfolding moves_to_cancel
moves_to_cancel-ignored context ids s i ignored at =
    let (n, kept, e) = In-map (λ (n : ProcMove). n.id) _ i at in
    let (j, t) = keep-In _ s.moves kept in
    not_both (mem n.id ids) (mem n.id context.ignore_move_ids)
      (not (context.do_not_try_to_cancel_done_moves && is_done n.state))
      (ap (λ x. mem x context.ignore_move_ids) e ∙ ignored) t

-- The propagation of a cancellation to a procurement whose rule moves spares the moves of the
-- procurement that are done or canceled, in whichever cancellation of moves the context reaches.
pub propagate_context-spares :
    (context : Context) (p : Proc) (s s' : Store) (ids : List ℕ) (m : ProcMove)
    → p.rule_moves ≡ true
    → In m s.moves
    → same_id m.procurement_id (some p.id) ≡ true
    → (is_done m.state || is_cancel m.state) ≡ true
    → ¬ In m.id (moves_to_cancel (propagate_context context p s) ids s')
unfolding propagate_context
propagate_context-spares context p s s' ids m rule at own over =
    moves_to_cancel-ignored (propagate_context context p s) ids s' m.id (
      rw rule (
        mem-of_In (
          map-In (λ (n : ProcMove). n.id)
            (In-keep (λ n. is_done n.state || is_cancel n.state)
              (In-keep (λ n. same_id n.procurement_id (some p.id)) at own) over))))
