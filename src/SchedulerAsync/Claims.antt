-- ===== src/SchedulerAsync/Claims.antt =====
-- scheduler_async/scheduler_async.py: every move that `run_confirm_moves` finds is claimed by a job.
use mathlib.Core.Path.{subst}
use odoo_addons.Base.{
  ℕ, ◌≡◌, refl, sym, ap, ◌∙◌, Bool, true, false, not, ◌&&◌, Option, some, List, [], ◌∷◌, ◌++◌,
  same_id, keep, any, mem, arith, Bool-cases, inl, inr, ◌⊎◌, In, here, there, In-map, mem-of_In,
}
use odoo_addons.StockJit.Levels.{is_draft}
use odoo_addons.SchedulerAsync.{
  Key, Job, Move, State, Task, is_free, claim, launch_group, launch_groups, group_moves,
  run_confirm_moves,
}
use odoo_addons.SchedulerAsync.Groups.{grouped-In}

-- The move's uuid is that of a job that is not over.
abbrev pub is_claimed : List Job → Option ℕ → Bool
is_claimed queue uuid = any (λ j. same_id uuid (some j.uuid) && not j.is_over) queue

is_claimed_of_busy :
    (queue : List Job) (uuid : Option ℕ) → is_free queue uuid ≡ false → is_claimed queue uuid ≡ true
is_claimed_of_busy queue uuid h = split queue (ground arith) (ground arith)
  where
    split :
        (queue : List Job)
        → any (λ j. same_id uuid (some j.uuid)) queue ≡ true
        → any (λ j. same_id uuid (some j.uuid) && j.is_over) queue ≡ false
        → is_claimed queue uuid ≡ true
    split [] a b = a
    split (j ∷ js) a b = elim (Bool-cases (same_id uuid (some j.uuid))) [
      | inl t ↦ ground arith
      | inr t ↦ rw t (split js (rw t at a) (rw t at b))
    ]

any-append_left :
    {A : Type 0} (p : A → Bool) (xs ys : List A) → any p xs ≡ true → any p (xs ++ ys) ≡ true
any-append_left p [] ys h = cc
any-append_left p (x ∷ xs) ys h = elim (Bool-cases (p x)) [
  | inl t ↦ rw t refl
  | inr t ↦ rw t (any-append_left p xs ys (rw t at h))
]

any-append_right :
    {A : Type 0} (p : A → Bool) (xs ys : List A) → any p ys ≡ true → any p (xs ++ ys) ≡ true
any-append_right p [] ys h = h
any-append_right p (x ∷ xs) ys h = elim (Bool-cases (p x)) [
  | inl t ↦ rw t refl
  | inr t ↦ rw t (any-append_right p xs ys h)
]

-- Every move of the list with an identifier among those given is claimed.
abbrev pub Claimed : List ℕ → State → Type 0
Claimed ids s =
    (m : Move) → In m s.moves → mem m.id ids ≡ true → is_claimed s.queue m.confirm_job_uuid ≡ true

module _ (ids : List ℕ) (s : State) where
  abbrev after : State
  after = launch_group ids s

  own_claimed : is_claimed after.queue (some s.next_uuid) ≡ true
  own_claimed =
      any-append_right (λ j. same_id (some s.next_uuid) (some j.uuid) && not j.is_over) s.queue
        (record { uuid = s.next_uuid; task = Task.confirm_moves ids; is_over = false } ∷ [])
        (ground arith)

  claim-claims :
      (m : Move)
      → (mem m.id ids ≡ true) ⊎ (is_claimed s.queue m.confirm_job_uuid ≡ true)
      → is_claimed after.queue (claim after.queue s.next_uuid ids m).confirm_job_uuid ≡ true
  claim-claims m h = elim (Bool-cases (mem m.id ids && is_free after.queue m.confirm_job_uuid)) [
    | inl t ↦ rw t own_claimed
    | inr t ↦ rw t (elim h [
      | inl i ↦ is_claimed_of_busy after.queue m.confirm_job_uuid (rw i at t)
      | inr c ↦
          any-append_left (λ j. same_id m.confirm_job_uuid (some j.uuid) && not j.is_over) s.queue
            (record { uuid = s.next_uuid; task = Task.confirm_moves ids; is_over = false } ∷ []) c
    ])
  ]

  claim-id : (m : Move) → (claim after.queue s.next_uuid ids m).id ≡ m.id
  claim-id m = elim (Bool-cases (mem m.id ids && is_free after.queue m.confirm_job_uuid)) [
    | inl t ↦ rw t refl
    | inr t ↦ rw t refl
  ]

  -- The launch of a group claims its moves, and those that were claimed stay claimed.
  launch_group-Claimed :
      (others : List ℕ) → Claimed others s → Claimed others after × Claimed ids after
  launch_group-Claimed others h = (
    (λ m i t.
        let (a, at, e) = In-map (claim after.queue s.next_uuid ids) s.moves m i in
        let t' : mem a.id others ≡ true =
          ap (λ x. mem x others) (sym (claim-id a) ∙ ap (λ (n : Move). n.id) e) ∙ t in
        ap (λ (n : Move). is_claimed after.queue n.confirm_job_uuid) (sym e)
        ∙ claim-claims a (inr (h a at t'))),
    λ m i t.
        let (a, at, e) = In-map (claim after.queue s.next_uuid ids) s.moves m i in
        let t' : mem a.id ids ≡ true =
          ap (λ x. mem x ids) (sym (claim-id a) ∙ ap (λ (n : Move). n.id) e) ∙ t in
        ap (λ (n : Move). is_claimed after.queue n.confirm_job_uuid) (sym e)
        ∙ claim-claims a (inl t'),
  )

launch_groups-keeps :
    (groups : List (Key × List ℕ)) (ids : List ℕ) (s : State)
    → Claimed ids s
    → Claimed ids (launch_groups groups s)
unfolding launch_groups
launch_groups-keeps [] ids s h = h
launch_groups-keeps ((k, own) ∷ groups) ids s h =
    launch_groups-keeps groups ids (launch_group own s) (launch_group-Claimed own s ids h).0

launch_groups-Claimed :
    (groups : List (Key × List ℕ)) (s : State) (g : Key × List ℕ)
    → In g groups
    → Claimed g.1 (launch_groups groups s)
unfolding launch_groups
launch_groups-Claimed [] s g i = elim i [ ]
launch_groups-Claimed ((k, own) ∷ groups) s g (here e) =
    launch_groups-keeps groups g.1 (launch_group own s) (
      subst (λ ids. Claimed ids (launch_group own s)) (ap (λ (x : Key × List ℕ). x.1) e)
        (launch_group-Claimed own s [] (λ m i t. absurd cc)).1)
launch_groups-Claimed ((k, own) ∷ groups) s g (there i) =
    launch_groups-Claimed groups (launch_group own s) g i

-- After a run with jobs, every move whose draft the search found has the uuid of a job that is not
-- over.
pub run_confirm_moves-Claimed :
    (search : List Move → List Move) (s : State) (d m : Move)
    → In d (search (keep (λ m. is_draft m.state) s.moves))
    → In m (run_confirm_moves search s).moves
    → m.id ≡ d.id
    → is_claimed (run_confirm_moves search s).queue m.confirm_job_uuid ≡ true
unfolding run_confirm_moves
run_confirm_moves-Claimed search s d m found at same =
    let drafts = search (keep (λ m. is_draft m.state) s.moves) in
    let (g, in_groups, in_group) = grouped-In drafts d found in
    launch_groups-Claimed (group_moves [] drafts) s g in_groups m at
      (ap (λ i. mem i g.1) same ∙ mem-of_In in_group)
