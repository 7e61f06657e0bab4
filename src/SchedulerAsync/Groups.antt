-- ===== src/SchedulerAsync/Groups.antt =====
-- scheduler_async/scheduler_async.py: the groups of `run_confirm_moves`.
use mathlib.Core.Path.{subst}
use mathlib.Core.List.{append-nil, append_assoc}
use odoo_addons.Base.{
  ℕ, ◌≡◌, refl, sym, ap, ◌∙◌, true, false, Option, none, some, List, [], ◌∷◌, ◌++◌, map, same_id,
  if◌then◌else◌, keep, arith, Bool-cases, inl, inr, In, here, there, In-keep, map-In,
}
use odoo_addons.SchedulerAsync.{Key, Move, key_of, same_key, append_to, group_moves}

same_id_eq : (a b : Option ℕ) → same_id a b ≡ true → a ≡ b
same_id_eq none none h = refl
same_id_eq none (some b) h = cc
same_id_eq (some a) none h = cc
same_id_eq (some a) (some b) h = ground arith

key_eq :
    (a b : Key)
    → a.group_id ≡ b.group_id
    → a.location_id ≡ b.location_id
    → a.location_dest_id ≡ b.location_dest_id
    → a ≡ b
key_eq a b g l d = cc

same_key_eq : (a b : Key) → same_key a b ≡ true → a ≡ b
same_key_eq a b h =
    let g : same_id a.group_id b.group_id ≡ true = ground arith in
    key_eq a b (same_id_eq a.group_id b.group_id g) (ground arith) (ground arith)

same_key_refl : (a : Key) → same_key a a ≡ true
same_key_refl a = let g : same_id a.group_id a.group_id ≡ true = own a.group_id in ground arith
  where
    own : (o : Option ℕ) → same_id o o ≡ true
    own none = refl
    own (some i) = ground arith

-- The list under a key: the first entry that has it.
abbrev pub lookup : Key → List (Key × List ℕ) → List ℕ
lookup k [] = []
lookup k ((h, ids) ∷ groups) = let rest = lookup k groups in if same_key k h then ids else rest

lookup-append_to :
    (k k' : Key) (i : ℕ) (groups : List (Key × List ℕ))
    → lookup k (append_to k' i groups) ≡ lookup k groups ++ (if same_key k k' then i ∷ [] else [])
lookup-append_to k k' i [] = refl
lookup-append_to k k' i ((h, ids) ∷ groups) = elim (Bool-cases (same_key k' h)) [
  | inl t ↦
      let q = same_key_eq k' h t in
      elim (Bool-cases (same_key k h)) [
        | inl e ↦ let e' : same_key k k' ≡ true = rw q e in rw t (rw e (rw e' refl))
        | inr e ↦
            let e' : same_key k k' ≡ false = rw q e in
            rw t (rw e (rw e' (sym (append-nil (lookup k groups)))))
      ]
  | inr t ↦ elim (Bool-cases (same_key k h)) [
    | inl e ↦ elim (Bool-cases (same_key k k')) [
      | inl e' ↦ let t' : same_key k h ≡ false = rw (same_key_eq k k' e') t in cc
      | inr e' ↦ rw t (rw e (rw e' (sym (append-nil ids))))
    ]
    | inr e ↦ rw t (rw e (lookup-append_to k k' i groups))
  ]
]

-- Under each key the groups hold the moves with the key, in the order of the search, behind what
-- was there before.
pub lookup-group_moves :
    (k : Key) (groups : List (Key × List ℕ)) (ms : List Move)
    → lookup k (group_moves groups ms)
      ≡ lookup k groups ++ map (λ m. m.id) (keep (λ m. same_key k (key_of m)) ms)
unfolding group_moves
lookup-group_moves k groups [] = sym (append-nil (lookup k groups))
lookup-group_moves k groups (m ∷ ms) =
    let tail : List ℕ = map (λ m. m.id) (keep (λ m. same_key k (key_of m)) ms) in
    let there_too = lookup-append_to k (key_of m) m.id groups in
    let rest = lookup-group_moves k (append_to (key_of m) m.id groups) ms in
    elim (Bool-cases (same_key k (key_of m))) [
      | inl e ↦
          let found : lookup k (append_to (key_of m) m.id groups) ≡ lookup k groups ++ (m.id ∷ []) =
            rw e at there_too in
          rw e
            (rest ∙ ap (λ xs. xs ++ tail) found ∙ append_assoc (lookup k groups) (m.id ∷ []) tail)
      | inr e ↦
          let found : lookup k (append_to (key_of m) m.id groups) ≡ lookup k groups ++ [] =
            rw e at there_too in
          rw e (rest ∙ ap (λ xs. xs ++ tail) (found ∙ append-nil (lookup k groups)))
    ]

lookup-In :
    (k : Key) (groups : List (Key × List ℕ)) (i : ℕ)
    → In i (lookup k groups)
    → (g : Key × List ℕ) × In g groups × In i g.1
lookup-In k [] i m = elim m [ ]
lookup-In k ((h, ids) ∷ groups) i m = elim (Bool-cases (same_key k h)) [
  | inl e ↦ ((h, ids), here refl, rw e at m)
  | inr e ↦ let (g, j, n) = lookup-In k groups i (rw e at m) in (g, there j, n)
]

-- Each move is in some group.
pub grouped-In :
    (ms : List Move) (m : Move)
    → In m ms
    → (g : Key × List ℕ) × In g (group_moves [] ms) × In m.id g.1
grouped-In ms m i = lookup-In (key_of m) (group_moves [] ms) m.id (
    subst (In m.id) (sym (lookup-group_moves (key_of m) [] ms)) (
      map-In (λ (n : Move). n.id)
        (In-keep (λ n. same_key (key_of m) (key_of n)) i (same_key_refl (key_of m)))))
