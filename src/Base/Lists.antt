-- ===== src/Base/Lists.antt =====
-- Lists measured by native numbers, with Boolean filters and tests that run.
use Prim.Native.Nat.{ℕ, zero, suc, ◌+◌, ◌≤◌}
use mathlib.Core.Path.{◌≡◌, refl, ap, subst}
use mathlib.Core.Logic.{◌⊎◌, inl, inr}
use mathlib.Core.Bool.{Bool, true, false, ◌||◌}
use mathlib.Core.List.{List, [], ◌∷◌, ◌++◌, map}
use native.Mathlib.Omega.{arith}
use odoo_addons.Base.Tests.{◌==◌, if◌then◌else◌, Bool-cases}

module _ {ℓ} {A : Type ℓ} where
  abbrev pub length : List A → ℕ
  length [] = 0
  length (x ∷ xs) = suc (length xs)

  abbrev pub take : ℕ → List A → List A
  take zero xs = []
  take (suc n) [] = []
  take (suc n) (x ∷ xs) = x ∷ take n xs

  abbrev pub drop : ℕ → List A → List A
  drop zero xs = xs
  drop (suc n) [] = []
  drop (suc n) (x ∷ xs) = drop n xs

  -- `[x for x in xs if p(x)]`
  abbrev pub keep : (A → Bool) → List A → List A
  keep p [] = []
  keep p (x ∷ xs) = if p x then x ∷ keep p xs else keep p xs

  -- `any([p(x) for x in xs])`
  abbrev pub any : (A → Bool) → List A → Bool
  any p [] = false
  any p (x ∷ xs) = p x || any p xs

  pub length-append : (xs ys : List A) → length (xs ++ ys) ≡ length xs + length ys
  length-append [] ys = omega arith
  length-append (x ∷ xs) ys = omega (arith, length-append xs ys)

  pub length-keep : (p : A → Bool) (xs : List A) → length (keep p xs) ≤ length xs
  length-keep p [] = omega arith
  length-keep p (x ∷ xs) = ground (arith, length-keep p xs)

-- A predicate of every item, by recursion: it computes to tuples.
abbrev pub All {ℓ κ} : {A : Type ℓ} → (A → Type κ) → List A → Type κ
All P [] = Unit
All P (x ∷ xs) = P x × All P xs

-- `a in xs`
abbrev pub mem : ℕ → List ℕ → Bool
mem a [] = false
mem a (x ∷ xs) = a == x || mem a xs

-- Membership as a place in the list.
pub data In {A : Type 0} (a : A) : List A → Type 0 where
  here : {x : A} {xs : List A} → x ≡ a → In a (x ∷ xs)
  there : {x : A} {xs : List A} → In a xs → In a (x ∷ xs)

module _ {A : Type 0} where
  pub All_at : (P : A → Type 0) {a : A} {xs : List A} → In a xs → All P xs → P a
  All_at P (here e) h = subst P e h.0
  All_at P (there m) h = All_at P m h.1

  pub All_of_In : (P : A → Type 0) (xs : List A) → ((a : A) → In a xs → P a) → All P xs
  All_of_In P [] h = tt
  All_of_In P (x ∷ xs) h = (h x (here refl), All_of_In P xs (λ a m. h a (there m)))

  pub In-append_left : {a : A} {xs : List A} (ys : List A) → In a xs → In a (xs ++ ys)
  In-append_left ys (here e) = here e
  In-append_left ys (there m) = there (In-append_left ys m)

  pub In-append_right : {a : A} (xs : List A) {ys : List A} → In a ys → In a (xs ++ ys)
  In-append_right [] m = m
  In-append_right (x ∷ xs) m = there (In-append_right xs m)

  pub In-append : {a : A} (xs ys : List A) → In a (xs ++ ys) → In a xs ⊎ In a ys
  In-append [] ys m = inr m
  In-append (x ∷ xs) ys (here e) = inl (here e)
  In-append (x ∷ xs) ys (there m) = elim (In-append xs ys m) [
    | inl i ↦ inl (there i)
    | inr j ↦ inr j
  ]

  pub keep-In : (p : A → Bool) {a : A} (xs : List A) → In a (keep p xs) → In a xs × (p a ≡ true)
  keep-In p [] m = elim m [ ]
  keep-In p {a} (x ∷ xs) m = elim (Bool-cases (p x)) [
    | inl e ↦ kept (keep-In p xs) e (rw e at m)
    | inr e ↦ let (i, t) = keep-In p xs (rw e at m) in (there i, t)
  ]
    where
      kept :
          (In a (keep p xs) → In a xs × (p a ≡ true))
          → p x ≡ true
          → In a (x ∷ keep p xs)
          → In a (x ∷ xs) × (p a ≡ true)
      kept rest e (here q) = (here q, rw q at e)
      kept rest e (there r) = let (i, t) = rest r in (there i, t)

  pub In-keep : (p : A → Bool) {a : A} {xs : List A} → In a xs → p a ≡ true → In a (keep p xs)
  In-keep p (here {x} {xs} q) t = let e : p x ≡ true = rw q t in rw e (here q)
  In-keep p (there {x} {xs} m) t = elim (Bool-cases (p x)) [
    | inl e ↦ rw e (there (In-keep p m t))
    | inr e ↦ rw e (In-keep p m t)
  ]

pub mem-of_In : {a : ℕ} {xs : List ℕ} → In a xs → mem a xs ≡ true
mem-of_In (here e) = ground arith
mem-of_In (there m) = ground (arith, mem-of_In m)

pub In-of_mem : (a : ℕ) (xs : List ℕ) → mem a xs ≡ true → In a xs
In-of_mem a [] h = cc
In-of_mem a (x ∷ xs) h = elim (Bool-cases (a == x)) [
  | inl e ↦ here (ground arith)
  | inr e ↦ there (In-of_mem a xs (ground arith))
]

pub In-map :
    {A B : Type 0} (f : A → B) (xs : List A) (b : B)
    → In b (map f xs)
    → (a : A) × In a xs × (f a ≡ b)
In-map f [] b m = elim m [ ]
In-map f (x ∷ xs) b (here e) = (x, here refl, e)
In-map f (x ∷ xs) b (there m) = let (a, i, e) = In-map f xs b m in (a, there i, e)

pub map-In : {A B : Type 0} (f : A → B) {a : A} {xs : List A} → In a xs → In (f a) (map f xs)
map-In f (here e) = here (ap f e)
map-In f (there m) = there (map-In f m)
