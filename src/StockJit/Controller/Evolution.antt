-- ===== src/StockJit/Controller/Evolution.antt =====
-- stock_procurement_just_in_time: writes on the controller lines that begin one sequence at most.

use odoo_addons.Base.{
  ℕ, zero, suc, ◌<◌, ◌≡◌, refl, sym, ap, ◌∙◌, ◌⊎◌, inl, inr, Bool, true, not, ◌&&◌, ◌||◌, some,
  List, [], ◌∷◌, map, is_some, same_id, take, drop, mem, In-map, In, if◌then◌else◌, Bool-cases,
  arith,
}
use odoo_addons.StockJit.Controller.{
  Line, Job, is_blocked, is_run_procs, write_where, set_to_done, unblock,
}

-- A job has been launched for the line, or it is done.
abbrev pub is_begun : Line → Bool
is_begun l = is_some l.job_uuid || l.done

-- A line of a sequence is begun only when all lines of the lower sequences are done.
abbrev pub InOrder : List Line → Type 0
InOrder ls =
    (l k : Line)
    → In l ls
    → In k ls
    → is_begun l ≡ true
    → k.location_sequence < l.location_sequence
    → k.done ≡ true

-- Lines below the sequence are done.
abbrev pub DoneBelow : ℕ → List Line → Type 0
DoneBelow m ls = (k : Line) → In k ls → k.location_sequence < m → k.done ≡ true

-- A write that begins only lines of one sequence and undoes none.
pub record Keeps (m : ℕ) (ls : List Line) (f : Line → Line) : Type 0 where
  pub sequence : (l : Line) → (f l).location_sequence ≡ l.location_sequence
  pub stays_done : (l : Line) → l.done ≡ true → (f l).done ≡ true
  pub begins :
      (l : Line) → In l ls → is_begun (f l) ≡ true → (is_begun l ≡ true) ⊎ (l.location_sequence ≡ m)

-- What an operation does to the lines: such writes one after another.
pub data Evolves (m : ℕ) : List Line → List Line → Type 0 where
  stay : {ls : List Line} → Evolves m ls ls
  write :
      {ls ls' : List Line} (f : Line → Line)
      → Keeps m ls f
      → Evolves m (map f ls) ls'
      → Evolves m ls ls'

pub write-DoneBelow :
    (m : ℕ) (f : Line → Line) (ls : List Line)
    → Keeps m ls f
    → DoneBelow m ls
    → DoneBelow m (map f ls)
write-DoneBelow m f ls k h b i lt =
    let (a, at, e) = In-map f ls b i in
    let lt' : a.location_sequence < m =
      omega (arith, ap (λ (l : Line). l.location_sequence) e, k.sequence a) in
    rw (← e) (k.stays_done a (h a at lt'))

pub write-InOrder :
    (m : ℕ) (f : Line → Line) (ls : List Line)
    → Keeps m ls f
    → DoneBelow m ls
    → InOrder ls
    → InOrder (map f ls)
write-InOrder m f ls k below h b c i j begun lt =
    let (a, at, e) = In-map f ls b i in
    let (d, at', e') = In-map f ls c j in
    let lt' : d.location_sequence < a.location_sequence = omega (
      arith,
      ap (λ (l : Line). l.location_sequence) e,
      k.sequence a,
      ap (λ (l : Line). l.location_sequence) e',
      k.sequence d,
    ) in
    let d_done : d.done ≡ true = elim (k.begins a at (rw e begun)) [
      | inl old ↦ h a d at at' old lt'
      | inr seq ↦ below d at' (omega arith)
    ] in
    rw (← e') (k.stays_done d d_done)

pub Evolves-InOrder :
    {m : ℕ} {ls ls' : List Line}
    → Evolves m ls ls'
    → DoneBelow m ls
    → InOrder ls
    → InOrder ls' × DoneBelow m ls'
Evolves-InOrder stay d h = (h, d)
Evolves-InOrder {m} {ls} (write f k rest) d h =
    Evolves-InOrder rest (write-DoneBelow m f ls k d) (write-InOrder m f ls k d h)

-- Writes where a test holds.
module _ (m : ℕ) (ls : List Line) (p : Line → Bool) (f : Line → Line) where
  pub where_Keeps :
      ((l : Line) → (f l).location_sequence ≡ l.location_sequence)
      → ((l : Line) → l.done ≡ true → (f l).done ≡ true)
      → ((l : Line)
          → In l ls
          → p l ≡ true
          → is_begun (f l) ≡ true
          → (is_begun l ≡ true) ⊎ (l.location_sequence ≡ m))
      → Keeps m ls (λ l. if p l then f l else l)
  where_Keeps s d b = record {
    sequence = λ l. ground (arith, s l);
    stays_done = λ l h. ground (arith, d l h);
    begins =
        λ l i h. elim (Bool-cases (p l)) [ inl e ↦ b l i e (rw e at h) | inr e ↦ inl (rw e at h) ];
  }

pub one_write : {m : ℕ} {ls : List Line} {f : Line → Line} → Keeps m ls f → Evolves m ls (map f ls)
one_write {f = f} k = write f k stay

pub Evolves-trans : {m : ℕ} {a b c : List Line} → Evolves m a b → Evolves m b c → Evolves m a c
Evolves-trans stay e = e
Evolves-trans (write f k r) e = write f k (Evolves-trans r e)

pub unblock-Keeps :
    (m : ℕ) (ls : List Line) (queue : List Job)
    → Keeps m ls (λ l. if is_blocked m l then unblock queue l else l)
unblock-Keeps m ls queue =
    where_Keeps m ls (is_blocked m) (unblock queue) (λ l. ground arith) (λ l h. ground arith)
      (λ l i h k. ground arith)

pub run_procs_Keeps :
    (m now : ℕ) (ls : List Line)
    → Keeps m ls (λ l. if is_run_procs m l then set_to_done now l else l)
run_procs_Keeps m now ls =
    where_Keeps m ls (is_run_procs m) (set_to_done now) (λ l. refl) (λ l h. refl)
      (λ l i h k. ground arith)

pub finish_Keeps :
    (m uuid now : ℕ) (ls : List Line)
    → Keeps m ls
        (λ l. if same_id l.job_uuid (some uuid) && not l.done then set_to_done now l else l)
finish_Keeps m uuid now ls =
    where_Keeps m ls (λ l. same_id l.job_uuid (some uuid) && not l.done) (set_to_done now)
      (λ l. refl) (λ l h. refl) (λ l i h k. inl (ground arith))

-- The identifiers belong to lines of the sequence.
abbrev pub IdsOf : ℕ → List ℕ → List Line → Type 0
IdsOf m ids ls = (l : Line) → In l ls → mem l.id ids ≡ true → l.location_sequence ≡ m

pub IdsOf-map :
    (m : ℕ) (ids : List ℕ) (f : Line → Line) (ls : List Line)
    → ((l : Line) → ((f l).id ≡ l.id) × ((f l).location_sequence ≡ l.location_sequence))
    → IdsOf m ids ls
    → IdsOf m ids (map f ls)
IdsOf-map m ids f ls k h b i e =
    let (a, at, q) = In-map f ls b i in
    let same : b.id ≡ a.id = ap (λ (l : Line). l.id) (sym q) ∙ (k a).0 in
    ap (λ (l : Line). l.location_sequence) (sym q) ∙ (k a).1 ∙ h a at (rw same at e)

pub IdsOf-where :
    (m : ℕ) (ids : List ℕ) (p : Line → Bool) (f : Line → Line) (ls : List Line)
    → ((l : Line) → ((f l).id ≡ l.id) × ((f l).location_sequence ≡ l.location_sequence))
    → IdsOf m ids ls
    → IdsOf m ids (write_where p f ls)
IdsOf-where m ids p f ls k =
    IdsOf-map m ids (λ l. if p l then f l else l) ls
      (λ l. elim (Bool-cases (p l)) [ inl e ↦ rw e (k l) | inr e ↦ rw e (refl, refl) ])

pub mem-take : (n a : ℕ) (ids : List ℕ) → mem a (take n ids) ≡ true → mem a ids ≡ true
mem-take zero a ids h = cc
mem-take (suc n) a [] h = cc
mem-take (suc n) a (i ∷ is) h = ground (arith, mem-take n a is)

pub mem-drop : (n a : ℕ) (ids : List ℕ) → mem a (drop n ids) ≡ true → mem a ids ≡ true
mem-drop zero a ids h = h
mem-drop (suc n) a [] h = h
mem-drop (suc n) a (i ∷ is) h = ground (arith, mem-drop n a is)
