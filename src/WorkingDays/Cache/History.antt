-- ===== src/WorkingDays/Cache/History.antt =====
-- stock_working_days/stock_working_days.py: what a search of the table finds after the calls of
-- `schedule_days_get_date` since the table was emptied.
use odoo_addons.Base.{
  ℕ, ◌≡◌, refl, ap, sym, ◌∙◌, Bool, true, false, not, ◌&&◌, Option, none, some, List, [], ◌∷◌, ◌++◌,
  ◌==◌, same_id, if◌then◌else◌, arith, Bool-cases, Option-cases, inl, inr,
}
use odoo_addons.Base.Int.{ℤ, leb_ℤ, eq_of_parts}
use odoo_addons.WorkingDays.Cache.{
  Query, Delay, day_of, or_zero, same_bool, matches, dict_result, pre_compute_result, found_or,
  schedule_days_get_date,
}

-- A call: the context's `do_not_save_result`, the calendar and the arguments.
pub record Call (Calendar : Type 0) : Type 0 where
  pub do_not_save_result : Bool
  pub calendar : Calendar
  pub query : Query

-- The arguments agree in the columns of the table.
abbrev pub same_columns : Query → Query → Bool
same_columns q q' =
    leb_ℤ q.days q'.days
    && leb_ℤ q'.days q.days
    && same_id (day_of q.day_date) (day_of q'.day_date)
    && same_bool q.compute_leaves q'.compute_leaves
    && or_zero q.resource_id == or_zero q'.resource_id
    && same_id q.default_interval q'.default_interval

abbrev pub or_else : Option ℕ → Option ℕ → Option ℕ
or_else (some a) o = some a
or_else none o = o

abbrev pub or_date : Option ℕ → ℕ → ℕ
or_date none b = b
or_date (some a) b = a

same_id_eq : (a b : Option ℕ) → same_id a b ≡ true → a ≡ b
same_id_eq none none e = refl
same_id_eq none (some b) e = ground arith
same_id_eq (some a) none e = ground arith
same_id_eq (some a) (some b) e = ap some (ground (arith, e))

same_bool_eq : (a b : Bool) → same_bool a b ≡ true → a ≡ b
same_bool_eq true b e = sym e
same_bool_eq false true e = e
same_bool_eq false false e = refl

same_int : (a b : ℤ) → leb_ℤ a b ≡ true → leb_ℤ b a ≡ true → a ≡ b
same_int a b e f = eq_of_parts a b (ground (arith, e, f))

-- Arguments that agree in the columns find the same rows.
same_columns-matches :
    (q q' : Query) → same_columns q q' ≡ true → (d : Delay) → matches q d ≡ matches q' d
same_columns-matches q q' h d =
    let days : q.days ≡ q'.days = same_int q.days q'.days (ground (arith, h)) (ground (arith, h)) in
    let day = same_id_eq (day_of q.day_date) (day_of q'.day_date) (ground (arith, h)) in
    let leaves = same_bool_eq q.compute_leaves q'.compute_leaves (ground (arith, h)) in
    let resource : or_zero q.resource_id ≡ or_zero q'.resource_id = ground (arith, h) in
    let interval = same_id_eq q.default_interval q'.default_interval (ground (arith, h)) in
    rw (days, day, leaves, resource, interval) refl

same_columns-pre_compute_result :
    (q q' : Query)
    → same_columns q q' ≡ true
    → (table : List Delay) → pre_compute_result q table ≡ pre_compute_result q' table
same_columns-pre_compute_result q q' h [] = refl
same_columns-pre_compute_result q q' h (d ∷ ds) =
    rw (same_columns-matches q q' h d, same_columns-pre_compute_result q q' h ds) refl

pre_compute_result-append :
    (q : Query) (table : List Delay) (d : Delay)
    → pre_compute_result q (table ++ (d ∷ []))
      ≡ or_else (pre_compute_result q table) (if matches q d then some d.result else none)
pre_compute_result-append q [] d = refl
pre_compute_result-append q (e ∷ es) d = elim (Bool-cases (matches q e)) [
  | inl t ↦ rw t refl
  | inr t ↦ rw t (pre_compute_result-append q es d)
]

or_else-none : (o : Option ℕ) → or_else o none ≡ o
or_else-none none = refl
or_else-none (some a) = refl

or_else_assoc : (a b c : Option ℕ) → or_else (or_else a b) c ≡ or_else a (or_else b c)
or_else_assoc none b c = refl
or_else_assoc (some a) b c = refl

and_false : (b : Bool) → (b && false) ≡ false
and_false true = refl
and_false false = refl

module _ {Calendar : Type 0} (compute : Calendar → Query → ℕ) where
  -- The table after calls
  abbrev pub after : List (Call Calendar) → List Delay → List Delay
  after [] table = table
  after (c ∷ cs) table =
      after cs (schedule_days_get_date compute c.do_not_save_result c.calendar c.query table).1

  -- The date that openerp computed at the first call that agrees with the arguments, among those
  -- that may save their result.
  abbrev pub first_agreeing : Query → List (Call Calendar) → Option ℕ
  first_agreeing q [] = none
  first_agreeing q (c ∷ cs) =
      if not c.do_not_save_result && same_columns q c.query
      then some (compute c.calendar c.query)
      else first_agreeing q cs

  found-call :
      (q : Query) (c : Call Calendar) (table : List Delay)
      → pre_compute_result q (after (c ∷ []) table)
        ≡ or_else (pre_compute_result q table) (first_agreeing q (c ∷ []))
  unfolding schedule_days_get_date
  found-call q c table = go (pre_compute_result c.query table) refl
    where
      missed :
          (b : Bool)
          → pre_compute_result q (found_or compute b c.calendar c.query table none).1
            ≡ or_else (pre_compute_result q table) (
                if not b && same_columns q c.query then some (compute c.calendar c.query) else none)
      missed true = sym (or_else-none (pre_compute_result q table))
      missed false =
          pre_compute_result-append q table (dict_result c.query (compute c.calendar c.query))

      go :
          (o : Option ℕ)
          → pre_compute_result c.query table ≡ o
          → pre_compute_result q
              (found_or compute c.do_not_save_result c.calendar c.query table o).1
            ≡ or_else (pre_compute_result q table) (first_agreeing q (c ∷ []))
      go none miss = missed c.do_not_save_result
      go (some date) hit = elim (Bool-cases (same_columns q c.query)) [
        | inl agree ↦
            let e : pre_compute_result q table ≡ some date =
              same_columns-pre_compute_result q c.query agree table ∙ hit in
            rw e refl
        | inr differ ↦
            rw differ rw (and_false (not c.do_not_save_result))
              (sym (or_else-none (pre_compute_result q table)))
      ]

  first_agreeing-cons :
      (q : Query) (c : Call Calendar) (cs : List (Call Calendar))
      → first_agreeing q (c ∷ cs) ≡ or_else (first_agreeing q (c ∷ [])) (first_agreeing q cs)
  first_agreeing-cons q c cs =
      elim (Bool-cases (not c.do_not_save_result && same_columns q c.query)) [
        | inl e ↦ rw e refl
        | inr e ↦ rw e refl
      ]

  -- A search finds what the table held, or else the date of the first call that agrees.
  pub pre_compute_result-after :
      (q : Query) (calls : List (Call Calendar)) (table : List Delay)
      → pre_compute_result q (after calls table)
        ≡ or_else (pre_compute_result q table) (first_agreeing q calls)
  pre_compute_result-after q [] table = sym (or_else-none (pre_compute_result q table))
  pre_compute_result-after q (c ∷ cs) table =
      pre_compute_result-after q cs (after (c ∷ []) table)
      ∙ ap (λ o. or_else o (first_agreeing q cs)) (found-call q c table)
      ∙ or_else_assoc (pre_compute_result q table) (first_agreeing q (c ∷ [])) (first_agreeing q cs)
      ∙ ap (or_else (pre_compute_result q table)) (sym (first_agreeing-cons q c cs))

  -- The date of a call after calls into an empty table.
  pub schedule_days_get_date-after :
      (b : Bool) (calendar : Calendar) (q : Query) (calls : List (Call Calendar))
      → (schedule_days_get_date compute b calendar q (after calls [])).0
        ≡ or_date (first_agreeing q calls) (compute calendar q)
  unfolding schedule_days_get_date
  schedule_days_get_date-after b calendar q calls =
      let found : pre_compute_result q (after calls []) ≡ first_agreeing q calls =
        pre_compute_result-after q calls [] in
      elim (Option-cases (first_agreeing q calls)) [
        | inl none_agrees ↦ rw found rw none_agrees refl
        | inr (date, e) ↦ rw found rw e refl
      ]
