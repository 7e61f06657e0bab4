-- ===== src/Base/Float.antt =====
-- `openerp.tools.float_round` and `float_compare`, which are not part of the repository: a
-- parameter, with what their documentation promises. A quantity is a whole number of a unit finer
-- than every rounding, and `one` says how many of them make the number 1.
use odoo_addons.Base.{ℕ, ◌≡◌, refl, if◌then◌else◌}
use odoo_addons.Base.Int.{ℤ, pos, negsuc, ◌+ℤ◌, ◌-ℤ◌, ◌≤ℤ◌, ltb_ℤ}

-- -1, 0 or 1 as the first number is below, equal to or above the second.
abbrev pub sign_of : ℤ → ℤ → ℤ
sign_of a b = if ltb_ℤ a b then negsuc 0 else if ltb_ℤ b a then pos 1 else pos 0

pub record FloatTools : Type 0 where
  pub one : ℕ
  pub float_round : ℤ → ℕ → ℤ
  pub float_compare : ℤ → ℤ → ℕ → ℤ
  -- Two values compare as their roundings do.
  pub compare_rounds :
      (a b : ℤ) (r : ℕ) → float_compare a b r ≡ sign_of (float_round a r) (float_round b r)
  pub round_mono : (a b : ℤ) (r : ℕ) → a ≤ℤ b → float_round a r ≤ℤ float_round b r
  pub round_round : (a : ℤ) (r : ℕ) → float_round (float_round a r) r ≡ float_round a r
  -- Sums and differences of rounded values are rounded.
  pub round_add :
      (a b : ℤ) (r : ℕ)
      → float_round a r ≡ a
      → float_round b r ≡ b
      → float_round (a +ℤ b) r ≡ a +ℤ b
  pub round_sub :
      (a b : ℤ) (r : ℕ)
      → float_round a r ≡ a
      → float_round b r ≡ b
      → float_round (a -ℤ b) r ≡ a -ℤ b

-- Numbers that are rounded already, with a hundred of them to 1.
abbrev pub cents : FloatTools
cents = record {
  one = 100;
  float_round = λ a r. a;
  float_compare = λ a b r. sign_of a b;
  compare_rounds = λ a b r. refl;
  round_mono = λ a b r h. h;
  round_round = λ a r. refl;
  round_add = λ a b r h k. refl;
  round_sub = λ a b r h k. refl;
}
