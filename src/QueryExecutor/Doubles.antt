-- ===== src/QueryExecutor/Doubles.antt =====
-- The double of C++: its operations as a record of functions, and what is used of it where no
-- operand is NaN, namely that it is ordered and that the ints keep their order in it.
use loxim_stats.Base.{◌≡◌, Bool, refl, [], arith}
use loxim_stats.Base.Int.{ℤ, ◌+ℤ◌, ◌-ℤ◌, ◌*ℤ◌, pos, ltb_ℤ, eqb_ℤ}
use loxim_stats.Base.Text.{Text}
use loxim_stats.Base.Compare.{IsCompare, is_lt, is_eq, compare_ℤ, compare_ℤ-IsCompare}
use Prim.Native.Nat.{Ordering}

pub record Doubles (D : Type 0) : Type 0 where
  pub of_int : ℤ → D
  pub plus : D → D → D
  pub minus : D → D → D
  pub times : D → D → D
  pub divide : D → D → D
  pub negate : D → D
  pub less : D → D → Bool
  pub equals : D → D → Bool
  -- What `<<` of a stringstream writes.
  pub show : D → Text

-- The type holds no NaN.
pub record DoubleLaws {D : Type 0} (d : Doubles D) : Type 0 where
  pub order : D → D → Ordering
  pub ordered : IsCompare order
  pub less_lem : (x y : D) → d.less x y ≡ is_lt (order x y)
  pub equals_lem : (x y : D) → d.equals x y ≡ is_eq (order x y)
  pub of_int_lem : (a b : ℤ) → order (d.of_int a) (d.of_int b) ≡ compare_ℤ a b

-- The whole numbers among the doubles, without their bounds; nothing is shown of how they print.
abbrev pub whole : Doubles ℤ
whole = record {
  of_int = λ a. a;
  plus = ◌+ℤ◌;
  minus = ◌-ℤ◌;
  times = ◌*ℤ◌;
  divide = λ a b. a;
  negate = λ a. pos 0 -ℤ a;
  less = ltb_ℤ;
  equals = eqb_ℤ;
  show = λ a. [];
}

pub whole_laws : DoubleLaws whole
whole_laws = record {
  order = compare_ℤ;
  ordered = compare_ℤ-IsCompare;
  less_lem = λ x y. ground arith;
  equals_lem = λ x y. ground arith;
  of_int_lem = λ a b. refl;
}
