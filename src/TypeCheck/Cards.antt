-- ===== src/TypeCheck/Cards.antt =====
-- The cardinalities that the tables compute, against the numbers of elements that the bag operators give.
pub mod Answers
use loxim_stats.Base.{
  ℕ, ◌+◌, ◌*◌, ◌≤◌, min, ◌≡◌, refl, sym, subst, ap, ◌∙◌, Bool, true, false, Option, none, some,
  List, [], ◌∷◌, ◌++◌, arith, ◌||◌, ◌==◌, leb, ◌-◌, ◌&&◌, if◌then◌else◌, Bool-cases, ◌⊎◌, inl, inr,
}
use loxim_stats.Base.Int.{pos}
use loxim_stats.Base.Text.{Text}
use loxim_stats.QueryExecutor.Algebraic.{
  AlgOp, bag_union, bag_operator, bag_intersect, bag_minus, comma,
}
use loxim_stats.QueryExecutor.NonAlgebraic.{NonAlgOp, join}
use loxim_stats.TypeCheck.Signature.{
  Signature, attributes, text, char_at, set_card, with_attributes,
}
use loxim_stats.TypeCheck.Result.{new_result, is_error}
use loxim_stats.TypeCheck.Generators.{
  SchemeChecks, add_low, add_high, cd_add_bands, cd_intersect, cd_copy_left_with_zero,
  cd_multiply_bands, do_attr, dots, cd_addbands, cd_intst, cd_copy_l_zr, cd_multbands,
  intersect_high,
}
use loxim_stats.TypeCheck.Rule.{Checked, base}
use loxim_stats.TypeCheck.Decision.{get_result, apply_ruleset}
use loxim_stats.TypeCheck.Decision.Whole.{get_result-card, get_result-Kept}
use loxim_stats.TypeCheck.Tables.{init_alg_op_rules, init_non_alg_op_rules}

-- The characters of a cardinality, as in "0..1", "1..1", "0..*".
abbrev pub IsLow : ℕ → Type 0
IsLow a = (a ≡ b'0') ⊎ (a ≡ b'1')

abbrev pub IsHigh : ℕ → Type 0
IsHigh a = (a ≡ b'*') ⊎ (a ≡ b'0') ⊎ (a ≡ b'1')

abbrev pub IsCard : Text → Type 0
IsCard c = IsLow (char_at c 0) × IsHigh (char_at c 3)

-- A number of elements is between the two bounds.
abbrev pub Within : ℕ → Text → Type 0
Within n c = (char_at c 0 ≤ b'0' + n) × ((char_at c 3 ≡ b'*') ⊎ (b'0' + n ≤ char_at c 3))

low_sum : ℕ → ℕ → ℕ
low_sum a b = if a + b == 96 then 48 else 49

high_sum : ℕ → ℕ → ℕ
high_sum a b = if (a == 42) || (b == 42) then 42 else if leb (a + b) 97 then a + b - 48 else 42

add_low-one : (a b : ℕ) → IsLow a → IsLow b → add_low a b ≡ low_sum a b ∷ []
unfolding add_low low_sum
add_low-one a b (inl h) (inl k) = rw (h, k) refl
add_low-one a b (inl h) (inr k) = rw (h, k) refl
add_low-one a b (inr h) (inl k) = rw (h, k) refl
add_low-one a b (inr h) (inr k) = rw (h, k) refl

add_high-one : (a b : ℕ) → IsHigh a → IsHigh b → add_high a b ≡ high_sum a b ∷ []
unfolding add_high high_sum
add_high-one a b (inl h) k = rw h refl
add_high-one a b (inr (inl h)) (inl k) = rw (h, k) refl
add_high-one a b (inr (inl h)) (inr (inl k)) = rw (h, k) refl
add_high-one a b (inr (inl h)) (inr (inr k)) = rw (h, k) refl
add_high-one a b (inr (inr h)) (inl k) = rw (h, k) refl
add_high-one a b (inr (inr h)) (inr (inl k)) = rw (h, k) refl
add_high-one a b (inr (inr h)) (inr (inr k)) = rw (h, k) refl

module _ (a b m n : ℕ) where
  low-sum : IsLow a → IsLow b → a ≤ 48 + m → b ≤ 48 + n → low_sum a b ≤ 48 + (m + n)
  unfolding low_sum
  low-sum p q v w = ground (arith, p, q)

  -- An upper bound that is not * .
  abbrev Above : ℕ → ℕ → Type 0
  Above k c = (c ≡ b'*') ⊎ (b'0' + k ≤ c)

  high-sum : IsHigh a → IsHigh b → Above m a → Above n b → Above (m + n) (high_sum a b)
  unfolding high_sum
  high-sum p q v w = ground (arith, p, q, v, w)

  high_common : ℕ
  high_common = if (a == 42) && (b == 42) then 42 else if (a == 48) || (b == 48) then 48 else 49

  intersect_high-one : intersect_high a b ≡ high_common ∷ []
  unfolding high_common
  intersect_high-one = elim (Bool-cases ((a == 42) && (b == 42))) [
    | inl e ↦ rw e refl
    | inr e ↦ elim (Bool-cases ((a == 48) || (b == 48))) [
      | inl f ↦ rw (e, f) refl
      | inr f ↦ rw (e, f) refl
    ]
  ]

  high-common :
      (k : ℕ) → IsHigh a → IsHigh b → Above m a → Above n b → k ≤ m → k ≤ n → Above k high_common
  unfolding high_common
  high-common k p q v w f g = ground (arith, p, q, v, w)

pub add_bands-Within :
    (l r : Text) (m n : ℕ)
    → IsCard l
    → IsCard r
    → Within m l
    → Within n r
    → Within (m + n) (cd_add_bands l r)
unfolding cd_add_bands
add_bands-Within l r m n p q v w =
    rw
      (
        add_low-one (char_at l 0) (char_at r 0) p.0 q.0,
        add_high-one (char_at l 3) (char_at r 3) p.1 q.1,
      )
      (low-sum _ _ m n p.0 q.0 v.0 w.0, high-sum _ _ m n p.1 q.1 v.1 w.1)

pub intersect-Within :
    (l r : Text) (m n k : ℕ)
    → IsCard l
    → IsCard r
    → Within m l
    → Within n r
    → k ≤ m
    → k ≤ n
    → Within k (cd_intersect l r)
unfolding cd_intersect
intersect-Within l r m n k p q v w a b =
    rw (intersect_high-one (char_at l 3) (char_at r 3) m n)
      (omega arith, high-common (char_at l 3) (char_at r 3) m n k p.1 q.1 v.1 w.1 a b)

pub copy_left-Within :
    (l r : Text) (m k : ℕ) → Within m l → k ≤ m → Within k (cd_copy_left_with_zero l r)
unfolding cd_copy_left_with_zero
copy_left-Within l r m k v a = (omega arith, ground (arith, v.1))
