-- ===== src/Indexes/Comparator.antt =====
-- src/Indexes/Comparator.h, FixedLengthComparator<int>::compare, of a value and a key without their
-- logical identifiers. The difference is an int, which wraps around.
use loxim_stats.Base.{◌+◌, ◌^◌, ◌<◌, ◌≡◌, arith, ap, ◌∙◌, sym, if◌then◌else◌}
use loxim_stats.Base.Int.{ℤ, pos, negsuc, pos_part, neg_part, sub_ℕ, ◌-ℤ◌, eqb_ℤ, ltb_ℤ, IsInt}
use loxim_stats.Base.Compare.{compare_ℤ, compare_ℤ-IsCompare, IsCompare, flip}
use Prim.Native.Nat.{Ordering}
use Prim.Native.Nat.Ordering.{lt, eq, gt}

-- The sign of `odds`.
abbrev pub sign_of : ℤ → Ordering
sign_of odds = if eqb_ℤ odds (pos 0) then eq else if ltb_ℤ odds (pos 0) then lt else gt

unfoldable pub compare_key : ℤ → ℤ → Ordering
compare_key value key = sign_of (value -ℤ key)

-- The difference of two ints is an int.
abbrev pub IsNear : ℤ → ℤ → Type 0
IsNear v k = IsInt (sub_ℕ (pos_part v + neg_part k) (neg_part v + pos_part k))

-- Where the difference of the value and the key is an int, the sign that compare takes of it orders them
-- as integers.
pub compare_key_order : (v k : ℤ) → IsNear v k → compare_key v k ≡ compare_ℤ v k
unfolding compare_key ◌-ℤ◌
compare_key_order (pos v) (pos k) h = ground arith
compare_key_order (pos v) (negsuc k) h = ground arith
compare_key_order (negsuc v) (pos k) h = ground arith
compare_key_order (negsuc v) (negsuc k) h = ground arith

-- The ints from -2^30 to 2^30 - 1, of which every difference is an int.
abbrev pub IsSmall : ℤ → Type 0
IsSmall (pos n) = n < 2 ^ 30
IsSmall (negsuc n) = n < 2 ^ 30

IsSmall-IsNear : (v k : ℤ) → IsSmall v → IsSmall k → IsNear v k
IsSmall-IsNear (pos v) (pos k) h i = ground arith
IsSmall-IsNear (pos v) (negsuc k) h i = ground arith
IsSmall-IsNear (negsuc v) (pos k) h i = ground arith
IsSmall-IsNear (negsuc v) (negsuc k) h i = ground arith

pub record SmallKey : Type 0 where
  pub value : ℤ
  pub small : IsSmall value

abbrev pub compare_small : SmallKey → SmallKey → Ordering
compare_small x y = compare_key x.value y.value

small_order : (x y : SmallKey) → compare_small x y ≡ compare_ℤ x.value y.value
small_order x y = compare_key_order x.value y.value (IsSmall-IsNear x.value y.value x.small y.small)

pub compare_small-IsCompare : IsCompare compare_small
compare_small-IsCompare = record {
  swaps = λ x y.
      small_order y x ∙ compare_ℤ-IsCompare.swaps x.value y.value ∙ ap flip (sym (small_order x y));
  chains = λ x y z.
      rw (small_order x y, small_order y z, small_order x z)
        (compare_ℤ-IsCompare.chains x.value y.value z.value);
}
