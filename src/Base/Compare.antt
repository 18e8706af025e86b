-- ===== src/Base/Compare.antt =====
-- Comparisons with three outcomes, built from parts: a total preorder is a comparison that is
-- reversed with its arguments and composes.
use Prim.Native.Nat.{ℕ, ◌+◌, compare, Ordering}
use Prim.Native.Nat.Ordering.{lt, eq, gt}
use mathlib.Core.Path.{◌≡◌, refl, ap₂, ◌∙◌}
use mathlib.Core.Bool.{Bool, true, false, ◌&&◌, ◌||◌}
use mathlib.Core.List.{List, [], ◌∷◌}
use mathlib.Core.Option.{Option, none, some}
use native.Mathlib.Omega.{arith}
use loxim_stats.Base.Tests.{ltb, ◌==◌}
use loxim_stats.Base.Int.{ℤ, pos_part, neg_part}
use loxim_stats.Base.Text.{Text}

abbrev pub is_lt : Ordering → Bool
is_lt lt = true
is_lt eq = false
is_lt gt = false

abbrev pub is_eq : Ordering → Bool
is_eq lt = false
is_eq eq = true
is_eq gt = false

abbrev pub flip : Ordering → Ordering
flip lt = gt
flip eq = eq
flip gt = lt

-- The first difference decides.
abbrev pub or_else : Ordering → Ordering → Ordering
or_else lt o = lt
or_else eq o = o
or_else gt o = gt

-- What holds between the ends of a chain of two steps; false where the steps do not agree.
abbrev pub Chains : Ordering → Ordering → Ordering → Type 0
Chains lt lt r = r ≡ lt
Chains lt eq r = r ≡ lt
Chains lt gt r = Unit {0}
Chains eq o r = r ≡ o
Chains gt lt r = Unit {0}
Chains gt eq r = r ≡ gt
Chains gt gt r = r ≡ gt

pub record IsCompare {ℓ} {A : Type ℓ} (c : A → A → Ordering) : Type ℓ where
  pub swaps : (x y : A) → c y x ≡ flip (c x y)
  pub chains : (x y z : A) → Chains (c x y) (c y z) (c x z)

abbrev pub compare_on {ℓ κ} :
    {A : Type ℓ} {B : Type κ} → (A → B) → (B → B → Ordering) → A → A → Ordering
compare_on f c x y = c (f x) (f y)

abbrev pub compare_then {ℓ} :
    {A : Type ℓ} → (A → A → Ordering) → (A → A → Ordering) → A → A → Ordering
compare_then c d x y = or_else (c x y) (d x y)

unfoldable pub compare_list {ℓ} : {A : Type ℓ} → (A → A → Ordering) → List A → List A → Ordering
compare_list c [] [] = eq
compare_list c [] (y ∷ ys) = lt
compare_list c (x ∷ xs) [] = gt
compare_list c (x ∷ xs) (y ∷ ys) = or_else (c x y) (compare_list c xs ys)

pub compare_on-IsCompare {ℓ κ} :
    {A : Type ℓ} {B : Type κ} (f : A → B) (c : B → B → Ordering)
    → IsCompare c
    → IsCompare (compare_on f c)
compare_on-IsCompare f c o = record {
  swaps = λ x y. o.swaps (f x) (f y);
  chains = λ x y z. o.chains (f x) (f y) (f z);
}

or_else-flip : (a b : Ordering) → or_else (flip a) (flip b) ≡ flip (or_else a b)
or_else-flip lt b = refl
or_else-flip eq b = refl
or_else-flip gt b = refl

or_else-Chains :
    (a b r a' b' r' : Ordering)
    → Chains a b r
    → Chains a' b' r'
    → Chains (or_else a a') (or_else b b') (or_else r r')
or_else-Chains lt lt r a' b' r' h k = rw h refl
or_else-Chains lt gt r a' b' r' h k = tt
or_else-Chains gt lt r a' b' r' h k = tt
or_else-Chains gt gt r a' b' r' h k = rw h refl
or_else-Chains eq eq r a' b' r' h k = rw h k
or_else-Chains lt eq r a' lt r' h k = rw h refl
or_else-Chains lt eq r a' eq r' h k = rw h refl
or_else-Chains lt eq r a' gt r' h k = tt
or_else-Chains gt eq r a' lt r' h k = tt
or_else-Chains gt eq r a' eq r' h k = rw h refl
or_else-Chains gt eq r a' gt r' h k = rw h refl
or_else-Chains eq lt r lt b' r' h k = rw h refl
or_else-Chains eq lt r eq b' r' h k = rw h refl
or_else-Chains eq lt r gt b' r' h k = tt
or_else-Chains eq gt r lt b' r' h k = tt
or_else-Chains eq gt r eq b' r' h k = rw h refl
or_else-Chains eq gt r gt b' r' h k = rw h refl

pub compare_then-IsCompare {ℓ} :
    {A : Type ℓ} (c d : A → A → Ordering) → IsCompare c → IsCompare d → IsCompare (compare_then c d)
compare_then-IsCompare c d o p = record {
  swaps = λ x y. ap₂ or_else (o.swaps x y) (p.swaps x y) ∙ or_else-flip (c x y) (d x y);
  chains = λ x y z.
      or_else-Chains (c x y) (c y z) (c x z) (d x y) (d y z) (d x z) (o.chains x y z)
        (p.chains x y z);
}

lt_first : (o : Ordering) → Chains lt o lt
lt_first lt = refl
lt_first eq = refl
lt_first gt = tt

gt_last : (o : Ordering) → Chains o gt gt
gt_last lt = tt
gt_last eq = refl
gt_last gt = refl

compare_list_swaps {ℓ} :
    {A : Type ℓ} (c : A → A → Ordering)
    → IsCompare c
    → (xs ys : List A) → compare_list c ys xs ≡ flip (compare_list c xs ys)
unfolding compare_list
compare_list_swaps c o [] [] = refl
compare_list_swaps c o [] (y ∷ ys) = refl
compare_list_swaps c o (x ∷ xs) [] = refl
compare_list_swaps c o (x ∷ xs) (y ∷ ys) =
    ap₂ or_else (o.swaps x y) (compare_list_swaps c o xs ys)
    ∙ or_else-flip (c x y) (compare_list c xs ys)

compare_list-Chains {ℓ} :
    {A : Type ℓ} (c : A → A → Ordering)
    → IsCompare c
    → (xs ys zs : List A)
    → Chains (compare_list c xs ys) (compare_list c ys zs) (compare_list c xs zs)
unfolding compare_list
compare_list-Chains c o [] [] [] = refl
compare_list-Chains c o [] [] (z ∷ zs) = refl
compare_list-Chains c o [] (y ∷ ys) [] = tt
compare_list-Chains c o [] (y ∷ ys) (z ∷ zs) = lt_first (or_else (c y z) (compare_list c ys zs))
compare_list-Chains c o (x ∷ xs) [] [] = refl
compare_list-Chains c o (x ∷ xs) [] (z ∷ zs) = tt
compare_list-Chains c o (x ∷ xs) (y ∷ ys) [] = gt_last (or_else (c x y) (compare_list c xs ys))
compare_list-Chains c o (x ∷ xs) (y ∷ ys) (z ∷ zs) =
    or_else-Chains (c x y) (c y z) (c x z) (compare_list c xs ys) (compare_list c ys zs)
      (compare_list c xs zs) (o.chains x y z) (compare_list-Chains c o xs ys zs)

pub compare_list-IsCompare {ℓ} :
    {A : Type ℓ} (c : A → A → Ordering) → IsCompare c → IsCompare (compare_list c)
compare_list-IsCompare c o = record {
  swaps = compare_list_swaps c o;
  chains = compare_list-Chains c o;
}

pub compare-IsCompare : IsCompare compare
compare-IsCompare = record { swaps = λ x y. ground arith; chains = λ x y z. ground arith }

-- The tests of a comparison are those of two others.
pub is_lt-or_else : (a b : Ordering) → is_lt (or_else a b) ≡ (is_lt a || (is_eq a && is_lt b))
is_lt-or_else lt b = refl
is_lt-or_else eq b = refl
is_lt-or_else gt b = refl

pub is_eq-or_else : (a b : Ordering) → is_eq (or_else a b) ≡ (is_eq a && is_eq b)
is_eq-or_else lt b = refl
is_eq-or_else eq b = refl
is_eq-or_else gt b = refl

abbrev pub compare_ℤ : ℤ → ℤ → Ordering
compare_ℤ a b = compare (pos_part a + neg_part b) (pos_part b + neg_part a)

pub compare_ℤ-IsCompare : IsCompare compare_ℤ
compare_ℤ-IsCompare = record { swaps = λ x y. ground arith; chains = λ x y z. ground arith }

abbrev pub compare_option {ℓ} : {A : Type ℓ} → (A → A → Ordering) → Option A → Option A → Ordering
compare_option c none none = eq
compare_option c none (some y) = lt
compare_option c (some x) none = gt
compare_option c (some x) (some y) = c x y

pub compare_option-IsCompare {ℓ} :
    {A : Type ℓ} (c : A → A → Ordering) → IsCompare c → IsCompare (compare_option c)
compare_option-IsCompare {A} c o = record { swaps = swaps; chains = chains }
  where
    swaps : (x y : Option A) → compare_option c y x ≡ flip (compare_option c x y)
    swaps none none = refl
    swaps none (some y) = refl
    swaps (some x) none = refl
    swaps (some x) (some y) = o.swaps x y

    chains :
        (x y z : Option A)
        → Chains (compare_option c x y) (compare_option c y z) (compare_option c x z)
    chains none none none = refl
    chains none none (some z) = refl
    chains none (some y) none = tt
    chains none (some y) (some z) = lt_first (c y z)
    chains (some x) none none = refl
    chains (some x) none (some z) = tt
    chains (some x) (some y) none = gt_last (c x y)
    chains (some x) (some y) (some z) = o.chains x y z

pub compare_eqb : (a b : ℕ) → is_eq (compare a b) ≡ (a == b)
compare_eqb a b = ground arith

pub compare-ltb : (a b : ℕ) → is_lt (compare a b) ≡ ltb a b
compare-ltb a b = ground arith

abbrev pub compare_text : Text → Text → Ordering
compare_text = compare_list compare
