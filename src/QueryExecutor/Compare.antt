-- ===== src/QueryExecutor/Compare.antt =====
-- src/QueryExecutor/QueryResult.cpp: equal, less_than and the other comparisons, and sorting. equal and
-- less_than of a collection sort both collections first and call themselves on the elements; here
-- they are tables of two tests, built one level of nesting after the other. std::sort is
-- insertion sort: on elements of which none is less, the source's order may be another.
pub mod Sorting
pub mod Order
pub mod Levels
pub mod Bags
pub mod Nesting
mod Examples
use loxim_stats.Base.{
  ℕ, zero, suc, ◌+◌, Bool, true, false, not, ◌&&◌, ◌||◌, List, [], ◌∷◌, length, if◌then◌else◌, ◌==◌,
  ltb,
}
use loxim_stats.Base.Int.{ltb_ℤ, eqb_ℤ}
use loxim_stats.Base.Text.{eqb_text, ltb_text}
use loxim_stats.QueryExecutor.Doubles.{Doubles}
use loxim_stats.QueryExecutor.Result.{
  QueryResult, Results, reference, virtual, string, int, double, boolean, binder, structure, bag,
  sequence, nothing, nil, cons, to_list, type_of,
}

-- equal and less_than.
pub record Tests (D : Type 0) : Type 0 where
  pub equal : QueryResult D → QueryResult D → Bool
  pub less_than : QueryResult D → QueryResult D → Bool

module _ {ℓ} {A : Type ℓ} where
  unfoldable pub insert_sorted : (A → A → Bool) → A → List A → List A
  insert_sorted less x [] = x ∷ []
  insert_sorted less x (y ∷ ys) = if less y x then y ∷ insert_sorted less x ys else x ∷ y ∷ ys

  unfoldable pub sort : (A → A → Bool) → List A → List A
  unfolding insert_sorted
  sort less [] = []
  sort less (x ∷ xs) = insert_sorted less x (sort less xs)

abbrev pub eqb_bool : Bool → Bool → Bool
eqb_bool true b = b
eqb_bool false b = not b

module _ {D : Type 0} where
  abbrev pub not_equal : Tests D → QueryResult D → QueryResult D → Bool
  not_equal t a b = not (t.equal a b)

  abbrev pub greater_than : Tests D → QueryResult D → QueryResult D → Bool
  greater_than t a b = not (t.equal a b || t.less_than a b)

  abbrev pub greater_eq : Tests D → QueryResult D → QueryResult D → Bool
  greater_eq t a b = not (t.less_than a b)

  abbrev pub less_eq : Tests D → QueryResult D → QueryResult D → Bool
  less_eq t a b = t.equal a b || t.less_than a b

  -- The loops over two vectors.
  unfoldable pub equal_elements : Tests D → List (QueryResult D) → List (QueryResult D) → Bool
  equal_elements t [] ys = true
  equal_elements t (x ∷ xs) [] = false
  equal_elements t (x ∷ xs) (y ∷ ys) = if t.equal x y then equal_elements t xs ys else false

  unfoldable pub less_elements : Tests D → List (QueryResult D) → List (QueryResult D) → Bool
  less_elements t [] ys = false
  less_elements t (x ∷ xs) [] = false
  less_elements t (x ∷ xs) (y ∷ ys) =
      if t.less_than x y then true else if greater_than t x y then false else less_elements t xs ys

  unfoldable pub equal_collections : Tests D → List (QueryResult D) → List (QueryResult D) → Bool
  unfolding sort equal_elements
  equal_collections t xs ys =
      if length ys == length xs
      then equal_elements t (sort t.less_than xs) (sort t.less_than ys)
      else false

  unfoldable pub less_collections : Tests D → List (QueryResult D) → List (QueryResult D) → Bool
  unfolding sort less_elements
  less_collections t xs ys =
      if length ys == length xs
      then less_elements t (sort t.less_than xs) (sort t.less_than ys)
      else ltb (length xs) (length ys)

  -- One level: the results inside are compared by `t`.
  unfoldable pub equal_level : Doubles D → Tests D → QueryResult D → QueryResult D → Bool
  unfolding equal_collections
  equal_level d t (sequence xs) (sequence ys) = equal_collections t (to_list xs) (to_list ys)
  equal_level d t (bag xs) (bag ys) = equal_collections t (to_list xs) (to_list ys)
  equal_level d t (structure xs) (structure ys) = equal_collections t (to_list xs) (to_list ys)
  equal_level d t (binder n r) (binder m s) = if eqb_text n m then t.equal r s else false
  equal_level d t (string v) (string w) = eqb_text v w
  equal_level d t (int a) (int b) = eqb_ℤ a b
  equal_level d t (int a) (double y) = d.equals (d.of_int a) y
  equal_level d t (double x) (int b) = d.equals x (d.of_int b)
  equal_level d t (double x) (double y) = d.equals x y
  equal_level d t (boolean a) (boolean b) = eqb_bool a b
  equal_level d t (reference i k r) (reference j l s) = i == j
  equal_level d t nothing nothing = true
  equal_level d t (virtual v) (virtual w) = eqb_text v w
  equal_level d t a b = false

  -- Results of different types are ordered by type, ints and doubles by value.
  unfoldable pub less_level : Doubles D → Tests D → QueryResult D → QueryResult D → Bool
  unfolding less_collections
  less_level d t (sequence xs) (sequence ys) = less_collections t (to_list xs) (to_list ys)
  less_level d t (bag xs) (bag ys) = less_collections t (to_list xs) (to_list ys)
  less_level d t (structure xs) (structure ys) = less_collections t (to_list xs) (to_list ys)
  less_level d t (binder n r) (binder m s) = if eqb_text n m then t.less_than r s else ltb_text n m
  less_level d t (string v) (string w) = ltb_text v w
  less_level d t (int a) (int b) = ltb_ℤ a b
  less_level d t (int a) (double y) = d.less (d.of_int a) y
  less_level d t (double x) (int b) = d.less x (d.of_int b)
  less_level d t (double x) (double y) = d.less x y
  less_level d t (boolean a) (boolean b) = not a && b
  less_level d t (reference i k r) (reference j l s) = ltb i j
  less_level d t nothing nothing = false
  less_level d t (virtual v) (virtual w) = ltb_text v w
  less_level d t a b = ltb (type_of a) (type_of b)

-- The tests on results nested at most as deep as the number says.
unfoldable pub tests : {D : Type 0} → Doubles D → ℕ → Tests D
unfolding equal_level less_level
tests d zero = record { equal = λ a b. true; less_than = λ a b. false }
tests d (suc n) = record { equal = equal_level d (tests d n); less_than = less_level d (tests d n) }
