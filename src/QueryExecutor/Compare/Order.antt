-- ===== src/QueryExecutor/Compare/Order.antt =====
-- A comparison of results with three outcomes, and equal and less_than as its tests.
use loxim_stats.Base.{
  ℕ, zero, suc, refl, Bool, true, false, Option, none, some, List, [], ◌∷◌, length,
}
use loxim_stats.Base.Text.{Text}
use loxim_stats.Base.Compare.{
  is_lt, is_eq, IsCompare, compare_on, compare_then, compare_list, compare_option, compare_text,
  compare_on-IsCompare, compare_then-IsCompare, compare_list-IsCompare, compare_option-IsCompare,
  compare-IsCompare,
}
use Prim.Native.Nat.{compare, Ordering}
use Prim.Native.Nat.Ordering.{eq}
use loxim_stats.QueryExecutor.Doubles.{Doubles, DoubleLaws}
use loxim_stats.QueryExecutor.Result.{
  QueryResult, reference, virtual, string, int, double, boolean, binder, type_of, elements,
}
use loxim_stats.QueryExecutor.Compare.{Tests, sort}

abbrev pub number_of_bool : Bool → ℕ
number_of_bool true = 1
number_of_bool false = 0

module _ {D : Type 0} where
  -- The type, with ints and doubles taken together.
  abbrev pub kind : QueryResult D → ℕ
  kind (double x) = 4
  kind r = type_of r

  abbrev pub number : QueryResult D → ℕ
  number (reference i k r) = i
  number (boolean b) = number_of_bool b
  number _ = 0

  abbrev pub text : QueryResult D → Text
  text (string v) = v
  text (virtual v) = v
  text (binder n r) = n
  text _ = []

  abbrev pub value : Doubles D → QueryResult D → Option D
  value d (int a) = some (d.of_int a)
  value d (double x) = some x
  value d _ = none

  abbrev pub count : QueryResult D → ℕ
  count r = length (elements r)

  -- What is inside, sorted.
  abbrev pub inside :
      (QueryResult D → QueryResult D → Ordering) → QueryResult D → List (QueryResult D)
  inside o (binder n r) = r ∷ []
  inside o r = sort (λ a b. is_lt (o a b)) (elements r)

  unfoldable pub order_level :
      {d : Doubles D}
      → DoubleLaws d
      → (QueryResult D → QueryResult D → Ordering)
      → QueryResult D
      → QueryResult D
      → Ordering
  unfolding sort compare_list
  order_level {d} L o = compare_then (compare_on kind compare) (
      compare_then (compare_on number compare) (
        compare_then (compare_on text compare_text) (
          compare_then (compare_on (value d) (compare_option L.order))
            (compare_then (compare_on count compare) (compare_on (inside o) (compare_list o))))))

  -- The reference: first the kind, then the value, then the number of elements, then the elements.
  unfoldable pub order :
      {d : Doubles D} → DoubleLaws d → ℕ → QueryResult D → QueryResult D → Ordering
  unfolding order_level
  order L zero = λ a b. eq
  order L (suc n) = order_level L (order L n)

  order_level-IsCompare :
      {d : Doubles D} (L : DoubleLaws d) (o : QueryResult D → QueryResult D → Ordering)
      → IsCompare o
      → IsCompare (order_level L o)
  unfolding order_level
  order_level-IsCompare {d} L o v =
      compare_then-IsCompare _ _ (compare_on-IsCompare kind compare compare-IsCompare) (
        compare_then-IsCompare _ _ (compare_on-IsCompare number compare compare-IsCompare) (
          compare_then-IsCompare _ _
            (compare_on-IsCompare text compare_text
              (compare_list-IsCompare compare compare-IsCompare))
            (compare_then-IsCompare _ _
              (compare_on-IsCompare (value d) (compare_option L.order)
                (compare_option-IsCompare L.order L.ordered))
              (compare_then-IsCompare _ _ (compare_on-IsCompare count compare compare-IsCompare)
                (compare_on-IsCompare (inside o) (compare_list o) (compare_list-IsCompare o v))))))

  pub order-IsCompare : {d : Doubles D} (L : DoubleLaws d) (n : ℕ) → IsCompare (order L n)
  unfolding order
  order-IsCompare L zero = record { swaps = λ x y. refl; chains = λ x y z. refl }
  order-IsCompare L (suc n) = order_level-IsCompare L (order L n) (order-IsCompare L n)

  abbrev pub of_order : (QueryResult D → QueryResult D → Ordering) → Tests D
  of_order o = record { equal = λ a b. is_eq (o a b); less_than = λ a b. is_lt (o a b) }
