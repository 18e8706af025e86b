-- ===== src/QueryExecutor/NonAlgebraic/Rows.antt =====
-- The rows of an order by, and what is looked for in a bag.
use loxim_stats.Base.{ℕ, suc, ◌≡◌, ap, Bool, true, false, ◌||◌, List, [], ◌∷◌, length, arith, ltb}
use Prim.Native.Nat.{compare, Ordering}
use loxim_stats.Base.Compare.{is_lt, or_else, compare_list}
use loxim_stats.QueryExecutor.Doubles.{Doubles, DoubleLaws}
use loxim_stats.QueryExecutor.Result.{QueryResult, Results, structure, bag, nil, cons, to_list, ok}
use loxim_stats.QueryExecutor.Compare.{sort, tests}
use loxim_stats.QueryExecutor.Compare.Order.{order, of_order}
use loxim_stats.QueryExecutor.Compare.Levels.{tests_order}
use loxim_stats.QueryExecutor.Algebraic.Counts.{count}
use loxim_stats.QueryExecutor.Algebraic.Plain.{IsPlain}
use loxim_stats.QueryExecutor.NonAlgebraic.{order_keys, included_loop, is_included}

-- A row and the value that it is ordered by.
pub record Keyed (D : Type 0) : Type 0 where
  pub row : QueryResult D
  pub key : QueryResult D

module _ {D : Type 0} where
  abbrev pub keyed_row : Keyed D → QueryResult D
  keyed_row k = structure (cons k.row (cons k.key nil))

  abbrev pub row_of : Keyed D → QueryResult D
  row_of k = k.row

  -- The keys from position `i` on.
  abbrev pub keyed : (ℕ → QueryResult D → QueryResult D) → ℕ → List (QueryResult D) → List (Keyed D)
  keyed key i [] = []
  keyed key i (r ∷ rs) = record { row = r; key = key i r } ∷ keyed key (suc i) rs

  abbrev pub AllRowsPlain : List (Keyed D) → Type 0
  AllRowsPlain [] = Unit {0}
  AllRowsPlain (k ∷ ks) = IsPlain k.row × AllRowsPlain ks

  module _ (o : QueryResult D → QueryResult D → Ordering) where
    -- Structures of keys by their length, and then by their elements.
    abbrev pub compare_keyed : Keyed D → Keyed D → Ordering
    compare_keyed a b =
        or_else (compare (length (order_keys a.key)) (length (order_keys b.key)))
          (compare_list o (order_keys a.key) (order_keys b.key))

  abbrev sorted_rows : (QueryResult D → QueryResult D → Ordering) → List (Keyed D) → List (Keyed D)
  sorted_rows o ks = sort (λ a b. is_lt (compare_keyed o a b)) ks

module _ {D : Type 0} {d : Doubles D} (L : DoubleLaws d) (n : ℕ) (elem : QueryResult D) where
  included_count :
      (found : Bool) (rs : List (QueryResult D))
      → included_loop (of_order (order L n)) elem found rs
        ≡ (found || ltb 0 (count (order L n) elem rs))
  unfolding included_loop
  included_count found [] = ground arith
  included_count found (r ∷ rs) = ground (arith, included_count true rs, included_count found rs)

  -- Where doubles are ordered, isIncluded answers on a bag whether it counts at least one element that
  -- compares as equal.
  pub is_included-count :
      (rs : Results D)
      → is_included (tests d n) elem (bag rs) ≡ ok (ltb 0 (count (order L n) elem (to_list rs)))
  unfolding is_included
  is_included-count rs = rw (tests_order L n) (ap ok (included_count false (to_list rs)))
