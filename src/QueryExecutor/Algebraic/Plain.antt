-- ===== src/QueryExecutor/Algebraic/Plain.antt =====
-- Results that a bag takes as one element.
use loxim_stats.Base.{◌+◌, ◌≡◌, ap, ◌∙◌, Bool, true, false, List, [], ◌∷◌, ◌++◌, arith}
use Prim.Native.Nat.{Ordering}
use loxim_stats.QueryExecutor.Result.{QueryResult, bag, sequence, is_nothing, add_to_bag}
use loxim_stats.QueryExecutor.Compare.{insert_sorted, sort}
use loxim_stats.QueryExecutor.Algebraic.{add}
use loxim_stats.QueryExecutor.Algebraic.Counts.{count, count-append}

module _ {D : Type 0} where
  abbrev pub taken_apart : QueryResult D → Bool
  taken_apart (bag rs) = true
  taken_apart (sequence rs) = true
  taken_apart _ = false

  -- A result that a bag takes as one element.
  abbrev pub IsPlain : QueryResult D → Type 0
  IsPlain r = (is_nothing r ≡ false) × (taken_apart r ≡ false)

  abbrev pub AllPlain : List (QueryResult D) → Type 0
  AllPlain [] = Unit {0}
  AllPlain (r ∷ rs) = IsPlain r × AllPlain rs

  pub add_plain :
      (final : List (QueryResult D)) (r : QueryResult D) → IsPlain r → add final r ≡ final ++ r ∷ []
  unfolding add_to_bag
  add_plain [] (bag rs) p = ground arith
  add_plain [] (sequence rs) p = ground arith
  add_plain (f ∷ fs) (bag rs) p = ground arith
  add_plain (f ∷ fs) (sequence rs) p = ground arith
  add_plain [] r p = ground arith
  add_plain (f ∷ fs) r p = ground arith

  pub count-add :
      (c : QueryResult D → QueryResult D → Ordering) (z : QueryResult D)
      (final : List (QueryResult D)) (r : QueryResult D)
      → IsPlain r
      → count c z (add final r) ≡ count c z final + count c z (r ∷ [])
  count-add c z final r p = ap (count c z) (add_plain final r p) ∙ count-append c z final (r ∷ [])

  AllPlain-insert_sorted :
      (less : QueryResult D → QueryResult D → Bool) (x : QueryResult D) (xs : List (QueryResult D))
      → IsPlain x
      → AllPlain xs
      → AllPlain (insert_sorted less x xs)
  unfolding insert_sorted
  AllPlain-insert_sorted less x [] p v = (p, tt)
  AllPlain-insert_sorted less x (y ∷ ys) p v =
      ground (arith, AllPlain-insert_sorted less x ys p v.1)

  pub AllPlain-sort :
      (less : QueryResult D → QueryResult D → Bool) (xs : List (QueryResult D))
      → AllPlain xs
      → AllPlain (sort less xs)
  unfolding sort
  AllPlain-sort less [] v = tt
  AllPlain-sort less (x ∷ xs) v =
      AllPlain-insert_sorted less x (sort less xs) v.0 (AllPlain-sort less xs v.1)
