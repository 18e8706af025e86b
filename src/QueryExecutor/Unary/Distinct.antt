-- ===== src/QueryExecutor/Unary/Distinct.antt =====
-- distinct keeps one of the elements that are equal.
use loxim_stats.Base.{
  ℕ, ◌+◌, ◌≡◌, refl, ap, ◌∙◌, true, false, not, List, [], ◌∷◌, if◌then◌else◌, arith, min,
  Bool-cases, inl, inr,
}
use loxim_stats.Base.Compare.{is_lt, is_eq, IsCompare}
use Prim.Native.Nat.{Ordering}
use loxim_stats.QueryExecutor.Doubles.{Doubles, DoubleLaws}
use loxim_stats.QueryExecutor.Result.{QueryResult}
use loxim_stats.QueryExecutor.Compare.{sort, tests}
use loxim_stats.QueryExecutor.Compare.Order.{order, order-IsCompare, of_order}
use loxim_stats.QueryExecutor.Compare.Levels.{tests_order}
use loxim_stats.QueryExecutor.Algebraic.{add, as_bag}
use loxim_stats.QueryExecutor.Algebraic.Counts.{
  count, count-sort, IsSorted, NoneLess, sort-IsSorted, count_below,
}
use loxim_stats.QueryExecutor.Algebraic.Plain.{AllPlain, AllPlain-sort, count-add}
use loxim_stats.QueryExecutor.Unary.{distinct_loop, distinct_sorted, distinct_elements}

module _ {D : Type 0} (c : QueryResult D → QueryResult D → Ordering) (o : IsCompare c)
    (z : QueryResult D) where
  -- What the loop still adds to the count.
  abbrev further : QueryResult D → List (QueryResult D) → ℕ
  further current rs = if is_eq (c z current) then 0 else min 1 (count c z rs)

  loop_step :
      (final : List (QueryResult D)) (current next : QueryResult D) (rs : List (QueryResult D))
      → distinct_loop (of_order c) final current (next ∷ rs) ≡ (
          if not (is_eq (c next current))
          then distinct_loop (of_order c) (add final next) next rs
          else distinct_loop (of_order c) final current rs)
  unfolding distinct_loop
  loop_step final current next rs = elim (Bool-cases (is_eq (c next current))) [
    | inl e ↦ rw (e, distinct_loop) refl
    | inr e ↦ rw (e, distinct_loop) refl
  ]

  further_same :
      (current next : QueryResult D) (rs : List (QueryResult D))
      → is_eq (c next current) ≡ true
      → further current rs ≡ further current (next ∷ rs)
  further_same current next rs e = ground (arith, o.chains z next current)

  further_next :
      (current next : QueryResult D) (rs : List (QueryResult D))
      → is_eq (c next current) ≡ false
      → is_lt (c next current) ≡ false
      → NoneLess c next rs
      → count c z (next ∷ []) + further next rs ≡ further current (next ∷ rs)
  further_next current next rs e k v = elim (Bool-cases (is_eq (c z current))) [
    | inl same ↦
        let none =
          count_below c o z current next rs same (ground (arith, o.swaps next current)) v in
        ground arith
    | inr other ↦ ground arith
  ]

  loop_count :
      (final : List (QueryResult D)) (current : QueryResult D) (rs : List (QueryResult D))
      → AllPlain rs
      → NoneLess c current rs
      → IsSorted c rs
      → count c z (distinct_loop (of_order c) final current rs)
        ≡ count c z final + further current rs
  unfolding distinct_loop
  loop_count final current [] p v w = ground arith
  loop_count final current (next ∷ rs) p v w =
      ap (count c z) (loop_step final current next rs)
      ∙ elim (Bool-cases (is_eq (c next current))) [
        | inl e ↦ rw e (
            loop_count final current rs p.1 v.1 w.1 ∙ omega (arith, further_same current next rs e))
        | inr e ↦ rw e (
            loop_count (add final next) next rs p.1 w.0 w.1
            ∙ omega (arith, further_next current next rs e v.0 w.0, count-add c z final next p.0))
      ]

  sorted_count :
      (rs : List (QueryResult D))
      → AllPlain rs
      → IsSorted c rs
      → count c z (distinct_sorted (of_order c) rs) ≡ min 1 (count c z rs)
  sorted_count [] p w = ground arith
  sorted_count (r ∷ rs) p w =
      loop_count (add [] r) r rs p.1 w.0 w.1 ∙ ground (arith, count-add c z [] r p.0)

-- Where doubles are ordered and no element of a bag is nothing or a bag or a sequence itself, distinct
-- holds one of every element of the bag, and none that it does not hold.
pub distinct_elements-count :
    {D : Type 0} {d : Doubles D} (L : DoubleLaws d) (n : ℕ) (z r : QueryResult D)
    → AllPlain (as_bag r)
    → count (order L n) z (distinct_elements (tests d n) r) ≡ min 1 (count (order L n) z (as_bag r))
unfolding distinct_elements
distinct_elements-count L n z r p = rw (tests_order L n) (
    sorted_count (order L n) (order-IsCompare L n) z
      (sort (of_order (order L n)).less_than (as_bag r))
      (AllPlain-sort (of_order (order L n)).less_than (as_bag r) p)
      (sort-IsSorted (order L n) (order-IsCompare L n) (as_bag r))
    ∙ ap (min 1) (count-sort (order L n) z (as_bag r)))
