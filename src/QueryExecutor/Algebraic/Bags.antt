-- ===== src/QueryExecutor/Algebraic/Bags.antt =====
-- Union, intersection and difference of bags count every element as often as they should.
use loxim_stats.Base.{
  ℕ, ◌+◌, ◌-◌, ◌≡◌, refl, ap, ◌∙◌, true, false, List, [], ◌∷◌, if◌then◌else◌, arith, min,
  Bool-cases, ◌⊎◌, inl, inr,
}
use loxim_stats.Base.Compare.{is_lt, is_eq, IsCompare}
use Prim.Native.Nat.{Ordering}
use loxim_stats.QueryExecutor.Doubles.{Doubles, DoubleLaws}
use loxim_stats.QueryExecutor.Result.{QueryResult}
use loxim_stats.QueryExecutor.Compare.{Tests, sort, tests}
use loxim_stats.QueryExecutor.Compare.Order.{order, order-IsCompare, of_order}
use loxim_stats.QueryExecutor.Compare.Levels.{tests_order}
use loxim_stats.QueryExecutor.Algebraic.{
  bag_intersect, bag_minus, add, as_bag, merge_bags, bag_operate, either_empty,
}
use loxim_stats.QueryExecutor.Algebraic.Counts.{
  count, count-sort, IsSorted, NoneLess, sort-IsSorted, count_below,
}
use loxim_stats.QueryExecutor.Algebraic.Plain.{AllPlain, AllPlain-sort, count-add}

module _ {D : Type 0} where
  module _ (t : Tests D) (final : List (QueryResult D)) (l r : QueryResult D)
      (ls rs : List (QueryResult D)) where
    intersect_step : merge_bags t bag_intersect final (l ∷ ls) (r ∷ rs) ≡ (
        if t.equal l r
        then merge_bags t bag_intersect (add final l) ls rs
        else if t.less_than l r
        then merge_bags t bag_intersect final ls (r ∷ rs)
        else merge_bags t bag_intersect final (l ∷ ls) rs)
    unfolding merge_bags
    intersect_step = elim (Bool-cases (t.equal l r)) [
      | inl e ↦ rw (e, merge_bags) refl
      | inr e ↦ elim (Bool-cases (t.less_than l r)) [
        | inl k ↦ rw (e, k, merge_bags) refl
        | inr k ↦ rw (e, k, merge_bags) refl
      ]
    ]

    minus_step : merge_bags t bag_minus final (l ∷ ls) (r ∷ rs) ≡ (
        if t.equal l r
        then merge_bags t bag_minus final ls rs
        else if t.less_than l r
        then merge_bags t bag_minus (add final l) ls (r ∷ rs)
        else merge_bags t bag_minus final (l ∷ ls) rs)
    unfolding merge_bags
    minus_step = elim (Bool-cases (t.equal l r)) [
      | inl e ↦ rw (e, merge_bags) refl
      | inr e ↦ elim (Bool-cases (t.less_than l r)) [
        | inl k ↦ rw (e, k, merge_bags) refl
        | inr k ↦ rw (e, k, merge_bags) refl
      ]
    ]

  module _ (c : QueryResult D → QueryResult D → Ordering) (o : IsCompare c)
      (z : QueryResult D) where
    -- How the heads of two sorted lists count.
    module _ (l r : QueryResult D) (ls rs : List (QueryResult D)) where
      heads_equal : is_eq (c l r) ≡ true → count c z (l ∷ []) ≡ count c z (r ∷ [])
      heads_equal e = ground (arith, o.chains z l r, o.chains z r l, o.swaps l r)

      head_less :
          is_lt (c l r) ≡ true
          → NoneLess c r rs
          → (count c z (l ∷ []) ≡ 0) ⊎ (count c z (r ∷ rs) ≡ 0)
      head_less k w = elim (Bool-cases (is_eq (c z l))) [
        | inl e ↦ inr (count_below c o z l r rs e k w)
        | inr e ↦ inl (rw e refl)
      ]

      head_greater :
          is_eq (c l r) ≡ false
          → is_lt (c l r) ≡ false
          → NoneLess c l ls
          → (count c z (r ∷ []) ≡ 0) ⊎ (count c z (l ∷ ls) ≡ 0)
      head_greater e k v = elim (Bool-cases (is_eq (c z r))) [
        | inl same ↦ inr (count_below c o z r l ls same (ground (arith, o.swaps l r)) v)
        | inr e ↦ inl (rw e refl)
      ]

    merge_intersect :
        (final ls rs : List (QueryResult D))
        → AllPlain ls
        → IsSorted c ls
        → IsSorted c rs
        → count c z (merge_bags (of_order c) bag_intersect final ls rs)
          ≡ count c z final + min (count c z ls) (count c z rs)
    unfolding merge_bags
    merge_intersect final [] rs p v w = ground arith
    merge_intersect final (l ∷ ls) [] p v w = ground (arith, merge_intersect final ls [] p.1 v.1 w)
    merge_intersect final (l ∷ ls) (r ∷ rs) p v w =
        ap (count c z) (intersect_step (of_order c) final l r ls rs)
        ∙ elim (Bool-cases (is_eq (c l r))) [
          | inl e ↦ rw e (
              merge_intersect (add final l) ls rs p.1 v.1 w.1
              ∙ ground (arith, count-add c z final l p.0, heads_equal l r ls rs e))
          | inr e ↦ elim (Bool-cases (is_lt (c l r))) [
            | inl k ↦
                rw (e, k)
                  (merge_intersect final ls (r ∷ rs) p.1 v.1 w
                    ∙ ground (arith, head_less l r ls rs k w.0))
            | inr k ↦
                rw (e, k)
                  (merge_intersect final (l ∷ ls) rs p v w.1
                    ∙ ground (arith, head_greater l r ls rs e k v.0))
          ]
        ]

    merge_minus :
        (final ls rs : List (QueryResult D))
        → AllPlain ls
        → IsSorted c ls
        → IsSorted c rs
        → count c z (merge_bags (of_order c) bag_minus final ls rs)
          ≡ count c z final + (count c z ls - count c z rs)
    unfolding merge_bags
    merge_minus final [] rs p v w = omega arith
    merge_minus final (l ∷ ls) [] p v w =
        omega (arith, merge_minus (add final l) ls [] p.1 v.1 w, count-add c z final l p.0)
    merge_minus final (l ∷ ls) (r ∷ rs) p v w =
        ap (count c z) (minus_step (of_order c) final l r ls rs)
        ∙ elim (Bool-cases (is_eq (c l r))) [
          | inl e ↦
              rw e (merge_minus final ls rs p.1 v.1 w.1 ∙ ground (arith, heads_equal l r ls rs e))
          | inr e ↦ elim (Bool-cases (is_lt (c l r))) [
            | inl k ↦
                rw (e, k)
                  (merge_minus (add final l) ls (r ∷ rs) p.1 v.1 w
                    ∙ ground (arith, count-add c z final l p.0, head_less l r ls rs k w.0))
            | inr k ↦
                rw (e, k)
                  (merge_minus final (l ∷ ls) rs p v w.1
                    ∙ ground (arith, head_greater l r ls rs e k v.0))
          ]
        ]

either_counts :
    {D : Type 0} (c : QueryResult D → QueryResult D → Ordering) (z : QueryResult D)
    (ls rs : List (QueryResult D))
    → either_empty ls rs ≡ true
    → (0 ≡ min (count c z ls) (count c z rs)) × (count c z ls ≡ count c z ls - count c z rs)
either_counts c z [] rs h = (ground arith, omega arith)
either_counts c z (l ∷ ls) [] h = (ground arith, omega arith)
either_counts c z (l ∷ ls) (r ∷ rs) h = ground arith

module _ {D : Type 0} {d : Doubles D} (L : DoubleLaws d) (n : ℕ) (z : QueryResult D) where
  -- Where doubles are ordered and no element of the left bag is nothing or a bag or a sequence itself,
  -- the intersection of two bags holds every element as often as the one that has it less often,
  -- and the difference as often as the left has it more.
  pub bag_operate-count :
      (l r : QueryResult D)
      → AllPlain (as_bag l)
      → (count (order L n) z (bag_operate (tests d n) bag_intersect l r)
          ≡ min (count (order L n) z (as_bag l)) (count (order L n) z (as_bag r)))
        × (count (order L n) z (bag_operate (tests d n) bag_minus l r)
            ≡ count (order L n) z (as_bag l) - count (order L n) z (as_bag r))
  unfolding bag_operate
  bag_operate-count l r p =
      rw (tests_order L n) (elim (Bool-cases (either_empty (as_bag l) (as_bag r))) [
        | inl e ↦ rw e (either_counts (order L n) z (as_bag l) (as_bag r) e)
        | inr e ↦ rw e (
          merge_intersect c o z [] ls rs plain left right ∙ same_min,
          merge_minus c o z [] ls rs plain left right ∙ same_minus,
        )
      ])
    where
      c : QueryResult D → QueryResult D → Ordering
      c = order L n

      o : IsCompare c
      o = order-IsCompare L n

      ls : List (QueryResult D)
      ls = sort (of_order c).less_than (as_bag l)

      rs : List (QueryResult D)
      rs = sort (of_order c).less_than (as_bag r)

      plain : AllPlain ls
      plain = AllPlain-sort (of_order c).less_than (as_bag l) p

      left : IsSorted c ls
      left = sort-IsSorted c o (as_bag l)

      right : IsSorted c rs
      right = sort-IsSorted c o (as_bag r)

      same_min :
          0 + min (count c z ls) (count c z rs) ≡ min (count c z (as_bag l)) (count c z (as_bag r))
      same_min = ground (arith, count-sort c z (as_bag l), count-sort c z (as_bag r))

      same_minus : 0 + (count c z ls - count c z rs) ≡ count c z (as_bag l) - count c z (as_bag r)
      same_minus = omega (arith, count-sort c z (as_bag l), count-sort c z (as_bag r))
