-- ===== src/QueryExecutor/Algebraic/Sizes.antt =====
-- How many elements the operators on bags give.
use loxim_stats.Base.{
  ℕ, ◌+◌, ◌≤◌, ◌≡◌, ap, subst, ◌∙◌, List, [], ◌∷◌, arith, length, length-append, Bool-cases, inl,
  inr,
}
use loxim_stats.QueryExecutor.Result.{QueryResult}
use loxim_stats.QueryExecutor.Compare.{Tests, sort}
use loxim_stats.QueryExecutor.Compare.Sorting.{length-sort}
use loxim_stats.QueryExecutor.Algebraic.{
  BagOperator, bag_intersect, bag_minus, add, as_bag, merge_bags, bag_operate, either_empty,
  kept_of_empty,
}
use loxim_stats.QueryExecutor.Algebraic.Plain.{IsPlain, AllPlain, add_plain, AllPlain-sort}

-- The bound of the right bag on the operators that keep only what is in both.
abbrev pub right_bound : BagOperator → ℕ → ℕ → ℕ
right_bound bag_intersect l r = r
right_bound bag_minus l r = l

abbrev pub Bounded : BagOperator → ℕ → ℕ → ℕ → Type 0
Bounded op n l r = (n ≤ l) × (n ≤ right_bound op l r)

module _ {D : Type 0} where
  length-add :
      (final : List (QueryResult D)) (r : QueryResult D)
      → IsPlain r
      → length (add final r) ≡ length final + 1
  length-add final r p = ap length (add_plain final r p) ∙ length-append final (r ∷ [])

  module _ (t : Tests D) where
    intersect_length :
        (final ls rs : List (QueryResult D))
        → AllPlain ls
        → (length (merge_bags t bag_intersect final ls rs) ≤ length final + length ls)
          × (length (merge_bags t bag_intersect final ls rs) ≤ length final + length rs)
    unfolding merge_bags
    intersect_length final [] rs p = (omega arith, omega arith)
    intersect_length final (l ∷ ls) [] p = ground (arith, intersect_length final ls [] p.1)
    intersect_length final (l ∷ ls) (r ∷ rs) p = elim (Bool-cases (t.equal l r)) [
      | inl e ↦
          rw (e, merge_bags)
            (ground (arith, intersect_length (add final l) ls rs p.1, length-add final l p.0))
      | inr e ↦ elim (Bool-cases (t.less_than l r)) [
        | inl f ↦ rw (e, f, merge_bags) (ground (arith, intersect_length final ls (r ∷ rs) p.1))
        | inr f ↦ rw (e, f, merge_bags) (ground (arith, intersect_length final (l ∷ ls) rs p))
      ]
    ]

    minus_length :
        (final ls rs : List (QueryResult D))
        → AllPlain ls
        → length (merge_bags t bag_minus final ls rs) ≤ length final + length ls
    unfolding merge_bags
    minus_length final [] rs p = omega arith
    minus_length final (l ∷ ls) [] p =
        omega (arith, minus_length (add final l) ls [] p.1, length-add final l p.0)
    minus_length final (l ∷ ls) (r ∷ rs) p = elim (Bool-cases (t.equal l r)) [
      | inl e ↦ rw (e, merge_bags) (ground (arith, minus_length final ls rs p.1))
      | inr e ↦ elim (Bool-cases (t.less_than l r)) [
        | inl f ↦
            rw (e, f, merge_bags)
              (ground (arith, minus_length (add final l) ls (r ∷ rs) p.1, length-add final l p.0))
        | inr f ↦ rw (e, f, merge_bags) (ground (arith, minus_length final (l ∷ ls) rs p))
      ]
    ]

    kept_length :
        (op : BagOperator) (v w : QueryResult D)
        → Bounded op (length (kept_of_empty op v)) (length (as_bag v)) (length (as_bag w))
    kept_length bag_intersect v w = (omega arith, omega arith)
    kept_length bag_minus v w = (omega arith, omega arith)

    merge_length :
        (op : BagOperator) (ls rs : List (QueryResult D))
        → AllPlain ls
        → Bounded op (length (merge_bags t op [] ls rs)) (length ls) (length rs)
    merge_length bag_intersect ls rs p =
        (omega (arith, intersect_length [] ls rs p), omega (arith, intersect_length [] ls rs p))
    merge_length bag_minus ls rs p =
        (omega (arith, minus_length [] ls rs p), omega (arith, minus_length [] ls rs p))

    -- Where the elements of the left bag are plain, an intersection holds at most as many elements as
    -- either bag, and a difference at most as many as the left one.
    pub bag_operate-length :
        (op : BagOperator) (v w : QueryResult D)
        → AllPlain (as_bag v)
        → Bounded op (length (bag_operate t op v w)) (length (as_bag v)) (length (as_bag w))
    unfolding bag_operate
    bag_operate-length op v w p =
        let ls = sort t.less_than (as_bag v) in
        let rs = sort t.less_than (as_bag w) in
        let n = length (merge_bags t op [] ls rs) in
        elim (Bool-cases (either_empty (as_bag v) (as_bag w))) [
          | inl e ↦ rw e (kept_length op v w)
          | inr e ↦ rw e (
              subst (λ a. Bounded op n a (length (as_bag w))) (length-sort t.less_than (as_bag v))
                (subst (Bounded op n (length ls)) (length-sort t.less_than (as_bag w))
                  (merge_length op ls rs (AllPlain-sort t.less_than (as_bag v) p))))
        ]
