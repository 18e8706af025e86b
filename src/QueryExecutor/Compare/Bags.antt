-- ===== src/QueryExecutor/Compare/Bags.antt =====
-- Collections are compared without regard to the order of their elements.
use loxim_stats.Base.{ℕ, suc, ◌≡◌, refl, ap, ◌∙◌, subst, Bool, true, List, [], ◌∷◌, length, arith}
use loxim_stats.Base.Compare.{is_lt, is_eq, flip, IsCompare, compare_list, compare_list-IsCompare}
use Prim.Native.Nat.{Ordering}
use Prim.Native.Nat.Ordering.{lt, eq, gt}
use mathlib.Core.List.{Perm, Permᴰ}
use mathlib.Core.Logic.{∥∥₁_elim}
use loxim_stats.QueryExecutor.Doubles.{Doubles, DoubleLaws}
use loxim_stats.QueryExecutor.Result.{Results, bag, sequence, to_list}
use loxim_stats.QueryExecutor.Compare.{insert_sorted, sort, tests}
use loxim_stats.QueryExecutor.Compare.Order.{order, order-IsCompare}
use loxim_stats.QueryExecutor.Compare.Levels.{tests-order}

module _ {ℓ} {A : Type ℓ} (c : A → A → Ordering) (o : IsCompare c) where
  abbrev less : A → A → Bool
  less x y = is_lt (c x y)

  pub self : (x : A) → c x x ≡ eq
  self x = self_flip (c x x) (o.swaps x x)
    where
      self_flip : (r : Ordering) → r ≡ flip r → r ≡ eq
      self_flip lt e = cc
      self_flip eq e = refl
      self_flip gt e = cc

  same_self : (xs : List A) → compare_list c xs xs ≡ eq
  unfolding compare_list
  same_self [] = refl
  same_self (x ∷ xs) = rw (self x) (same_self xs)

  -- Elements that compare as equal compare alike with others that do.
  pub same_outcome : (x y u v : A) → c x y ≡ eq → c u v ≡ eq → c u x ≡ c v y
  same_outcome x y u v e k =
      ground (arith, o.swaps u v, o.chains v u x, o.chains v x y, o.swaps x y)

  insert_same :
      (x y : A) (xs ys : List A)
      → c x y ≡ eq
      → compare_list c xs ys ≡ eq
      → compare_list c (insert_sorted less x xs) (insert_sorted less y ys) ≡ eq
  unfolding compare_list insert_sorted
  insert_same x y [] [] e k = rw e refl
  insert_same x y [] (v ∷ ys) e k = ground arith
  insert_same x y (u ∷ xs) [] e k = ground arith
  insert_same x y (u ∷ xs) (v ∷ ys) e k =
      ground (arith, same_outcome x y u v, insert_same x y xs ys)

  insert_swap :
      (x y : A) (l : List A)
      → compare_list c
          (insert_sorted less x (insert_sorted less y l))
          (insert_sorted less y (insert_sorted less x l))
        ≡ eq
  unfolding compare_list insert_sorted
  insert_swap x y [] = ground (arith, o.swaps x y, self x, self y)
  insert_swap x y (u ∷ us) = ground (
    arith,
    o.swaps x y,
    self x,
    self y,
    self u,
    same_self us,
    o.swaps u x,
    o.swaps u y,
    o.chains x u y,
    o.chains y u x,
    insert_swap x y us,
    same_self (insert_sorted less x us),
    same_self (insert_sorted less y us),
  )

  sort_permuted : {xs ys : List A} → Permᴰ xs ys → compare_list c (sort less xs) (sort less ys) ≡ eq
  unfolding sort
  sort_permuted Permᴰ.nil = same_self []
  sort_permuted (Permᴰ.cons {a = a} {b = b} {l₁ = xs} {l₂ = ys} e p) =
      insert_same a b (sort less xs) (sort less ys) (subst (λ z. c a z ≡ eq) e (self a))
        (sort_permuted p)
  sort_permuted (Permᴰ.swap {a = a} {b = b} {a' = a'} {b' = b'} {l = l} e k) =
      subst
        (λ z.
          compare_list c (sort less (a ∷ b ∷ l))
            (insert_sorted less z (insert_sorted less b' (sort less l)))
          ≡ eq)
        k
        (subst
          (λ z.
            compare_list c (sort less (a ∷ b ∷ l))
              (insert_sorted less b (insert_sorted less z (sort less l)))
            ≡ eq)
          e (insert_swap a b (sort less l)))
  sort_permuted (Permᴰ.trans {l₁ = xs} {l₂ = ys} {l₃ = zs} p q) = ground (
    arith,
    (compare_list-IsCompare c o).chains (sort less xs) (sort less ys) (sort less zs),
    sort_permuted p,
    sort_permuted q,
  )

permuted_length : {A : Type 0} {xs ys : List A} → Permᴰ xs ys → length xs ≡ length ys
permuted_length Permᴰ.nil = refl
permuted_length (Permᴰ.cons e p) = ap suc (permuted_length p)
permuted_length (Permᴰ.swap e k) = refl
permuted_length (Permᴰ.trans p q) = permuted_length p ∙ permuted_length q

module _ {D : Type 0} {d : Doubles D} (L : DoubleLaws d) (n : ℕ) where
  permuted :
      (xs ys : Results D)
      → Permᴰ (to_list xs) (to_list ys)
      → (order L (suc n) (bag xs) (bag ys) ≡ eq)
        × (order L (suc n) (sequence xs) (sequence ys) ≡ eq)
  unfolding order
  permuted xs ys p =
      ground (arith, permuted_length p, sort_permuted (order L n) (order-IsCompare L n) p)

  -- Where doubles are ordered, two bags with the same elements, each as often, are equal, whatever the
  -- order of their elements.
  pub equal-bag_perm :
      (xs ys : Results D)
      → Perm (to_list xs) (to_list ys)
      → (tests d (suc n)).equal (bag xs) (bag ys) ≡ true
  equal-bag_perm xs ys p =
      ∥∥₁_elim p (hlevel)
        (λ q. (tests-order L (suc n) (bag xs) (bag ys)).0 ∙ ap is_eq (permuted xs ys q).0)

  -- Where doubles are ordered, two sequences with the same elements, each as often, are equal: equal does
  -- not look at their order.
  pub equal-sequence_perm :
      (xs ys : Results D)
      → Perm (to_list xs) (to_list ys)
      → (tests d (suc n)).equal (sequence xs) (sequence ys) ≡ true
  equal-sequence_perm xs ys p =
      ∥∥₁_elim p (hlevel)
        (λ q. (tests-order L (suc n) (sequence xs) (sequence ys)).0 ∙ ap is_eq (permuted xs ys q).1)
