-- ===== src/QueryExecutor/Algebraic/Counts.antt =====
-- How often an element stands in a list, up to a comparison, and what sorting and the loop over two
-- sorted lists do to it.
use loxim_stats.Base.{
  ℕ, ◌+◌, ◌≡◌, refl, Bool, true, false, List, [], ◌∷◌, ◌++◌, if◌then◌else◌, arith,
}
use loxim_stats.Base.Compare.{is_lt, is_eq, IsCompare}
use Prim.Native.Nat.{Ordering}
use loxim_stats.QueryExecutor.Compare.{insert_sorted, sort}

module _ {ℓ} {A : Type ℓ} (c : A → A → Ordering) where
  -- The number of elements that compare as equal.
  abbrev pub count : A → List A → ℕ
  count z [] = 0
  count z (x ∷ xs) = (if is_eq (c z x) then 1 else 0) + count z xs

  pub count-append : (z : A) (xs ys : List A) → count z (xs ++ ys) ≡ count z xs + count z ys
  count-append z [] ys = omega arith
  count-append z (x ∷ xs) ys = omega (arith, count-append z xs ys)

  abbrev pub less : A → A → Bool
  less x y = is_lt (c x y)

  count-insert_sorted :
      (z x : A) (xs : List A) → count z (insert_sorted less x xs) ≡ count z (x ∷ xs)
  unfolding insert_sorted
  count-insert_sorted z x [] = refl
  count-insert_sorted z x (y ∷ ys) = ground (arith, count-insert_sorted z x ys)

  pub count-sort : (z : A) (xs : List A) → count z (sort less xs) ≡ count z xs
  unfolding sort
  count-sort z [] = refl
  count-sort z (x ∷ xs) = omega (arith, count-insert_sorted z x (sort less xs), count-sort z xs)

  -- None of the list is less than `x`.
  abbrev pub NoneLess : A → List A → Type 0
  NoneLess x [] = Unit {0}
  NoneLess x (y ∷ ys) = (is_lt (c y x) ≡ false) × NoneLess x ys

  abbrev pub IsSorted : List A → Type 0
  IsSorted [] = Unit {0}
  IsSorted (x ∷ xs) = NoneLess x xs × IsSorted xs

  module _ (o : IsCompare c) where
    NoneLess-trans : (x y : A) (ys : List A) → is_lt (c y x) ≡ false → NoneLess y ys → NoneLess x ys
    NoneLess-trans x y [] h v = tt
    NoneLess-trans x y (z ∷ zs) h v =
        (ground (arith, o.chains z x y, o.swaps x y, o.swaps z x), NoneLess-trans x y zs h v.1)

    NoneLess-insert_sorted :
        (x y : A) (ys : List A)
        → is_lt (c y x) ≡ false
        → NoneLess x ys
        → NoneLess x (insert_sorted less y ys)
    unfolding insert_sorted
    NoneLess-insert_sorted x y [] h v = (h, tt)
    NoneLess-insert_sorted x y (z ∷ zs) h v = ground (arith, NoneLess-insert_sorted x y zs h v.1)

    insert_sorted-IsSorted :
        (x : A) (xs : List A) → IsSorted xs → IsSorted (insert_sorted less x xs)
    unfolding insert_sorted
    insert_sorted-IsSorted x [] v = (tt, tt)
    insert_sorted-IsSorted x (y ∷ ys) v = ground (
      arith,
      insert_sorted-IsSorted x ys v.1,
      NoneLess-insert_sorted y x ys,
      NoneLess-trans x y ys,
      o.swaps x y,
    )

    pub sort-IsSorted : (xs : List A) → IsSorted (sort less xs)
    unfolding sort
    sort-IsSorted [] = tt
    sort-IsSorted (x ∷ xs) = insert_sorted-IsSorted x (sort less xs) (sort-IsSorted xs)

    -- What is less than the head of a sorted list does not stand in it.
    pub count_below :
        (z x y : A) (ys : List A)
        → is_eq (c z x) ≡ true
        → is_lt (c x y) ≡ true
        → NoneLess y ys
        → count z (y ∷ ys) ≡ 0
    count_below z x y [] e h v = ground (arith, o.chains z x y)
    count_below z x y (u ∷ us) e h v = ground (
      arith,
      o.chains z x y,
      o.chains z x u,
      o.chains x y u,
      o.swaps u y,
      count_below z x y us e h v.1,
    )
