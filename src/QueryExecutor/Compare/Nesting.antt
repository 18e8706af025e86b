-- ===== src/QueryExecutor/Compare/Nesting.antt =====
-- The bound on the nesting of results: any that is above their depth gives the same answers, so equal
-- and less_than, which call themselves on what is inside, come to an end.
use loxim_stats.Base.{
  ℕ, zero, suc, ◌≤◌, ◌<◌, ◌≡◌, refl, ap, ap₂, ◌∙◌, Bool, true, false, List, [], ◌∷◌, if◌then◌else◌,
  leb, arith,
}
use loxim_stats.QueryExecutor.Doubles.{Doubles}
use loxim_stats.QueryExecutor.Result.{
  QueryResult, Results, binder, structure, bag, sequence, nil, cons, to_list,
}
use loxim_stats.QueryExecutor.Compare.{
  Tests, insert_sorted, sort, equal_elements, less_elements, equal_collections, less_collections,
  equal_level, less_level, tests,
}

-- How deep results stand in a result.
unfoldable mutual
  pub depth : {D : Type 0} → QueryResult D → ℕ
  depth (binder n r) = suc (depth r)
  depth (structure rs) = suc (depth_all rs)
  depth (bag rs) = suc (depth_all rs)
  depth (sequence rs) = suc (depth_all rs)
  depth _ = 0

  pub depth_all : {D : Type 0} → Results D → ℕ
  depth_all nil = 0
  depth_all (cons r rs) = if leb (depth r) (depth_all rs) then depth_all rs else depth r

below_both : (a b k : ℕ) → (if leb a b then b else a) < k → (a < k) × (b < k)
below_both a b k h = ground arith

module _ {D : Type 0} where
  abbrev Shallow : ℕ → List (QueryResult D) → Type 0
  Shallow k [] = Unit {0}
  Shallow k (r ∷ rs) = (depth r < k) × Shallow k rs

  -- Two tests that answer alike on results of less than the depth.
  abbrev Agree : ℕ → Tests D → Tests D → Type 0
  Agree k t u =
      (a b : QueryResult D)
      → depth a < k
      → depth b < k
      → (t.equal a b ≡ u.equal a b) × (t.less_than a b ≡ u.less_than a b)

  Shallow-all : (k : ℕ) (rs : Results D) → depth_all rs < k → Shallow k (to_list rs)
  unfolding depth
  Shallow-all k nil h = tt
  Shallow-all k (cons r rs) h =
      let (first, rest) = below_both (depth r) (depth_all rs) k h in (first, Shallow-all k rs rest)

  Shallow-if :
      (k : ℕ) (b : Bool) (xs ys : List (QueryResult D))
      → Shallow k xs
      → Shallow k ys
      → Shallow k (if b then xs else ys)
  Shallow-if k true xs ys v w = v
  Shallow-if k false xs ys v w = w

  module _ (k : ℕ) (t u : Tests D) (agree : Agree k t u) where
    insert_agree :
        (x : QueryResult D) (xs : List (QueryResult D))
        → depth x < k
        → Shallow k xs
        → (insert_sorted t.less_than x xs ≡ insert_sorted u.less_than x xs)
          × Shallow k (insert_sorted t.less_than x xs)
    unfolding insert_sorted
    insert_agree x [] h v = (refl, (h, tt))
    insert_agree x (y ∷ ys) h v =
        let (same, s) = insert_agree x ys h v.1 in
        (
          ap₂ (λ p r. if p then y ∷ r else x ∷ y ∷ ys) (agree y x v.0 h).1 same,
          Shallow-if k (t.less_than y x) (y ∷ insert_sorted t.less_than x ys) (x ∷ y ∷ ys) (v.0, s)
              (h, v),
        )

    sort_agree :
        (xs : List (QueryResult D))
        → Shallow k xs
        → (sort t.less_than xs ≡ sort u.less_than xs) × Shallow k (sort t.less_than xs)
    unfolding sort
    sort_agree [] v = (refl, tt)
    sort_agree (x ∷ xs) v =
        let (same, w) = sort_agree xs v.1 in
        let (inserted, s) = insert_agree x (sort t.less_than xs) v.0 w in
        (inserted ∙ ap (insert_sorted u.less_than x) same, s)

    elements_agree :
        (xs ys : List (QueryResult D))
        → Shallow k xs
        → Shallow k ys
        → (equal_elements t xs ys ≡ equal_elements u xs ys)
          × (less_elements t xs ys ≡ less_elements u xs ys)
    unfolding equal_elements less_elements
    elements_agree [] ys v w = (refl, refl)
    elements_agree (x ∷ xs) [] v w = (refl, refl)
    elements_agree (x ∷ xs) (y ∷ ys) v w =
        let (eq, less) = agree x y v.0 w.0 in
        let (equal_rest, less_rest) = elements_agree xs ys v.1 w.1 in
        (rw (eq, equal_rest) refl, rw (eq, less, less_rest) refl)

    collections_agree :
        (xs ys : Results D)
        → depth_all xs < k
        → depth_all ys < k
        → (equal_collections t (to_list xs) (to_list ys)
            ≡ equal_collections u (to_list xs) (to_list ys))
          × (less_collections t (to_list xs) (to_list ys)
              ≡ less_collections u (to_list xs) (to_list ys))
    unfolding equal_collections less_collections
    collections_agree xs ys h l =
        let (same, v) = sort_agree (to_list xs) (Shallow-all k xs h) in
        let (same', w) = sort_agree (to_list ys) (Shallow-all k ys l) in
        let (equal, less) =
          elements_agree (sort t.less_than (to_list xs)) (sort t.less_than (to_list ys)) v w in
        (rw (equal, same, same') refl, rw (less, same, same') refl)

    level-Agree :
        (d : Doubles D)
        → Agree
            (suc k)
            (record { equal = equal_level d t; less_than = less_level d t })
            (record { equal = equal_level d u; less_than = less_level d u })
    unfolding equal_level less_level depth
    level-Agree d (sequence xs) (sequence ys) h l =
        collections_agree xs ys (omega arith) (omega arith)
    level-Agree d (bag xs) (bag ys) h l = collections_agree xs ys (omega arith) (omega arith)
    level-Agree d (structure xs) (structure ys) h l =
        collections_agree xs ys (omega arith) (omega arith)
    level-Agree d (binder n r) (binder m s) h l =
        let (eq, less) = agree r s (omega arith) (omega arith) in (rw eq refl, rw less refl)
    level-Agree d a b h l = (refl, refl)

  tests-Agree : (d : Doubles D) (k n m : ℕ) → k ≤ n → k ≤ m → Agree k (tests d n) (tests d m)
  unfolding tests
  tests-Agree d zero n m h l a b p q = absurd (omega arith)
  tests-Agree d (suc k) zero m h l a b p q = absurd (omega arith)
  tests-Agree d (suc k) (suc n) zero h l a b p q = absurd (omega arith)
  tests-Agree d (suc k) (suc n) (suc m) h l a b p q =
      level-Agree k (tests d n) (tests d m) (tests-Agree d k n m (omega arith) (omega arith)) d a b
        p q

  -- Every two bounds above the depths of two results give the same answers for them.
  pub tests_enough :
      (d : Doubles D) (a b : QueryResult D) (n m : ℕ)
      → depth a < n
      → depth b < n
      → n ≤ m
      → ((tests d n).equal a b ≡ (tests d m).equal a b)
        × ((tests d n).less_than a b ≡ (tests d m).less_than a b)
  tests_enough d a b n m h l le = tests-Agree d n n m (omega arith) le a b h l
