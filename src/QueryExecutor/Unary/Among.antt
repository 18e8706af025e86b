-- ===== src/QueryExecutor/Unary/Among.antt =====
-- The accumulators of min and max hold elements of the bag.
use loxim_stats.Base.{
  ◌≡◌, refl, sym, Option, none, some, List, [], ◌∷◌, arith, ◌⊎◌, inl, inr, subst, Bool-cases,
}
use loxim_stats.Base.Int.{ℤ}
use loxim_stats.QueryExecutor.Doubles.{Doubles}
use loxim_stats.QueryExecutor.Result.{QueryResult, int, double, nothing}
use loxim_stats.QueryExecutor.Unary.{
  Bests, Extreme, beats_int, beats_double, better_int, better_double, try_number, int_first,
  best_of,
}
use loxim_stats.QueryExecutor.Unary.Held.{tries}

module _ {D : Type 0} where
  -- The result stands in the list.
  abbrev pub Among : QueryResult D → List (QueryResult D) → Type 0
  Among m [] = ⊥
  Among m (x ∷ xs) = (m ≡ x) ⊎ Among m xs

  abbrev IntAmong : Option ℤ → List (QueryResult D) → Type 0
  IntAmong none xs = ⊥
  IntAmong (some v) xs = Among (int v) xs

  abbrev DoubleAmong : Option D → List (QueryResult D) → Type 0
  DoubleAmong none xs = ⊥
  DoubleAmong (some v) xs = Among (double v) xs

module _ {D : Type 0} (d : Doubles D) (e : Extreme) where
  int_pick :
      (v : ℤ) (best : Option ℤ) (xs : List (QueryResult D))
      → (some (better_int d e v best) ≡ best) ⊎ IntAmong (some (better_int d e v best)) (int v ∷ xs)
  int_pick v none xs = inr (inl refl)
  int_pick v (some w) xs = elim (Bool-cases (beats_int d e v w)) [
    | inl h ↦ inr (inl (rw h refl))
    | inr h ↦ inl (rw h refl)
  ]

  double_pick :
      (v : D) (best : Option D) (xs : List (QueryResult D))
      → (some (better_double d e v best) ≡ best)
        ⊎ DoubleAmong (some (better_double d e v best)) (double v ∷ xs)
  double_pick v none xs = inr (inl refl)
  double_pick v (some w) xs = elim (Bool-cases (beats_double d e v w)) [
    | inl h ↦ inr (inl (rw h refl))
    | inr h ↦ inl (rw h refl)
  ]

  int_weaken :
      (best : Option ℤ) (x : QueryResult D) (xs : List (QueryResult D))
      → IntAmong best xs
      → IntAmong best (x ∷ xs)
  int_weaken none x xs h = h
  int_weaken (some v) x xs h = inr h

  double_weaken :
      (best : Option D) (x : QueryResult D) (xs : List (QueryResult D))
      → DoubleAmong best xs
      → DoubleAmong best (x ∷ xs)
  double_weaken none x xs h = h
  double_weaken (some v) x xs h = inr h

  int_try :
      (b : Bests D) (x : QueryResult D) (xs : List (QueryResult D))
      → ((try_number d e b x).i_best ≡ b.i_best) ⊎ IntAmong (try_number d e b x).i_best (x ∷ xs)
  unfolding try_number
  int_try b (int v) xs = int_pick v b.i_best xs
  int_try b x xs = inl refl

  double_try :
      (b : Bests D) (x : QueryResult D) (xs : List (QueryResult D))
      → ((try_number d e b x).d_best ≡ b.d_best) ⊎ DoubleAmong (try_number d e b x).d_best (x ∷ xs)
  unfolding try_number
  double_try b (double v) xs = double_pick v b.d_best xs
  double_try b x xs = inl refl

  -- What the accumulators hold was there before or stands in the list.
  pub int_among :
      (b : Bests D) (xs : List (QueryResult D))
      → ((tries d e b xs).i_best ≡ b.i_best) ⊎ IntAmong (tries d e b xs).i_best xs
  int_among b [] = inl refl
  int_among b (x ∷ xs) = elim (int_among (try_number d e b x) xs) [
    | inr h ↦ inr (int_weaken (tries d e (try_number d e b x) xs).i_best x xs h)
    | inl same ↦
        subst (λ best. (best ≡ b.i_best) ⊎ IntAmong best (x ∷ xs)) (sym same) (int_try b x xs)
  ]

  pub double_among :
      (b : Bests D) (xs : List (QueryResult D))
      → ((tries d e b xs).d_best ≡ b.d_best) ⊎ DoubleAmong (tries d e b xs).d_best xs
  double_among b [] = inl refl
  double_among b (x ∷ xs) = elim (double_among (try_number d e b x) xs) [
    | inr h ↦ inr (double_weaken (tries d e (try_number d e b x) xs).d_best x xs h)
    | inl same ↦
        subst (λ best. (best ≡ b.d_best) ⊎ DoubleAmong best (x ∷ xs)) (sym same) (double_try b x xs)
  ]

  pub best-Among :
      (i_best : Option ℤ) (d_best : Option D) (xs : List (QueryResult D))
      → (i_best ≡ none) ⊎ IntAmong i_best xs
      → (d_best ≡ none) ⊎ DoubleAmong d_best xs
      → (best_of d e i_best d_best ≡ nothing) ⊎ Among (best_of d e i_best d_best) xs
  best-Among none none xs h k = inl refl
  best-Among (some v) none xs (inr h) k = inr h
  best-Among none (some w) xs h (inr k) = inr k
  best-Among (some v) (some w) xs (inr h) (inr k) = elim (Bool-cases (int_first d e v w)) [
    | inl f ↦ rw f (inr h)
    | inr f ↦ rw f (inr k)
  ]
  best-Among (some v) d_best xs (inl h) k = absurd (ground arith)
  best-Among i_best (some w) xs h (inl k) = absurd (ground arith)
