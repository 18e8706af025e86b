-- ===== src/QueryExecutor/Unary/Extremes.antt =====
-- min and max answer an element that no other beats.
use loxim_stats.Base.{◌≡◌, refl, none, List, [], ◌∷◌, ◌⊎◌}
use loxim_stats.QueryExecutor.Doubles.{Doubles, DoubleLaws}
use loxim_stats.QueryExecutor.Result.{QueryResult, nothing, Answer, ok}
use loxim_stats.QueryExecutor.Unary.{Bests, Extreme, try_number, best_of, extreme_loop, extreme}
use loxim_stats.QueryExecutor.Unary.Held.{tries, Unbeaten, tries_held, all-Unbeaten}
use loxim_stats.QueryExecutor.Unary.Among.{Among, int_among, double_among, best-Among}

module _ {D : Type 0} (deref : QueryResult D → Answer (QueryResult D)) where
  -- What the elements of a list are dereferenced to, one by one.
  abbrev pub Dereferences : List (QueryResult D) → List (QueryResult D) → Type 0
  Dereferences [] [] = Unit {0}
  Dereferences [] (x ∷ xs) = ⊥
  Dereferences (r ∷ rs) [] = ⊥
  Dereferences (r ∷ rs) (x ∷ xs) = (deref r ≡ ok x) × Dereferences rs xs

module _ {D : Type 0} {d : Doubles D} (L : DoubleLaws d)
    (deref : QueryResult D → Answer (QueryResult D)) (e : Extreme) where
  loop_tries :
      (b : Bests D) (rs xs : List (QueryResult D))
      → Dereferences deref rs xs
      → extreme_loop d deref e b rs ≡ ok (tries d e b xs)
  unfolding extreme_loop
  loop_tries b [] [] h = refl
  loop_tries b [] (x ∷ xs) h = absurd h
  loop_tries b (r ∷ rs) [] h = absurd h
  loop_tries b (r ∷ rs) (x ∷ xs) h = rw h.0 (loop_tries (try_number d e b x) rs xs h.1)

  abbrev no_bests : Bests D
  no_bests = record { i_best = none; d_best = none }

  -- Where doubles are ordered and the elements at hand are dereferenced to the values `xs`, min and max
  -- answer nothing or one of these values, and none of them beats what they answer: the answer is nothing
  -- only where no value is a number. Ints and doubles are compared as doubles.
  pub extreme-Unbeaten :
      (rs xs : List (QueryResult D))
      → Dereferences deref rs xs
      → (m : QueryResult D) × (extreme d deref e rs ≡ ok m)
        × ((m ≡ nothing) ⊎ Among m xs)
        × Unbeaten L e m xs
  unfolding extreme
  extreme-Unbeaten rs xs h =
      let b = tries d e no_bests xs in
      (
        best_of d e b.i_best b.d_best,
        rw (loop_tries no_bests rs xs h) refl,
        best-Among d e b.i_best b.d_best xs (int_among d e no_bests xs)
            (double_among d e no_bests xs),
        all-Unbeaten L e b xs (tries_held L e no_bests xs),
      )
