-- ===== src/QueryExecutor/NonAlgebraic/Quantifiers.antt =====
-- exists, forAll and where over rows for which the right argument is a Boolean.
use loxim_stats.Base.{ℕ, suc, Bool, true, false, ◌&&◌, ◌||◌, List, [], ◌∷◌, if◌then◌else◌}
use loxim_stats.QueryExecutor.Doubles.{Doubles}
use loxim_stats.QueryExecutor.Result.{QueryResult, boolean}

module _ {D : Type 0} (p : ℕ → QueryResult D → Bool) where
  -- The Booleans of the rows from position `i` on.
  abbrev pub values : ℕ → List (QueryResult D) → List (QueryResult D)
  values i [] = []
  values i (row ∷ rows) = boolean (p i row) ∷ values (suc i) rows

  abbrev pub some_row : ℕ → List (QueryResult D) → Bool
  some_row i [] = false
  some_row i (row ∷ rows) = p i row || some_row (suc i) rows

  abbrev pub every_row : ℕ → List (QueryResult D) → Bool
  every_row i [] = true
  every_row i (row ∷ rows) = p i row && every_row (suc i) rows

  abbrev pub selected : ℕ → List (QueryResult D) → List (QueryResult D)
  selected i [] = []
  selected i (row ∷ rows) = if p i row then row ∷ selected (suc i) rows else selected (suc i) rows
