-- ===== src/Indexes/Resolver.antt =====
-- src/Indexes/VisibilityResolver.cpp: whether what a transaction did to an index is seen by one that
-- began at some time. The maps of the source are functions; its mutex is left out.
use loxim_stats.Base.{ℕ, Bool, true, false, not, ◌||◌, Option, none, some, if◌then◌else◌}
use loxim_stats.Base.Int.{ℤ, negsuc, ltb_ℤ, eqb_ℤ}

-- const.h.
abbrev pub beyond_horizon : ℤ
beyond_horizon = negsuc 2

abbrev pub rolled_back : ℤ
rolled_back = negsuc 1

pub record Resolver : Type 0 where
  pub horizon : ℤ
  -- The transactions that were rolled back on an index.
  pub rolled_back_on : ℕ → ℤ → Bool
  pub commit_ts : ℤ → Option ℤ

abbrev pub is_rolled_back : Resolver → ℤ → ℕ → Bool
is_rolled_back r tid index = eqb_ℤ tid rolled_back || r.rolled_back_on index tid

abbrev pub is_beyond_horizon : Resolver → ℤ → Bool
is_beyond_horizon r tid = not (ltb_ℤ r.horizon tid)

abbrev pub committed_before : Resolver → ℤ → ℤ → Option ℤ → Bool
committed_before r from begin none = is_beyond_horizon r from
committed_before r from begin (some commit_time) = ltb_ℤ commit_time begin

unfoldable pub is_visible : Resolver → ℤ → ℤ → ℕ → Bool
is_visible r from begin index =
    if eqb_ℤ from beyond_horizon
    then true
    else if is_rolled_back r from index
    then false
    else committed_before r from begin (r.commit_ts from)
