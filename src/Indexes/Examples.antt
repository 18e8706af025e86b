-- ===== src/Indexes/Examples.antt =====
-- Two leaves with the keys 1 and 3, 3 and 5.
use loxim_stats.Base.{ℕ, ◌<◌, ◌^◌, arith, ◌≡◌, refl, true, false, none, some, List, [], ◌∷◌}
use loxim_stats.Base.Int.{pos, negsuc, ◌-ℤ◌}
use loxim_stats.Base.Compare.{compare_ℤ}
use Prim.Native.Nat.{compare}
use Prim.Native.Nat.Ordering.{lt}
use loxim_stats.Indexes.Comparator.{
  SmallKey, compare_key, compare_small, compare_small-IsCompare, compare_key_order,
}
use loxim_stats.Indexes.Sieve.{Viewer, EntrySieve, new_sieve, add, get_result}
use loxim_stats.Indexes.Sieve.History.{alive}
use loxim_stats.Indexes.Sieve.Alive.{seen, get_result-alive}
use loxim_stats.Indexes.Traveller.{RootEntry, travel_to}
use loxim_stats.Indexes.Constraints.{Constraints, Position, two_side, search}
use loxim_stats.Indexes.Constraints.Walk.{feed}
use loxim_stats.Indexes.Constraints.Range.{kept}
use loxim_stats.Indexes.Constraints.Search.{within}
use loxim_stats.Indexes.Tree.{Tree, leaf, inner, entry, no_more, leaves_of, find}
use loxim_stats.Indexes.Tree.Guided.{entries}
use loxim_stats.Indexes.Tree.Separated.{IsSeparated}
use loxim_stats.Indexes.Tree.Search.{search-find}

abbrev entry_of : ℕ → ℕ → RootEntry ℕ
entry_of key lid = record {
  modyfier_transaction_id = negsuc 0;
  add_time = pos 2;
  del_time = negsuc 0;
  logical_id = lid;
  key = key;
}

abbrev first : Position ℕ
first = record {
  entry = entry_of 1 7;
  after = entry_of 3 8 ∷ [];
  leaves = (entry_of 3 9 ∷ entry_of 5 6 ∷ []) ∷ [];
}

abbrev viewer : Viewer
viewer = record {
  id = pos 4;
  time_stamp = pos 10;
  index = 1;
  resolver = record {
    horizon = pos 3;
    rolled_back_on = λ index tid. false;
    commit_ts = λ tid. none;
  };
}

abbrev empty : EntrySieve
empty = new_sieve 0 (pos 0) true

-- Int keys, compared by the sign of their difference.
abbrev small : (n : ℕ) → n < 2 ^ 30 → SmallKey
small n h = record { value = pos n; small = h }

abbrev one : SmallKey
one = small 1 (omega arith)

abbrev minus_two : SmallKey
minus_two = record { value = negsuc 1; small = omega arith }

abbrev three : SmallKey
three = small 3 (omega arith)

abbrev five : SmallKey
five = small 5 (omega arith)

abbrev entry_at : SmallKey → ℕ → RootEntry SmallKey
entry_at key lid = record {
  modyfier_transaction_id = negsuc 0;
  add_time = pos 2;
  del_time = negsuc 0;
  logical_id = lid;
  key = key;
}

-- A root with the key 3 between the two leaves.
abbrev tree : Tree SmallKey
tree =
    inner (leaf (entry_at minus_two 7 ∷ entry_at three 8 ∷ []))
      (entry 8 three (leaf (entry_at three 9 ∷ entry_at five 6 ∷ [])) no_more)

abbrev between : Constraints SmallKey
between = two_side false one three true

search-find_example :
    search compare_small (add viewer) true between (find compare_small between tree) empty
    ≡ feed (add viewer) empty (kept (within compare_small between) (entries tree))
unfolding IsSeparated leaves_of compare_key ◌-ℤ◌
search-find_example =
    search-find compare_small (add viewer) true empty between tree compare_small-IsCompare
      (tt, ((refl, (refl, tt)), refl, tt, tt))
      ((refl, (refl, (refl, tt))), ((refl, (refl, tt)), ((refl, tt), (tt, tt))))

compare_key_order_example : compare_key (negsuc 1) (pos 5) ≡ compare_ℤ (negsuc 1) (pos 5)
compare_key_order_example = compare_key_order (negsuc 1) (pos 5) (omega arith)

-- The difference of 2147483647 and -2 is no int, and wraps around to a negative one.
wrapped : compare_key (pos 2147483647) (negsuc 1) ≡ lt
unfolding compare_key ◌-ℤ◌
wrapped = refl

-- The objects of both entries with the key 3.
answered :
    get_result (search compare (add viewer) true (two_side false 1 3 true) (some first) empty)
    ≡ 8 ∷ 9 ∷ []
unfolding search add travel_to
answered = refl

-- The object 9 was removed at 5, after it was added.
abbrev gone : RootEntry ℕ
gone = record (entry_of 3 9) { add_time = negsuc 0; del_time = pos 5 }

abbrev added_and_gone : List (RootEntry ℕ)
added_and_gone = entry_of 3 8 ∷ entry_of 3 9 ∷ gone ∷ []

get_result-alive_example :
    get_result (feed (add viewer) empty added_and_gone) ≡ alive (seen viewer added_and_gone)
get_result-alive_example =
    get_result-alive viewer 0 (pos 0) true added_and_gone (ground arith, (ground arith, tt))

only_eight : alive (seen viewer added_and_gone) ≡ 8 ∷ []
only_eight = refl
