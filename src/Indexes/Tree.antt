-- ===== src/Indexes/Tree.antt =====
-- src/Indexes/BTree.cpp, find: the way from the root to the entry where a search starts. A node is a
-- value, and the leaves that nextLeaf leads to are those on the right; reading nodes does not fail.
pub mod Guided
pub mod Separated
pub mod Search
use loxim_stats.Base.{ℕ, Bool, true, false, Option, none, some, List, [], ◌∷◌, ◌++◌, if◌then◌else◌}
use loxim_stats.Base.Compare.{is_lt}
use Prim.Native.Nat.{Ordering}
use loxim_stats.Indexes.Traveller.{RootEntry}
use loxim_stats.Indexes.Constraints.{
  Constraints, exact, left_bounded, right_bounded, two_side, Position,
}

-- An entry of an inner node has a logical identifier, a key and the child behind it.
mutual
  pub data Tree (K : Type 0) : Type 0 where
    leaf : List (RootEntry K) → Tree K
    inner : Tree K → NodeEntries K → Tree K

  pub data NodeEntries (K : Type 0) : Type 0 where
    no_more : NodeEntries K
    entry : ℕ → K → Tree K → NodeEntries K → NodeEntries K

-- The leaves of a node, from left to right.
unfoldable mutual
  pub leaves_of : {K : Type 0} → Tree K → List (List (RootEntry K))
  leaves_of (leaf es) = es ∷ []
  leaves_of (inner t rest) = leaves_of t ++ leaves_behind rest

  pub leaves_behind : {K : Type 0} → NodeEntries K → List (List (RootEntry K))
  leaves_behind no_more = []
  leaves_behind (entry lid key t rest) = leaves_of t ++ leaves_behind rest

-- `greater` tells whether the comparator is greater than a key with its logical identifier.
module _ {K : Type 0} (greater : K → ℕ → Bool) where
  unfoldable pub find_in_leaf : List (RootEntry K) → List (List (RootEntry K)) → Option (Position K)
  find_in_leaf [] following = none
  find_in_leaf (e ∷ es) following =
      if greater e.key e.logical_id
      then find_in_leaf es following
      else some (record { entry = e; after = es; leaves = following })

  unfoldable mutual
    unfolding leaves_of leaves_behind find_in_leaf

    pub find_in : Tree K → List (List (RootEntry K)) → Option (Position K)
    find_in (leaf es) following = find_in_leaf es following
    find_in (inner t rest) following = find_child (find_in t) rest following

    -- The child before the first entry that is not less than the comparator; `child` searches in the
    -- child that is known so far.
    pub find_child :
        (List (List (RootEntry K)) → Option (Position K))
        → NodeEntries K
        → List (List (RootEntry K))
        → Option (Position K)
    find_child child no_more following = child following
    find_child child (entry lid key t rest) following =
        let further = find_child (find_in t) rest following in
        if greater key lid
        then further
        else child (leaves_behind (entry lid key t rest) ++ following)

module _ {K : Type 0} (c : K → K → Ordering) where
  -- A search has no entry to compare logical identifiers with; MinComparator is less than every key.
  abbrev pub comparator : Constraints K → K → ℕ → Bool
  comparator (exact v) key lid = is_lt (c key v)
  comparator (left_bounded inclusive v) key lid = is_lt (c key v)
  comparator (right_bounded v inclusive) key lid = false
  comparator (two_side inclusive_left v w inclusive_right) key lid = is_lt (c key v)

  unfoldable pub find : Constraints K → Tree K → Option (Position K)
  unfolding find_in
  find k t = find_in (comparator k) t []
