-- ===== src/Indexes/Traveller.antt =====
-- src/Indexes/LeafTraveller.cpp: the walk along the leaves of a B-tree from a position on. The leaves
-- that follow are a list, and the cache of nodes below does not fail.
use loxim_stats.Base.{ℕ, Bool, true, false, ◌||◌, List, [], ◌∷◌, if◌then◌else◌}
use loxim_stats.Base.Int.{ℤ}
use loxim_stats.Base.Compare.{is_lt, is_eq}
use Prim.Native.Nat.{Ordering}

-- An entry of a leaf with its key.
pub record RootEntry (K : Type 0) : Type 0 where
  pub modyfier_transaction_id : ℤ
  pub add_time : ℤ
  pub del_time : ℤ
  pub logical_id : ℕ
  pub key : K

-- `rest` is the current leaf from the current entry on; `sieve` is what the entries are added to.
pub record LeafTraveller (K S : Type 0) : Type 0 where
  pub rest : List (RootEntry K)
  pub leaves : List (List (RootEntry K))
  pub grab : Bool
  pub destination_exceeded : Bool
  pub end_reached : Bool
  pub sieve : S

abbrev pub no_entries : {K : Type 0} → List (RootEntry K) → Bool
no_entries [] = true
no_entries (e ∷ es) = false

module _ {K S : Type 0} (add : S → RootEntry K → S) where
  abbrev pub grab_entry : LeafTraveller K S → RootEntry K → LeafTraveller K S
  grab_entry t e = if t.grab then record t { sieve = add t.sieve e } else t

  -- The entries of one leaf, up to the one where the walk stops.
  unfoldable pub travel_leaf :
      (RootEntry K → Bool) → LeafTraveller K S → List (RootEntry K) → LeafTraveller K S
  travel_leaf stop t [] = record t { rest = [] }
  travel_leaf stop t (e ∷ es) =
      if stop e then record t { rest = e ∷ es } else travel_leaf stop (grab_entry t e) es

  unfoldable pub travel_leaves :
      (RootEntry K → Bool)
      → LeafTraveller K S
      → List (RootEntry K)
      → List (List (RootEntry K))
      → LeafTraveller K S
  unfolding travel_leaf
  travel_leaves stop t es [] =
      let u = record (travel_leaf stop t es) { leaves = [] } in
      if no_entries u.rest then record u { end_reached = true } else u
  travel_leaves stop t es (leaf ∷ leaves) =
      let u = record (travel_leaf stop t es) { leaves = leaf ∷ leaves } in
      let next = travel_leaves stop u leaf leaves in if no_entries u.rest then next else u

  unfoldable pub travel_to : (RootEntry K → Bool) → LeafTraveller K S → LeafTraveller K S
  unfolding travel_leaves
  travel_to stop t = if t.end_reached then t else travel_leaves stop t t.rest t.leaves

abbrev pub infinity_reached : {K : Type 0} → RootEntry K → Bool
infinity_reached e = false

module _ {K : Type 0} (c : K → K → Ordering) where
  -- Comparisons of a comparator that holds `v` with an entry, without the identifiers.
  abbrev pub less_than : K → RootEntry K → Bool
  less_than v e = is_lt (c v e.key)

  abbrev pub equal : K → RootEntry K → Bool
  equal v e = is_eq (c v e.key)

  abbrev pub less_or_equal : K → RootEntry K → Bool
  less_or_equal v e = less_than v e || equal v e

  -- Without an entry the comparator is one that is less than all.
  abbrev pub greater_than_first : List (RootEntry K) → RootEntry K → Bool
  greater_than_first [] e = true
  greater_than_first (f ∷ fs) e = less_than f.key e

  abbrev pub exceeds : K → List (RootEntry K) → Bool
  exceeds v [] = false
  exceeds v (e ∷ es) = less_than v e

  module _ {S : Type 0} (add : S → RootEntry K → S) where
    abbrev pub travel_to_end : LeafTraveller K S → LeafTraveller K S
    travel_to_end t = travel_to add infinity_reached t

    abbrev pub travel_to_greater : LeafTraveller K S → LeafTraveller K S
    travel_to_greater t = travel_to add (greater_than_first t.rest) t

    abbrev pub travel_to_destination : K → LeafTraveller K S → LeafTraveller K S
    travel_to_destination v t =
        let u = travel_to add (less_or_equal v) t in
        if u.end_reached then u else record u { destination_exceeded = exceeds v u.rest }
