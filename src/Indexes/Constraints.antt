-- ===== src/Indexes/Constraints.antt =====
-- src/Indexes/Constraints.cpp: searches for one key and for the keys between bounds. Where BTree::find
-- ends is an argument, as are the values, which setValue accepted.
pub mod Walk
pub mod Range
pub mod Destination
pub mod Search
use loxim_stats.Base.{
  Bool, true, false, not, ◌&&◌, Option, none, some, List, [], ◌∷◌, if◌then◌else◌,
}
use Prim.Native.Nat.{Ordering}
use loxim_stats.Indexes.Traveller.{
  RootEntry, LeafTraveller, less_than, equal, travel_to_end, travel_to_greater,
  travel_to_destination,
}

pub data Constraints (K : Type 0) : Type 0 where
  exact : K → Constraints K
  left_bounded : Bool → K → Constraints K
  right_bounded : K → Bool → Constraints K
  two_side : Bool → K → K → Bool → Constraints K

-- An entry in its leaf, the entries after it, and the leaves after that one.
pub record Position (K : Type 0) : Type 0 where
  pub entry : RootEntry K
  pub after : List (RootEntry K)
  pub leaves : List (List (RootEntry K))

module _ {K S : Type 0} where
  abbrev pub set_grab : Bool → LeafTraveller K S → LeafTraveller K S
  set_grab grab t = record t { grab = grab }

  abbrev pub set_position : Position K → LeafTraveller K S → LeafTraveller K S
  set_position p t = record t { rest = p.entry ∷ p.after; leaves = p.leaves }

-- `unset` is what the flag that the constructor does not set happens to be.
abbrev pub new_traveller : {K S : Type 0} → Bool → S → LeafTraveller K S
new_traveller unset sieve = record {
  rest = [];
  leaves = [];
  grab = false;
  destination_exceeded = unset;
  end_reached = false;
  sieve = sieve;
}

module _ {K S : Type 0} (c : K → K → Ordering) (add : S → RootEntry K → S) where
  abbrev pub step_over : Bool → LeafTraveller K S → LeafTraveller K S
  step_over skip t = if skip then travel_to_greater c add (set_grab false t) else t

  -- The entries that are equal to the destination.
  abbrev pub include_destination : Bool → LeafTraveller K S → LeafTraveller K S
  include_destination inclusive t =
      if inclusive && not t.destination_exceeded then travel_to_greater c add t else t

  unfoldable pub find_at : Constraints K → Position K → LeafTraveller K S → LeafTraveller K S
  find_at (exact v) p t =
      if less_than c v p.entry
      then t
      else travel_to_greater c add (set_grab true (set_position p t))
  find_at (left_bounded inclusive v) p t =
      travel_to_end c add
        (set_grab true (step_over (not inclusive && equal c v p.entry) (set_position p t)))
  find_at (right_bounded v inclusive) p t =
      include_destination inclusive
        (travel_to_destination c add v (set_grab true (set_position p t)))
  find_at (two_side inclusive_left v w inclusive_right) p t = include_destination inclusive_right (
      travel_to_destination c add w
        (set_grab true (step_over (equal c v p.entry && not inclusive_left) (set_position p t))))

  unfoldable pub find : Constraints K → Option (Position K) → LeafTraveller K S → LeafTraveller K S
  unfolding find_at
  find k none t = t
  find k (some p) t = find_at k p t

  -- The sieve after a search.
  unfoldable pub search : Bool → Constraints K → Option (Position K) → S → S
  unfolding find
  search unset k found sieve = (find k found (new_traveller unset sieve)).sieve
