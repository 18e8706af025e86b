-- ===== src/Indexes/Constraints/Search.antt =====
-- The entries that each kind of search hands on are those that meet its constraints.
use loxim_stats.Base.{
  ◌≡◌, refl, ap, ap₂, fun_ext, ◌∙◌, sym, Bool, true, false, not, ◌&&◌, ◌||◌, some, List, ◌∷◌, ◌++◌,
  arith, Bool-cases, inl, inr,
}
use loxim_stats.Base.Compare.{is_lt, IsCompare}
use Prim.Native.Nat.{Ordering}
use loxim_stats.Indexes.Traveller.{
  RootEntry, LeafTraveller, less_than, equal, less_or_equal, infinity_reached,
}
use loxim_stats.Indexes.Constraints.{
  Constraints, exact, left_bounded, right_bounded, two_side, Position, set_grab, set_position,
  new_traveller, step_over, find_at, search,
}
use loxim_stats.Indexes.Constraints.Walk.{take_until, joined, feed, remaining, IsPlaced, to_walk}
use loxim_stats.Indexes.Constraints.Range.{
  kept, kept_twice, kept_all, kept_none, NotBelow, IsAscending, kept_same, until_kept,
  kept-IsAscending, take_all, less_than_stays, less_or_equal_stays,
}
use loxim_stats.Indexes.Constraints.Destination.{bound, destination}

module _ {K : Type 0} (c : K → K → Ordering) where
  abbrev pub above : Bool → K → RootEntry K → Bool
  above inclusive v e = less_than c v e || (inclusive && equal c v e)

  abbrev pub below : Bool → K → RootEntry K → Bool
  below inclusive v e = is_lt (c e.key v) || (inclusive && equal c v e)

  -- The keys that are searched for.
  abbrev pub within : Constraints K → RootEntry K → Bool
  within (exact v) e = equal c v e
  within (left_bounded inclusive v) e = above inclusive v e
  within (right_bounded v inclusive) e = below inclusive v e
  within (two_side inclusive_left v w inclusive_right) e =
      below inclusive_right w e && above inclusive_left v e

  -- The entries from a position on.
  abbrev pub entries_from : Position K → List (RootEntry K)
  entries_from p = p.entry ∷ p.after ++ joined p.leaves

  -- BTree::find goes to the first entry whose key is not less than the left bound.
  abbrev pub IsFound : Constraints K → Position K → Type 0
  IsFound (exact v) p = NotBelow c v (entries_from p)
  IsFound (left_bounded inclusive v) p = NotBelow c v (entries_from p)
  IsFound (right_bounded v inclusive) p = Unit {0}
  IsFound (two_side inclusive_left v w inclusive_right) p = NotBelow c v (entries_from p)

module _ {K S : Type 0} (c : K → K → Ordering) (o : IsCompare c) (add : S → RootEntry K → S) where
  first-NotBelow :
      (p : Position K)
      → IsAscending c (entries_from c p)
      → NotBelow c p.entry.key (entries_from c p)
  first-NotBelow p a = (ground (arith, o.swaps p.entry.key p.entry.key), a.0)

  module _ (p : Position K) (ascending : IsAscending c (entries_from c p)) (unset : Bool)
      (s : S) where
    placed_at : LeafTraveller K S
    placed_at = set_position p (new_traveller unset s)

    exact_search :
        (v : K)
        → NotBelow c v (entries_from c p)
        → (find_at c add (exact v) p (new_traveller unset s)).sieve
          ≡ feed add s (kept (equal c v) (entries_from c p))
    unfolding find_at
    exact_search v n =
        let xs = entries_from c p in
        let start = set_grab true (set_position p (new_traveller unset s)) in
        elim (Bool-cases (less_than c v p.entry)) [
          | inl k ↦ rw k (
              ap (feed add s) (
                sym (
                  kept_same c (equal c v) (λ e. false) p.entry.key xs
                    (λ e h. ground (arith, o.chains v p.entry.key e.key, o.swaps p.entry.key e.key))
                    (first-NotBelow p ascending)
                  ∙ kept_none xs)))
          | inr k ↦
              let walk = to_walk add (less_than c p.entry.key) start refl in
              let cut =
                until_kept c (less_than c p.entry.key) (less_than_stays c o p.entry.key) xs
                  ascending in
              rw k (
                walk.fed
                ∙ ap (feed add s) (
                    cut.0
                    ∙ kept_same c (λ e. not (less_than c p.entry.key e)) (equal c v) v xs
                        (λ e h. ground (
                          arith,
                          n.0,
                          o.chains v p.entry.key e.key,
                          o.swaps v e.key,
                          o.swaps v p.entry.key,
                          o.swaps p.entry.key e.key,
                        ))
                        n))
        ]

    -- After the entries equal to a left bound that is not included.
    stepped : Bool → LeafTraveller K S
    stepped skip = set_grab true (step_over c add skip (set_position p (new_traveller unset s)))

    stepped_left :
        (v : K) (inclusive skip : Bool)
        → NotBelow c v (entries_from c p)
        → (not inclusive && equal c v p.entry) ≡ skip
        → IsPlaced add (stepped skip)
          × ((stepped skip).grab ≡ true)
          × ((stepped skip).sieve ≡ s)
          × (remaining add (stepped skip) ≡ kept (above c inclusive v) (entries_from c p))
    unfolding stepped
    stepped_left v inclusive false n h =
        let xs = entries_from c p in
        (
          refl,
          refl,
          refl,
          sym (
              kept_same c (above c inclusive v) (λ e. true) p.entry.key xs
                (λ e k. ground (
                  arith,
                  n.0,
                  o.chains v p.entry.key e.key,
                  o.swaps v e.key,
                  o.swaps v p.entry.key,
                  o.swaps p.entry.key e.key,
                ))
                (first-NotBelow p ascending)
              ∙ kept_all xs),
        )
    stepped_left v inclusive true n h =
        let xs = entries_from c p in
        let start = set_grab false (set_position p (new_traveller unset s)) in
        let walk = to_walk add (less_than c p.entry.key) start refl in
        let cut =
          until_kept c (less_than c p.entry.key) (less_than_stays c o p.entry.key) xs ascending in
        (
          walk.placed,
          refl,
          walk.fed,
          walk.left
              ∙ cut.1
              ∙ kept_same c (less_than c p.entry.key) (above c inclusive v) v xs
                  (λ e k. ground (
                    arith,
                    n.0,
                    o.chains v p.entry.key e.key,
                    o.swaps v e.key,
                    o.swaps v p.entry.key,
                    o.swaps p.entry.key e.key,
                  ))
                  n,
        )

    left_search :
        (v : K) (inclusive : Bool)
        → NotBelow c v (entries_from c p)
        → (find_at c add (left_bounded inclusive v) p (new_traveller unset s)).sieve
          ≡ feed add s (kept (above c inclusive v) (entries_from c p))
    unfolding find_at stepped
    left_search v inclusive n =
        let skip = not inclusive && equal c v p.entry in
        let left = stepped_left v inclusive skip n refl in
        let walk = to_walk add infinity_reached (stepped skip) left.0 in
        walk.fed ∙ ap₂ (feed add) left.2 (take_all (remaining add (stepped skip)) ∙ left.3)

    bound_kept :
        (v : K) (inclusive : Bool) (es : List (RootEntry K))
        → IsAscending c es
        → take_until (bound c inclusive v) es ≡ kept (below c inclusive v) es
    bound_kept v true es a =
        (until_kept c (less_than c v) (less_than_stays c o v) es a).0
        ∙ ap (λ q. kept q es) (fun_ext (λ e. ground (arith, o.swaps v e.key)))
    bound_kept v false es a =
        (until_kept c (less_or_equal c v) (less_or_equal_stays c o v) es a).0
        ∙ ap (λ q. kept q es) (fun_ext (λ e. ground (arith, o.swaps v e.key)))

    right_search :
        (v : K) (inclusive : Bool)
        → (find_at c add (right_bounded v inclusive) p (new_traveller unset s)).sieve
          ≡ feed add s (kept (below c inclusive v) (entries_from c p))
    unfolding find_at
    right_search v inclusive =
        let xs = entries_from c p in
        let start = set_grab true (set_position p (new_traveller unset s)) in
        destination c o add v start xs inclusive refl refl refl
        ∙ ap (feed add s) (bound_kept v inclusive xs ascending)

    two_side_search :
        (v w : K) (inclusive_left inclusive_right : Bool)
        → NotBelow c v (entries_from c p)
        → (find_at c add
            (two_side inclusive_left v w inclusive_right)
            p
            (new_traveller unset s)).sieve
          ≡ feed add s
              (kept (within c (two_side inclusive_left v w inclusive_right)) (entries_from c p))
    unfolding find_at stepped
    two_side_search v w inclusive_left inclusive_right n =
        let xs = entries_from c p in
        let ys = kept (above c inclusive_left v) xs in
        let skip = equal c v p.entry && not inclusive_left in
        let left = stepped_left v inclusive_left skip n (ground arith) in
        destination c o add w (stepped skip) ys inclusive_right left.0 refl (sym left.3)
        ∙ ap₂ (feed add) left.2 (
            bound_kept w inclusive_right ys
              (kept-IsAscending c (above c inclusive_left v) xs ascending)
            ∙ kept_twice (below c inclusive_right w) (above c inclusive_left v) xs)

    -- Where the keys from the position on ascend, a search from the position that BTree::find ends at hands
    -- every entry that meets its constraints on to the sieve, once and in the order of the leaves, and
    -- no other entry.
    pub search-within :
        (k : Constraints K)
        → IsFound c k p
        → search c add unset k (some p) s ≡ feed add s (kept (within c k) (entries_from c p))
    unfolding search
    search-within (exact v) f = exact_search v f
    search-within (left_bounded inclusive v) f = left_search v inclusive f
    search-within (right_bounded v inclusive) f = right_search v inclusive
    search-within (two_side inclusive_left v w inclusive_right) f =
        two_side_search v w inclusive_left inclusive_right f
