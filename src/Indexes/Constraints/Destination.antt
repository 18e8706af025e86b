-- ===== src/Indexes/Constraints/Destination.antt =====
-- The walk to a destination and over the entries that are equal to it.
use loxim_stats.Base.{
  ◌≡◌, refl, ap, ap₂, subst, ◌∙◌, sym, Bool, true, false, List, [], ◌∷◌, ◌++◌, if◌then◌else◌, arith,
  Bool-cases, inl, inr,
}
use loxim_stats.Base.Compare.{is_eq, IsCompare}
use Prim.Native.Nat.{Ordering}
use loxim_stats.Indexes.Traveller.{
  RootEntry, LeafTraveller, less_than, less_or_equal, travel_to, travel_to_destination, exceeds,
}
use loxim_stats.Indexes.Constraints.{include_destination}
use loxim_stats.Indexes.Constraints.Walk.{
  take_until, drop_until, joined, feed, feed_if, first_stops, remaining, IsPlaced, Walks, to_walk,
  feed_append,
}
use loxim_stats.Indexes.Constraints.Range.{take_on}

module _ {K : Type 0} (c : K → K → Ordering) where
  -- The bound of a destination that is or is not included.
  abbrev pub bound : Bool → K → RootEntry K → Bool
  bound inclusive v = if inclusive then less_than c v else less_or_equal c v

module _ {K S : Type 0} (c : K → K → Ordering) (o : IsCompare c) (add : S → RootEntry K → S) where
  same_key :
      (v u : K) (es : List (RootEntry K))
      → is_eq (c v u) ≡ true
      → take_until (less_than c u) es ≡ take_until (less_than c v) es
  same_key v u [] h = refl
  same_key v u (e ∷ es) h = ground (arith, o.chains v u e.key, same_key v u es h)

  module _ (v : K) (t : LeafTraveller K S) (es : List (RootEntry K)) where
    both_parts :
        (u : LeafTraveller K S)
        → Walks add (less_or_equal c v) t u es
        → t.grab ≡ true
        → feed add u.sieve (take_until (less_than c v) (remaining add u))
          ≡ feed add t.sieve (take_until (less_than c v) es)
    both_parts u w g =
        ap₂ (λ s xs. feed add s (take_until (less_than c v) xs)) (w.fed ∙ rw g refl) w.left
        ∙ sym (
            feed_append add true t.sieve (take_until (less_or_equal c v) es)
              (take_until (less_than c v) (drop_until (less_or_equal c v) es)))
        ∙ ap (feed add t.sieve)
            (take_on (less_or_equal c v) (less_than c v) es (λ e h. ground arith))

    abbrev flagged : LeafTraveller K S → LeafTraveller K S
    flagged u = if u.end_reached then u else record u { destination_exceeded = exceeds c v u.rest }

    abbrev made :
        List (RootEntry K) → List (List (RootEntry K)) → Bool → Bool → Bool → S → LeafTraveller K S
    made rest leaves grab flag end s = record {
      rest = rest;
      leaves = leaves;
      grab = grab;
      destination_exceeded = flag;
      end_reached = end;
      sieve = s;
    }

    flagged_sieve : (u : LeafTraveller K S) → (flagged u).sieve ≡ u.sieve
    flagged_sieve u = elim (Bool-cases u.end_reached) [ inl e ↦ rw e refl | inr e ↦ rw e refl ]

    stopped_at :
        (e : RootEntry K) (xs : List (RootEntry K)) (s : S)
        → less_than c v e ≡ true
        → s ≡ feed add s (take_until (less_than c v) (e ∷ xs))
    stopped_at e xs s k = rw k refl

    -- The second walk, over the entries that are equal to the destination.
    included :
        (rest : List (RootEntry K)) (leaves : List (List (RootEntry K))) (grab flag end : Bool)
        (s : S)
        → Walks add (less_or_equal c v) t (made rest leaves grab flag end s) es
        → t.grab ≡ true
        → (include_destination c add true (flagged (made rest leaves grab flag end s))).sieve
          ≡ feed add t.sieve (take_until (less_than c v) es)
    unfolding travel_to
    included rest leaves grab true true s w g = both_parts (made rest leaves grab true true s) w g
    included rest leaves grab false true s w g = both_parts (made rest leaves grab false true s) w g
    included [] leaves grab flag false s w g = absurd (ground (arith, w.placed))
    included (e ∷ rest) leaves grab flag false s w g =
        let xs = e ∷ rest ++ joined leaves in
        let parts = both_parts (made (e ∷ rest) leaves grab flag false s) w g in
        elim (Bool-cases (less_than c v e)) [
          | inl k ↦ rw k (stopped_at e (rest ++ joined leaves) s k ∙ parts)
          | inr k ↦
              let stops = first_stops (less_or_equal c v) es e (rest ++ joined leaves) w.left in
              let walk =
                to_walk add (less_than c e.key) (made (e ∷ rest) leaves grab false false s) refl in
              rw k (
                walk.fed
                ∙ ap (λ b. feed_if add b s (take_until (less_than c e.key) xs)) (w.same_grab ∙ g)
                ∙ ap (feed add s) (same_key v e.key xs (ground arith))
                ∙ parts)
        ]

    -- The walk to a destination and the entries that are equal to it, where these are included.
    pub destination :
        (inclusive : Bool)
        → IsPlaced add t
        → t.grab ≡ true
        → es ≡ remaining add t
        → (include_destination c add inclusive (travel_to_destination c add v t)).sieve
          ≡ feed add t.sieve (take_until (bound c inclusive v) es)
    destination true p g h =
        let u = travel_to add (less_or_equal c v) t in
        included u.rest u.leaves u.grab u.destination_exceeded u.end_reached u.sieve
          (subst (λ xs. Walks add (less_or_equal c v) t u xs) (sym h)
            (to_walk add (less_or_equal c v) t p))
          g
    destination false p g h =
        let walk = to_walk add (less_or_equal c v) t p in
        flagged_sieve (travel_to add (less_or_equal c v) t)
        ∙ walk.fed
        ∙ ap₂ (λ b xs. feed_if add b t.sieve (take_until (less_or_equal c v) xs)) g (sym h)
