-- ===== src/Indexes/Constraints/Walk.antt =====
-- What a walk along the leaves adds to the sieve, and where it ends.
use loxim_stats.Base.{
  ◌≡◌, refl, ap, ap₂, ◌∙◌, sym, Bool, true, false, List, [], ◌∷◌, ◌++◌, if◌then◌else◌, arith,
  Bool-cases, inl, inr, append-nil,
}
use loxim_stats.Indexes.Traveller.{
  RootEntry, LeafTraveller, no_entries, grab_entry, travel_leaf, travel_leaves, travel_to,
}

module _ {K : Type 0} where
  -- The entries up to the one where a walk stops, and from there on.
  abbrev pub take_until : (RootEntry K → Bool) → List (RootEntry K) → List (RootEntry K)
  take_until stop [] = []
  take_until stop (e ∷ es) = if stop e then [] else e ∷ take_until stop es

  abbrev pub drop_until : (RootEntry K → Bool) → List (RootEntry K) → List (RootEntry K)
  drop_until stop [] = []
  drop_until stop (e ∷ es) = if stop e then e ∷ es else drop_until stop es

  abbrev pub joined : List (List (RootEntry K)) → List (RootEntry K)
  joined [] = []
  joined (l ∷ ls) = l ++ joined ls

  -- A walk that does not stop in the first of two lists, and one that does.
  passed :
      (stop : RootEntry K → Bool) (es xs : List (RootEntry K))
      → no_entries (drop_until stop es) ≡ true
      → (drop_until stop (es ++ xs) ≡ drop_until stop xs)
        × (take_until stop (es ++ xs) ≡ take_until stop es ++ take_until stop xs)
  passed stop [] xs h = (refl, refl)
  passed stop (e ∷ es) xs h = ground (arith, passed stop es xs)

  stopped :
      (stop : RootEntry K → Bool) (es xs : List (RootEntry K))
      → no_entries (drop_until stop es) ≡ false
      → (drop_until stop (es ++ xs) ≡ drop_until stop es ++ xs)
        × (take_until stop (es ++ xs) ≡ take_until stop es)
  stopped stop [] xs h = absurd (ground arith)
  stopped stop (e ∷ es) xs h = ground (arith, stopped stop es xs)

  pub first_stops :
      (stop : RootEntry K → Bool) (es : List (RootEntry K)) (f : RootEntry K)
      (fs : List (RootEntry K))
      → f ∷ fs ≡ drop_until stop es
      → stop f ≡ true
  first_stops stop [] f fs h = ground arith
  first_stops stop (e ∷ es) f fs h = elim (Bool-cases (stop e)) [
    | inl k ↦ ground arith
    | inr k ↦ first_stops stop es f fs (h ∙ rw k refl)
  ]

  none_left : (es : List (RootEntry K)) → no_entries es ≡ true → es ≡ []
  none_left [] h = refl
  none_left (e ∷ es) h = absurd (ground arith)

module _ {K S : Type 0} (add : S → RootEntry K → S) where
  abbrev pub feed : S → List (RootEntry K) → S
  feed s [] = s
  feed s (e ∷ es) = feed (add s e) es

  abbrev pub feed_if : Bool → S → List (RootEntry K) → S
  feed_if grab s es = if grab then feed s es else s

  -- The entries before the traveller's end, and that it stands at the first of them.
  abbrev pub remaining : LeafTraveller K S → List (RootEntry K)
  remaining t = if t.end_reached then [] else t.rest ++ joined t.leaves

  abbrev pub IsPlaced : LeafTraveller K S → Type 0
  IsPlaced t = no_entries t.rest ≡ t.end_reached

  -- What a walk does.
  pub record Walks (stop : RootEntry K → Bool) (t u : LeafTraveller K S) (es : List (RootEntry K))
      : Type 0 where
    pub left : remaining u ≡ drop_until stop es
    pub placed : IsPlaced u
    pub fed : u.sieve ≡ feed_if t.grab t.sieve (take_until stop es)
    pub same_grab : u.grab ≡ t.grab
    pub same_flag : u.destination_exceeded ≡ t.destination_exceeded

  leaf_walk :
      (stop : RootEntry K → Bool) (t : LeafTraveller K S) (es : List (RootEntry K))
      → ((travel_leaf add stop t es).rest ≡ drop_until stop es)
        × ((travel_leaf add stop t es).sieve ≡ feed_if t.grab t.sieve (take_until stop es))
        × ((travel_leaf add stop t es).grab ≡ t.grab)
        × ((travel_leaf add stop t es).destination_exceeded ≡ t.destination_exceeded)
        × ((travel_leaf add stop t es).end_reached ≡ t.end_reached)
  unfolding travel_leaf
  leaf_walk stop t [] = ground arith
  leaf_walk stop t (e ∷ es) = ground (arith, leaf_walk stop (grab_entry add t e) es)

  pub feed_append :
      (grab : Bool) (s : S) (xs ys : List (RootEntry K))
      → feed_if grab s (xs ++ ys) ≡ feed_if grab (feed_if grab s xs) ys
  feed_append true s [] ys = refl
  feed_append true s (x ∷ xs) ys = feed_append true (add s x) xs ys
  feed_append false s xs ys = refl

  leaves_walk :
      (stop : RootEntry K → Bool) (t : LeafTraveller K S) (es : List (RootEntry K))
      (leaves : List (List (RootEntry K)))
      → t.end_reached ≡ false
      → Walks stop t (travel_leaves add stop t es leaves) (es ++ joined leaves)
  unfolding travel_leaves
  leaves_walk stop t es [] h =
      let w = leaf_walk stop t es in
      let k = append-nil es in
      elim (Bool-cases (no_entries (travel_leaf add stop t es).rest)) [
        | inl e ↦
            rw (e, k)
              (record {
                left = sym (sym (w.0) ∙ none_left _ e);
                placed = e;
                fed = w.1;
                same_grab = w.2;
                same_flag = w.3;
              })
        | inr e ↦
            rw (e, k)
              (record {
                left = rw (w.4 ∙ h) (append-nil (travel_leaf add stop t es).rest ∙ w.0);
                placed = e ∙ sym (w.4 ∙ h);
                fed = w.1;
                same_grab = w.2;
                same_flag = w.3;
              })
      ]
  leaves_walk stop t es (l ∷ ls) h =
      let u = record (travel_leaf add stop t es) { leaves = l ∷ ls } in
      let w = leaf_walk stop t es in
      let xs = l ++ joined ls in
      elim (Bool-cases (no_entries (travel_leaf add stop t es).rest)) [
        | inl e ↦
            let next = leaves_walk stop u l ls (w.4 ∙ h) in
            let p = passed stop es xs (ap no_entries (sym (w.0)) ∙ e) in
            rw e (record {
              left = next.left ∙ sym (p.0);
              placed = next.placed;
              fed =
                  next.fed
                  ∙ ap₂ (λ g s. feed_if g s (take_until stop xs)) (w.2) (w.1)
                  ∙ sym (feed_append t.grab t.sieve (take_until stop es) (take_until stop xs))
                  ∙ ap (feed_if t.grab t.sieve) (sym (p.1));
              same_grab = next.same_grab ∙ w.2;
              same_flag = next.same_flag ∙ w.3;
            })
        | inr e ↦
            let q = stopped stop es xs (ap no_entries (sym (w.0)) ∙ e) in
            rw e (record {
              left = rw (w.4 ∙ h) (ap (λ r. r ++ xs) (w.0) ∙ sym (q.0));
              placed = e ∙ sym (w.4 ∙ h);
              fed = w.1 ∙ ap (feed_if t.grab t.sieve) (sym (q.1));
              same_grab = w.2;
              same_flag = w.3;
            })
      ]

  feed_nothing : (grab : Bool) (s : S) → s ≡ feed_if grab s []
  feed_nothing grab s = ground arith

  -- A walk that has not come to the end reads the entries from its place on, up to the one where it
  -- stops.
  pub to_walk :
      (stop : RootEntry K → Bool) (t : LeafTraveller K S)
      → IsPlaced t
      → Walks stop t (travel_to add stop t) (remaining t)
  unfolding travel_to
  to_walk stop t v = elim (Bool-cases t.end_reached) [
    | inl e ↦ rw e (record {
      left = refl;
      placed = v ∙ e;
      fed = feed_nothing t.grab t.sieve;
      same_grab = refl;
      same_flag = refl;
    })
    | inr e ↦ simp e (leaves_walk stop t t.rest t.leaves e)
  ]
