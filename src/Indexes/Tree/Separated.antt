-- ===== src/Indexes/Tree/Separated.antt =====
-- The keys of inner nodes, where they are those of the largest entries before them, guide every search.
use loxim_stats.Base.{
  ℕ, ◌≡◌, refl, ◌∙◌, sym, Bool, true, false, not, ◌||◌, List, [], ◌∷◌, arith, Bool-cases, inl, inr,
}
use loxim_stats.Base.Compare.{is_lt, IsCompare}
use Prim.Native.Nat.{Ordering}
use loxim_stats.Indexes.Traveller.{RootEntry}
use loxim_stats.Indexes.Constraints.{Constraints, exact, left_bounded, right_bounded, two_side}
use loxim_stats.Indexes.Tree.{Tree, NodeEntries, leaf, inner, no_more, entry, comparator}
use loxim_stats.Indexes.Tree.Guided.{entries, all_passed, Guided, GuidedBehind}

module _ {K : Type 0} (c : K → K → Ordering) where
  -- No entry is above a key, and one is not below it.
  abbrev pub NoneAbove : K → List (RootEntry K) → Type 0
  NoneAbove key [] = Unit {0}
  NoneAbove key (e ∷ es) = (is_lt (c key e.key) ≡ false) × NoneAbove key es

  abbrev pub reaches : K → List (RootEntry K) → Bool
  reaches key [] = false
  reaches key (e ∷ es) = not (is_lt (c e.key key)) || reaches key es

  -- The key of an inner node is that of the largest entry before it.
  unfoldable mutual
    pub IsSeparated : Tree K → Type 0
    IsSeparated (leaf es) = Unit {0}
    IsSeparated (inner t rest) = IsSeparated t × IsSeparatedBehind (entries t) rest

    pub IsSeparatedBehind : List (RootEntry K) → NodeEntries K → Type 0
    IsSeparatedBehind before no_more = Unit {0}
    IsSeparatedBehind before (entry lid key t rest) =
        NoneAbove key before
        × (reaches key before ≡ true)
        × IsSeparated t
        × IsSeparatedBehind (entries t) rest

module _ {K : Type 0} (c : K → K → Ordering) (o : IsCompare c) where
  abbrev below : K → K → ℕ → Bool
  below v key lid = is_lt (c key v)

  below_passed :
      (v key : K) (es : List (RootEntry K))
      → NoneAbove c key es
      → is_lt (c key v) ≡ true
      → all_passed (below v) es ≡ true
  below_passed v key [] n h = refl
  below_passed v key (e ∷ es) n h =
      ground (arith, o.chains e.key key v, o.swaps key e.key, n.0, below_passed v key es n.1 h)

  reached_stops :
      (v key : K) (es : List (RootEntry K))
      → reaches c key es ≡ true
      → is_lt (c key v) ≡ false
      → all_passed (below v) es ≡ false
  reached_stops v key [] r h = ground arith
  reached_stops v key (e ∷ es) r h = ground (
    arith,
    o.chains key e.key v,
    o.chains e.key v key,
    o.swaps key e.key,
    o.swaps key v,
    o.swaps e.key v,
    reached_stops v key es,
  )

  passed_before :
      (v key : K) (es : List (RootEntry K))
      → NoneAbove c key es
      → reaches c key es ≡ true
      → all_passed (below v) es ≡ is_lt (c key v)
  passed_before v key es n r = elim (Bool-cases (is_lt (c key v))) [
    | inl e ↦ below_passed v key es n e ∙ sym e
    | inr e ↦ reached_stops v key es r e ∙ sym e
  ]

  none_passed :
      (key : K) (es : List (RootEntry K))
      → reaches c key es ≡ true
      → all_passed (λ k lid. false) es ≡ false
  none_passed key [] r = ground arith
  none_passed key (e ∷ es) r = refl

  module _ (greater : K → ℕ → Bool)
      (agrees : (key : K) (lid : ℕ) (es : List (RootEntry K))
        → NoneAbove c key es
        → reaches c key es ≡ true
        → all_passed greater es ≡ greater key lid) where
    mutual
      unfolding IsSeparated Guided

      guided : (t : Tree K) → IsSeparated c t → Guided greater t
      guided (leaf es) s = tt
      guided (inner t rest) s = (guided t s.0, guided_behind (entries t) rest s.1)

      guided_behind :
          (es : List (RootEntry K)) (rest : NodeEntries K)
          → IsSeparatedBehind c es rest
          → GuidedBehind greater es rest
      guided_behind es no_more s = tt
      guided_behind es (entry lid key t rest) s =
          (agrees key lid es s.0 s.1, guided t s.2, guided_behind (entries t) rest s.3)

  pub passed_order : (k : Constraints K) (t : Tree K) → IsSeparated c t → Guided (comparator c k) t
  passed_order (exact v) t s = guided (comparator c (exact v)) (λ key lid. passed_before v key) t s
  passed_order (left_bounded i v) t s =
      guided (comparator c (left_bounded i v)) (λ key lid. passed_before v key) t s
  passed_order (right_bounded v i) t s =
      guided (comparator c (right_bounded v i)) (λ key lid es n r. none_passed key es r) t s
  passed_order (two_side i v w j) t s =
      guided (comparator c (two_side i v w j)) (λ key lid. passed_before v key) t s
