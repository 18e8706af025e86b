-- ===== src/Indexes/Constraints/Range.antt =====
-- Entries in the order of their keys: where a walk stops, and which entries it passes.
use loxim_stats.Base.{
  ◌≡◌, refl, ap, Bool, true, false, not, ◌&&◌, List, [], ◌∷◌, ◌++◌, if◌then◌else◌, arith,
}
use loxim_stats.Base.Compare.{is_lt, IsCompare}
use Prim.Native.Nat.{Ordering}
use loxim_stats.Indexes.Traveller.{RootEntry, less_than, less_or_equal}
use loxim_stats.Indexes.Constraints.Walk.{take_until, drop_until}

module _ {K : Type 0} where
  -- The entries that pass a test.
  abbrev pub kept : (RootEntry K → Bool) → List (RootEntry K) → List (RootEntry K)
  kept p [] = []
  kept p (e ∷ es) = if p e then e ∷ kept p es else kept p es

  pub kept_twice :
      (p q : RootEntry K → Bool) (es : List (RootEntry K))
      → kept p (kept q es) ≡ kept (λ e. p e && q e) es
  kept_twice p q [] = refl
  kept_twice p q (e ∷ es) = ground (arith, kept_twice p q es)

  pub kept_all : (es : List (RootEntry K)) → kept (λ e. true) es ≡ es
  kept_all [] = refl
  kept_all (e ∷ es) = ap (λ xs. e ∷ xs) (kept_all es)

  pub take_all : (es : List (RootEntry K)) → take_until (λ e. false) es ≡ es
  take_all [] = refl
  take_all (e ∷ es) = ap (λ xs. e ∷ xs) (take_all es)

  pub kept_none : (es : List (RootEntry K)) → kept (λ e. false) es ≡ []
  kept_none [] = refl
  kept_none (e ∷ es) = kept_none es

  -- A walk in two parts, where the second part stops later.
  pub take_on :
      (p q : RootEntry K → Bool) (es : List (RootEntry K))
      → ((e : RootEntry K) → q e ≡ true → p e ≡ true)
      → take_until p es ++ take_until q (drop_until p es) ≡ take_until q es
  take_on p q [] h = refl
  take_on p q (e ∷ es) h = ground (arith, h e, take_on p q es h)

module _ {K : Type 0} (c : K → K → Ordering) where
  -- No key is less than `v`.
  abbrev pub NotBelow : K → List (RootEntry K) → Type 0
  NotBelow v [] = Unit {0}
  NotBelow v (e ∷ es) = (is_lt (c e.key v) ≡ false) × NotBelow v es

  abbrev pub IsAscending : List (RootEntry K) → Type 0
  IsAscending [] = Unit {0}
  IsAscending (e ∷ es) = NotBelow e.key es × IsAscending es

  pub kept_same :
      (p q : RootEntry K → Bool) (v : K) (es : List (RootEntry K))
      → ((e : RootEntry K) → is_lt (c e.key v) ≡ false → p e ≡ q e)
      → NotBelow v es
      → kept p es ≡ kept q es
  kept_same p q v [] h n = refl
  kept_same p q v (e ∷ es) h n = ground (arith, h e n.0, kept_same p q v es h n.1)

  module _ (stop : RootEntry K → Bool)
      (stays : (e f : RootEntry K)
        → is_lt (c f.key e.key) ≡ false
        → stop e ≡ true
        → stop f ≡ true) where
    stopped_all :
        (e : RootEntry K) (es : List (RootEntry K))
        → stop e ≡ true
        → NotBelow e.key es
        → (kept (λ f. not (stop f)) es ≡ []) × (kept stop es ≡ es)
    stopped_all e [] h n = (refl, refl)
    stopped_all e (f ∷ es) h n = ground (arith, stays e f n.0 h, stopped_all e es h n.1)

    -- A walk over ascending keys passes the entries at which it would not stop.
    pub until_kept :
        (es : List (RootEntry K))
        → IsAscending es
        → (take_until stop es ≡ kept (λ f. not (stop f)) es) × (drop_until stop es ≡ kept stop es)
    until_kept [] a = (refl, refl)
    until_kept (e ∷ es) a = ground (arith, until_kept es a.1, stopped_all e es)

  kept-NotBelow :
      (p : RootEntry K → Bool) (v : K) (es : List (RootEntry K))
      → NotBelow v es
      → NotBelow v (kept p es)
  kept-NotBelow p v [] n = tt
  kept-NotBelow p v (e ∷ es) n = ground (arith, kept-NotBelow p v es n.1)

  pub kept-IsAscending :
      (p : RootEntry K → Bool) (es : List (RootEntry K)) → IsAscending es → IsAscending (kept p es)
  kept-IsAscending p [] a = tt
  kept-IsAscending p (e ∷ es) a =
      ground (arith, kept-IsAscending p es a.1, kept-NotBelow p e.key es a.0)

  module _ (o : IsCompare c) (v : K) where
    pub less_than_stays :
        (e f : RootEntry K)
        → is_lt (c f.key e.key) ≡ false
        → less_than c v e ≡ true
        → less_than c v f ≡ true
    less_than_stays e f n h = ground (arith, o.chains v e.key f.key, o.swaps e.key f.key)

    pub less_or_equal_stays :
        (e f : RootEntry K)
        → is_lt (c f.key e.key) ≡ false
        → less_or_equal c v e ≡ true
        → less_or_equal c v f ≡ true
    less_or_equal_stays e f n h = ground (arith, o.chains v e.key f.key, o.swaps e.key f.key)
