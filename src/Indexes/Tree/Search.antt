-- ===== src/Indexes/Tree/Search.antt =====
-- A search in a whole tree hands on the entries that meet its constraints.
use loxim_stats.Base.{
  ℕ, ◌≡◌, refl, ap, ◌∙◌, sym, subst, Bool, true, false, Option, none, some, List, [], ◌∷◌, arith,
  Bool-cases, inl, inr, append-nil,
}
use loxim_stats.Base.Compare.{is_lt, IsCompare}
use Prim.Native.Nat.{Ordering}
use loxim_stats.Indexes.Traveller.{RootEntry}
use loxim_stats.Indexes.Constraints.{
  Constraints, exact, left_bounded, right_bounded, two_side, Position, search,
}
use loxim_stats.Indexes.Constraints.Walk.{feed}
use loxim_stats.Indexes.Constraints.Range.{kept, NotBelow, IsAscending}
use loxim_stats.Indexes.Constraints.Search.{within, entries_from, IsFound, search-within}
use loxim_stats.Indexes.Tree.{Tree, comparator, find}
use loxim_stats.Indexes.Tree.Guided.{entries, found, all_passed, walked, result_of, find_in-walked}
use loxim_stats.Indexes.Tree.Separated.{IsSeparated, passed_order}

module _ {K : Type 0} (greater : K → ℕ → Bool) where
  abbrev or_nothing : Option (List (RootEntry K)) → List (RootEntry K)
  or_nothing none = []
  or_nothing (some es) = es

  walked_none : (es : List (RootEntry K)) → all_passed greater es ≡ true → walked greater es ≡ none
  walked_none [] h = refl
  walked_none (e ∷ es) h = ground (arith, walked_none es)

  result_alone : (es : List (RootEntry K)) → result_of greater es [] ≡ walked greater es
  result_alone es = elim (Bool-cases (all_passed greater es)) [
    | inl e ↦ rw e (sym (walked_none es e))
    | inr e ↦ rw e (ap (walked greater) (append-nil es))
  ]

  walked_kept :
      (p : RootEntry K → Bool) (es : List (RootEntry K))
      → ((e : RootEntry K) → greater e.key e.logical_id ≡ true → p e ≡ false)
      → kept p (or_nothing (walked greater es)) ≡ kept p es
  walked_kept p [] h = refl
  walked_kept p (e ∷ es) h = ground (arith, h e, walked_kept p es h)

  walked-IsAscending :
      (c : K → K → Ordering) (es : List (RootEntry K))
      → IsAscending c es
      → IsAscending c (or_nothing (walked greater es))
  walked-IsAscending c [] a = tt
  walked-IsAscending c (e ∷ es) a = ground (arith, a, walked-IsAscending c es a.1)

module _ {K : Type 0} (c : K → K → Ordering) (o : IsCompare c) where
  NotBelow-weaken :
      (v w : K) (es : List (RootEntry K))
      → is_lt (c w v) ≡ false
      → NotBelow c w es
      → NotBelow c v es
  NotBelow-weaken v w [] h n = tt
  NotBelow-weaken v w (e ∷ es) h n = (
    ground (
      arith,
      o.chains w e.key v,
      o.chains e.key v w,
      o.swaps w e.key,
      o.swaps w v,
      o.swaps e.key v,
    ),
    NotBelow-weaken v w es h n.1,
  )

  walked-NotBelow :
      (v : K) (es : List (RootEntry K))
      → IsAscending c es
      → NotBelow c v (or_nothing (comparator c (exact v)) (walked (comparator c (exact v)) es))
  walked-NotBelow v [] a = tt
  walked-NotBelow v (e ∷ es) a = elim (Bool-cases (is_lt (c e.key v))) [
    | inl h ↦ rw h (walked-NotBelow v es a.1)
    | inr h ↦ rw h (h, NotBelow-weaken v e.key es h a.0)
  ]

  walked-IsFound :
      (k : Constraints K) (es : List (RootEntry K)) (p : Position K)
      → IsAscending c es
      → walked (comparator c k) es ≡ some (entries_from c p)
      → IsFound c k p
  walked-IsFound (exact v) es p a h =
      subst (λ w. NotBelow c v (or_nothing (comparator c (exact v)) w)) h (walked-NotBelow v es a)
  walked-IsFound (left_bounded i v) es p a h =
      subst (λ w. NotBelow c v (or_nothing (comparator c (exact v)) w)) h (walked-NotBelow v es a)
  walked-IsFound (right_bounded v i) es p a h = tt
  walked-IsFound (two_side i v w j) es p a h =
      subst (λ w. NotBelow c v (or_nothing (comparator c (exact v)) w)) h (walked-NotBelow v es a)

  not_within :
      (k : Constraints K) (e : RootEntry K)
      → comparator c k e.key e.logical_id ≡ true
      → within c k e ≡ false
  not_within (exact v) e h = ground (arith, o.swaps e.key v)
  not_within (left_bounded i v) e h = ground (arith, o.swaps e.key v)
  not_within (right_bounded v i) e h = ground arith
  not_within (two_side i v w j) e h = ground (arith, o.swaps e.key v)

  module _ {S : Type 0} (add : S → RootEntry K → S) (unset : Bool) (s : S) (k : Constraints K)
      (es : List (RootEntry K)) (ascending : IsAscending c es) where
    search_from :
        (p : Option (Position K))
        → found p ≡ walked (comparator c k) es
        → search c add unset k p s ≡ feed add s (kept (within c k) es)
    unfolding search
    search_from none h = ap (feed add s) (
        ap (λ w. kept (within c k) (or_nothing (comparator c k) w)) h
        ∙ walked_kept (comparator c k) (within c k) es (not_within k))
    search_from (some p) h =
        search-within c o add p
          (subst (λ w. IsAscending c (or_nothing (comparator c k) w)) (sym h)
            (walked-IsAscending (comparator c k) c es ascending))
          unset s k (walked-IsFound k es p ascending (sym h))
        ∙ ap (feed add s) (
            ap (λ w. kept (within c k) (or_nothing (comparator c k) w)) h
            ∙ walked_kept (comparator c k) (within c k) es (not_within k))

-- Where the comparison of keys is a total preorder, the keys of a tree ascend, and the key of each entry of
-- an inner node is that of the largest entry before it, a search in the tree hands every entry that meets
-- its constraints on to the sieve, once and in the order of the leaves, and no other entry.
pub search-find :
    {K S : Type 0} (c : K → K → Ordering) (add : S → RootEntry K → S) (unset : Bool) (s : S)
    (k : Constraints K) (t : Tree K)
    → IsCompare c
    → IsSeparated c t
    → IsAscending c (entries t)
    → search c add unset k (find c k t) s ≡ feed add s (kept (within c k) (entries t))
unfolding find
search-find c add unset s k t o separated ascending =
    search_from c o add unset s k (entries t) ascending (find c k t) (
      find_in-walked (comparator c k) t [] (passed_order c o k t separated)
      ∙ result_alone (comparator c k) (entries t))
