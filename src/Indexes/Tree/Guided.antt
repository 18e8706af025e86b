-- ===== src/Indexes/Tree/Guided.antt =====
-- Where the keys of inner nodes guide a search to the right leaf, it ends where a walk through all entries
-- would.
use loxim_stats.Base.{
  ℕ, ◌≡◌, refl, ap, ◌∙◌, sym, Bool, true, false, ◌&&◌, Option, none, some, List, [], ◌∷◌, ◌++◌,
  if◌then◌else◌, arith, Bool-cases, inl, inr, append_assoc, append-nil,
}
use loxim_stats.Indexes.Traveller.{RootEntry}
use loxim_stats.Indexes.Constraints.{Position}
use loxim_stats.Indexes.Constraints.Walk.{joined}
use loxim_stats.Indexes.Tree.{
  Tree, NodeEntries, leaf, inner, no_more, entry, leaves_of, leaves_behind, find_in_leaf, find_in,
  find_child,
}

module _ {K : Type 0} where
  abbrev pub entries : Tree K → List (RootEntry K)
  entries t = joined (leaves_of t)

  abbrev pub entries_behind : NodeEntries K → List (RootEntry K)
  entries_behind rest = joined (leaves_behind rest)

  abbrev pub found : Option (Position K) → Option (List (RootEntry K))
  found none = none
  found (some p) = some (p.entry ∷ p.after ++ joined p.leaves)

  joined-append : (ls ms : List (List (RootEntry K))) → joined (ls ++ ms) ≡ joined ls ++ joined ms
  joined-append [] ms = refl
  joined-append (l ∷ ls) ms =
      ap (λ xs. l ++ xs) (joined-append ls ms) ∙ sym (append_assoc l (joined ls) (joined ms))

module _ {K : Type 0} (greater : K → ℕ → Bool) where
  abbrev pub passes : RootEntry K → Bool
  passes e = greater e.key e.logical_id

  abbrev pub all_passed : List (RootEntry K) → Bool
  all_passed [] = true
  all_passed (e ∷ es) = passes e && all_passed es

  -- What a walk through a list answers.
  abbrev pub walked : List (RootEntry K) → Option (List (RootEntry K))
  walked [] = none
  walked (e ∷ es) = if passes e then walked es else some (e ∷ es)

  -- Where an inner node's key is passed, so are the entries before it, and where it is not, neither are
  -- all entries of the child before it.
  unfoldable mutual
    pub Guided : Tree K → Type 0
    Guided (leaf es) = Unit {0}
    Guided (inner t rest) = Guided t × GuidedBehind (entries t) rest

    pub GuidedBehind : List (RootEntry K) → NodeEntries K → Type 0
    GuidedBehind before no_more = Unit {0}
    GuidedBehind before (entry lid key t rest) =
        (all_passed before ≡ greater key lid) × Guided t × GuidedBehind (entries t) rest

  -- What a search answers, with the entries that follow.
  abbrev pub result_of : List (RootEntry K) → List (RootEntry K) → Option (List (RootEntry K))
  result_of es fs = if all_passed es then none else walked (es ++ fs)

  find_in_leaf-none :
      (es : List (RootEntry K)) (fs : List (List (RootEntry K)))
      → found (find_in_leaf greater es fs) ≡ result_of es (joined fs)
  unfolding find_in_leaf
  find_in_leaf-none [] fs = refl
  find_in_leaf-none (e ∷ es) fs = ground (arith, find_in_leaf-none es fs)

  all_passed-append :
      (es fs : List (RootEntry K)) → all_passed (es ++ fs) ≡ (all_passed es && all_passed fs)
  all_passed-append [] fs = refl
  all_passed-append (e ∷ es) fs = ground (arith, all_passed-append es fs)

  result_on :
      (es xs ys : List (RootEntry K))
      → all_passed es ≡ true
      → result_of (es ++ xs) ys ≡ result_of xs ys
  result_on [] xs ys h = refl
  result_on (e ∷ es) xs ys h = ground (arith, result_on es xs ys)

  result_here :
      (es xs ys : List (RootEntry K))
      → all_passed es ≡ false
      → result_of es (xs ++ ys) ≡ result_of (es ++ xs) ys
  result_here es xs ys h =
      rw (h, all_passed-append es xs) (rw h (sym (ap walked (append_assoc es xs ys))))

  mutual
    unfolding find_in Guided GuidedBehind leaves_of leaves_behind

    -- A search that is guided answers none where every entry is passed, and ends where a walk through the
    -- entries and those that follow ends where one is not.
    pub find_in-walked :
        (t : Tree K) (fs : List (List (RootEntry K)))
        → Guided t
        → found (find_in greater t fs) ≡ result_of (entries t) (joined fs)
    find_in-walked (leaf es) fs g = rw (append-nil es) (find_in_leaf-none es fs)
    find_in-walked (inner t rest) fs g =
        find_child-walked (find_in greater t) (entries t) rest fs (λ fs. find_in-walked t fs g.0)
          g.1
        ∙ ap (λ xs. result_of xs (joined fs))
            (sym (joined-append (leaves_of t) (leaves_behind rest)))

    find_child-walked :
        (child : List (List (RootEntry K)) → Option (Position K)) (es : List (RootEntry K))
        (rest : NodeEntries K) (fs : List (List (RootEntry K)))
        → ((fs : List (List (RootEntry K))) → found (child fs) ≡ result_of es (joined fs))
        → GuidedBehind es rest
        → found (find_child greater child rest fs)
          ≡ result_of (es ++ entries_behind rest) (joined fs)
    find_child-walked child es no_more fs h b = rw (append-nil es) (h fs)
    find_child-walked child es (entry lid key t rest) fs h b =
        let behind = leaves_of t ++ leaves_behind rest in
        elim (Bool-cases (greater key lid)) [
          | inl e ↦ rw e (
              find_child-walked (find_in greater t) (entries t) rest fs
                (λ fs. find_in-walked t fs b.1) b.2
              ∙ sym (
                  ap (λ xs. result_of (es ++ xs) (joined fs))
                    (joined-append (leaves_of t) (leaves_behind rest))
                  ∙ result_on es (entries t ++ entries_behind rest) (joined fs) (b.0 ∙ e)))
          | inr e ↦ rw e (
              h (behind ++ fs)
              ∙ ap (result_of es) (joined-append behind fs)
              ∙ result_here es (joined behind) (joined fs) (b.0 ∙ e))
        ]
