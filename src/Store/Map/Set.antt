-- ===== src/Store/Map/Set.antt =====
-- setPhysicalID: what the map answers for every identifier afterwards.
use loxim_stats.Base.{
  ℕ, suc, ◌+◌, ◌≤◌, ◌<◌, ◌≡◌, ◌≢◌, refl, ap, true, some, arith, ltb, leb, ◌==◌, if◌then◌else◌,
  length, Bool-cases, inl, inr, ◌⊎◌, ==→eq, ==→ne, ◌∙◌, sym, ltb→lt, ltb→ge,
}
use loxim_stats.Store.Map.{
  sizeof_physical_id, PhysicalId, rip, MapFile, get_last_assigned, write_entry, Lookup, found,
  not_assigned, get_physical_id, max_logical_id, assign, then_write, set_physical_id,
}
use loxim_stats.Store.Map.Create.{answer, get_answer, answer_set}
use loxim_stats.Store.Map.Entries.{entry, write_entry_same, write_entry_other}
use loxim_stats.Store.Map.Assign.{
  Extends, unchanged_lem, last_write, set_physical_id_known, set_physical_id_loop, putter,
  assign-Extends,
}

set_physical_id_new :
    (depth rounds timer : ℕ) (f g : MapFile) (i : ℕ) (e : PhysicalId)
    → 0 < i
    → i ≤ max_logical_id
    → ltb (get_last_assigned f) i ≡ true
    → assign (putter depth rounds timer) rounds timer f i ≡ some g
    → set_physical_id (suc (suc depth)) rounds timer f i (some e)
      ≡ some (write_entry timer g i e, 0)
set_physical_id_new depth rounds timer f g i e pos small new run =
    set_physical_id_loop (suc depth) rounds timer f i e pos small new
    ∙ ap (then_write timer i e) run

-- What `get_physical_id` answers for `j` after `i` was set to `e`.
abbrev pub after_set : MapFile → ℕ → PhysicalId → ℕ → Lookup
after_set f i e j =
    if j == i
    then found e
    else if leb j (get_last_assigned f)
    then get_physical_id f j
    else if ltb j i
    then found rip
    else not_assigned

answer_rest :
    (before last i j : ℕ) (old new : PhysicalId)
    → j ≢ i
    → 0 < i
    → before ≤ last
    → i ≤ last
    → (last ≡ before) ⊎ (last ≡ i)
    → (j ≤ before → new ≡ old)
    → (before < j → j ≤ last → new ≡ rip)
    → answer last j new
      ≡ (if leb j before then answer before j old else if ltb j i then found rip else not_assigned)
unfolding answer
answer_rest before last i j old new ne pos le known at kept fresh = ground arith

write_after_set :
    (timer : ℕ) (f g : MapFile) (i : ℕ) (e : PhysicalId) (j : ℕ)
    → Extends f g
    → 0 < i
    → i ≤ get_last_assigned g
    → (get_last_assigned g ≡ get_last_assigned f) ⊎ (get_last_assigned g ≡ i)
    → length e ≡ sizeof_physical_id
    → get_physical_id (write_entry timer g i e) j ≡ after_set f i e j
write_after_set timer f g i e j x pos known last size =
    get_answer (write_entry timer g i e) j
    ∙ ap (λ l. answer l j (entry (write_entry timer g i e) j)) (last_write timer g i e)
    ∙ elim (Bool-cases (j == i)) [
      | inl same ↦
          rw (same, ==→eq j i same, write_entry_same timer g i e size)
            (answer_set (get_last_assigned g) i e pos known)
      | inr other ↦
          rw (other, get_answer f j)
            (answer_rest (get_last_assigned f) (get_last_assigned g) i j (entry f j)
              (entry (write_entry timer g i e) j) (==→ne j i other) pos x.more known last
              (λ le.
                write_entry_other timer g i j e size (λ p. ==→ne j i other (sym p)) ∙ x.kept j le)
              (λ lo hi.
                write_entry_other timer g i j e size (λ p. ==→ne j i other (sym p))
                ∙ x.fresh j lo hi))
    ]

-- On an identifier up to 10000000, with fuel for one recursive call and for the identifiers that are
-- missing, setPhysicalID succeeds: the identifier then has the physical one given, those that were
-- assigned before keep theirs, those in between are assigned with RIP, and no other is.
pub set_physical_id-after_set :
    (depth rounds timer : ℕ) (f : MapFile) (i : ℕ) (e : PhysicalId)
    → 0 < i
    → i ≤ max_logical_id
    → length e ≡ sizeof_physical_id
    → i < get_last_assigned f + rounds
    → (g : MapFile) × (set_physical_id (suc (suc depth)) rounds timer f i (some e) ≡ some (g, 0))
      × ((j : ℕ) → get_physical_id g j ≡ after_set f i e j)
unfolding set_physical_id
set_physical_id-after_set depth rounds timer f i e pos small size enough =
    elim (Bool-cases (ltb (get_last_assigned f) i)) [
      | inr old ↦
          let known = ltb→ge _ _ old in
          (
            write_entry timer f i e,
            set_physical_id_known (suc depth) rounds timer f i e pos small known,
            λ j. write_after_set timer f f i e j (unchanged_lem f) pos known (inl refl) size,
          )
      | inl new ↦
          let lt = ltb→lt _ _ new in
          let (g, run, at, x) =
            assign-Extends depth rounds rounds timer f i (omega arith) small enough in
          (
            write_entry timer g i e,
            set_physical_id_new depth rounds timer f g i e pos small new run,
            λ j. write_after_set timer f g i e j x pos (omega (arith, at)) (inr at) size,
          )
    ]
