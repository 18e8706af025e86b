-- ===== src/Store/Map/Create.antt =====
-- A new identifier, and the map of a new file.
use loxim_stats.Base.{
  ℕ, ◌+◌, ◌%◌, ◌≤◌, ◌<◌, ◌≡◌, ◌≢◌, refl, ap, arith, ltb, ◌==◌, if◌then◌else◌, Bool-cases, inl, inr,
  ◌∙◌, sym, subst, ==→eq, ==→ne,
}
use loxim_stats.Store.Map.{
  PhysicalId, rip, MapFile, get_last_assigned, write_entry, uint_mod, create_logical_id, Lookup,
  found, null_id, not_assigned, get_physical_id,
}
use loxim_stats.Store.Map.Entries.{entry, write_entry_same, write_entry_other}

-- `get_physical_id` as a function of the last identifier and of the entry.
unfoldable pub answer : ℕ → ℕ → PhysicalId → Lookup
answer last j e = if j == 0 then null_id else if ltb last j then not_assigned else found e

pub get_answer :
    (f : MapFile) (j : ℕ) → get_physical_id f j ≡ answer (get_last_assigned f) j (entry f j)
unfolding get_physical_id answer
get_answer f j = refl

pub answer_set : (last i : ℕ) (e : PhysicalId) → 0 < i → i ≤ last → answer last i e ≡ found e
unfolding answer
answer_set last i e pos known = ground arith

answer_grown :
    (last j : ℕ) (e : PhysicalId) → j ≢ last + 1 → answer (last + 1) j e ≡ answer last j e
unfolding answer
answer_grown last j e ne = ground arith

pub created_last :
    (timer : ℕ) (f : MapFile)
    → get_last_assigned (create_logical_id timer f).0 ≡ (get_last_assigned f + 1) % uint_mod
unfolding create_logical_id write_entry
created_last timer f = refl

pub created_kept :
    (timer : ℕ) (f : MapFile) (j : ℕ)
    → (get_last_assigned f + 1) % uint_mod ≢ j
    → entry (create_logical_id timer f).0 j ≡ entry f j
unfolding create_logical_id
created_kept timer f j ne =
    write_entry_other timer f ((get_last_assigned f + 1) % uint_mod) j rip refl ne

created_fresh :
    (timer : ℕ) (f : MapFile)
    → entry (create_logical_id timer f).0 ((get_last_assigned f + 1) % uint_mod) ≡ rip
unfolding create_logical_id
created_fresh timer f = write_entry_same timer f ((get_last_assigned f + 1) % uint_mod) rip refl

created_id :
    (timer : ℕ) (f : MapFile) → (create_logical_id timer f).1 ≡ (get_last_assigned f + 1) % uint_mod
unfolding create_logical_id
created_id timer f = refl

-- As long as identifiers do not wrap around, a new one is the next one, its physical one is RIP, and
-- no other identifier changes.
pub create_logical_id-get_physical_id :
    (timer : ℕ) (f : MapFile)
    → get_last_assigned f + 1 < uint_mod
    → ((create_logical_id timer f).1 ≡ get_last_assigned f + 1)
      × ((j : ℕ)
          → get_physical_id (create_logical_id timer f).0 j
            ≡ (if j == get_last_assigned f + 1 then found rip else get_physical_id f j))
create_logical_id-get_physical_id timer f small = (created_id timer f ∙ next, looked_up)
  where
    next : (get_last_assigned f + 1) % uint_mod ≡ get_last_assigned f + 1
    next = omega arith

    grown : MapFile
    grown = (create_logical_id timer f).0

    looked_up :
        (j : ℕ)
        → get_physical_id grown j
          ≡ (if j == get_last_assigned f + 1 then found rip else get_physical_id f j)
    looked_up j =
        get_answer grown j
        ∙ ap (λ l. answer l j (entry grown j)) (created_last timer f ∙ next)
        ∙ elim (Bool-cases (j == get_last_assigned f + 1)) [
          | inl same ↦
              rw (same, ==→eq _ _ same)
                (ap (answer (get_last_assigned f + 1) (get_last_assigned f + 1))
                    (subst (λ n. entry grown n ≡ rip) next (created_fresh timer f))
                  ∙ answer_set (get_last_assigned f + 1) (get_last_assigned f + 1) rip (omega arith)
                      (omega arith))
          | inr other ↦
              rw (other, get_answer f j)
                (ap (answer (get_last_assigned f + 1) j)
                    (created_kept timer f j (λ p. ==→ne _ _ other (sym (sym next ∙ p))))
                  ∙ answer_grown (get_last_assigned f) j (entry f j) (==→ne _ _ other))
        ]
