-- ===== src/Store/Map/Entries.antt =====
-- The entries of the map do not overlap, so that each can be written alone.
use loxim_stats.Base.{
  subst, ℕ, ◌+◌, ◌≤◌, ◌<◌, ◌≡◌, ◌≢◌, refl, ap, ◌⊎◌, inl, inr, arith, ◌==◌, length, Bool-cases, ◌∙◌,
  sym, ==_refl, ==→eq,
}
use loxim_stats.Store.Page.{store_pagesize}
use loxim_stats.Store.Page.Memory.{
  Bytes, read, write_object, read_agree, write_object_below, write_object_above, read-write_object,
}
use loxim_stats.Store.Map.{
  sizeof_map_page, sizeof_physical_id, store_map_mappage, store_map_mapoffset, PhysicalId, MapFile,
  write_entry,
}

-- Entries lie behind the header of a page other than the first and end on that page, and those of
-- different identifiers share no byte.
pub store_map_mapoffset-IsDisjoint :
    (i j : ℕ)
    → (0 < store_map_mappage i)
      × (sizeof_map_page ≤ store_map_mapoffset i)
      × (store_map_mapoffset i + sizeof_physical_id ≤ store_pagesize)
      × ((i ≡ j)
          ⊎ (store_map_mappage i ≢ store_map_mappage j)
          ⊎ (store_map_mapoffset i + sizeof_physical_id ≤ store_map_mapoffset j)
          ⊎ (store_map_mapoffset j + sizeof_physical_id ≤ store_map_mapoffset i))
store_map_mapoffset-IsDisjoint i j = (omega arith, omega arith, omega arith, ground arith)

-- What the file holds for an identifier.
abbrev pub entry : MapFile → ℕ → PhysicalId
entry f i = read (f.page (store_map_mappage i)).bytes (store_map_mapoffset i) sizeof_physical_id

pub write_entry_same :
    (timer : ℕ) (f : MapFile) (i : ℕ) (e : PhysicalId)
    → length e ≡ sizeof_physical_id
    → entry (write_entry timer f i e) i ≡ e
unfolding write_entry
write_entry_same timer f i e size =
    let m = (f.page (store_map_mappage i)).bytes in
    let back = read-write_object m (store_map_mapoffset i) e in
    rw (==_refl (store_map_mappage i)) (
      subst (λ n. read (write_object m (store_map_mapoffset i) e) (store_map_mapoffset i) n ≡ e)
        size back)

outside :
    (m : Bytes) (a b : ℕ) (e : PhysicalId)
    → length e ≡ sizeof_physical_id
    → (a + sizeof_physical_id ≤ b) ⊎ (b + sizeof_physical_id ≤ a)
    → read (write_object m a e) b sizeof_physical_id ≡ read m b sizeof_physical_id
outside m a b e size apart = read_agree (write_object m a e) m b b sizeof_physical_id untouched
  where
    untouched : (k : ℕ) → k < sizeof_physical_id → write_object m a e (b + k) ≡ m (b + k)
    untouched k lt = elim apart [
      | inl above ↦ write_object_above m a e (b + k) (omega arith)
      | inr below ↦ write_object_below m a e (b + k) (omega arith)
    ]

offsets_apart :
    (i j : ℕ)
    → store_map_mappage j ≡ store_map_mappage i
    → i ≢ j
    → (store_map_mapoffset i + sizeof_physical_id ≤ store_map_mapoffset j)
      ⊎ (store_map_mapoffset j + sizeof_physical_id ≤ store_map_mapoffset i)
offsets_apart i j same ne = ground arith

pub write_entry_other :
    (timer : ℕ) (f : MapFile) (i j : ℕ) (e : PhysicalId)
    → length e ≡ sizeof_physical_id
    → i ≢ j
    → entry (write_entry timer f i e) j ≡ entry f j
unfolding write_entry
write_entry_other timer f i j e size ne =
    elim (Bool-cases (store_map_mappage j == store_map_mappage i)) [
      | inr apart ↦ rw apart refl
      | inl same ↦ rw same (
          outside (f.page (store_map_mappage i)).bytes (store_map_mapoffset i)
            (store_map_mapoffset j) e size (offsets_apart i j (==→eq _ _ same) ne)
          ∙ ap (λ n. read (f.page n).bytes (store_map_mapoffset j) sizeof_physical_id)
              (sym (==→eq _ _ same)))
    ]
