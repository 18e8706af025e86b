-- ===== src/Indexes/Sieve/History.antt =====
-- When objects were last added and last removed, and what the sieve of src/Indexes/EntrySieve.cpp
-- remembers of it.
use loxim_stats.Base.{
  ℕ, ◌<◌, ◌≡◌, ◌≢◌, refl, subst, true, false, List, [], ◌∷◌, ◌++◌, if◌then◌else◌, ◌==◌, ltb, ltb→lt,
  ltb→ge, inl, inr, arith, Bool-cases, append_assoc,
}
use loxim_stats.Base.Int.{ℤ, pos, negsuc, pos_part}
use loxim_stats.Indexes.Traveller.{RootEntry}
use loxim_stats.Indexes.Sieve.{EntrySieve, push_latest, state_reset, note_added, note_removed}

abbrev pub later : ℕ → ℕ → ℕ
later a b = if ltb a b then b else a

later_zero : (a : ℕ) → later 0 a ≡ a
later_zero a = ground arith

later_assoc : (a b c : ℕ) → later a (later b c) ≡ later (later a b) c
later_assoc a b c = ground arith

-- The newest times at which an object was added and removed, 0 for never.
pub record History : Type 0 where
  pub logical_id : ℕ
  pub added : ℕ
  pub removed : ℕ

-- An object's history joins that of the same object that follows.
abbrev pub put : History → List History → List History
put h [] = h ∷ []
put h (g ∷ gs) =
    if h.logical_id == g.logical_id
    then record {
      logical_id = h.logical_id;
      added = later h.added g.added;
      removed = later h.removed g.removed;
    }
      ∷ gs
    else h ∷ g ∷ gs

module _ {K : Type 0} where
  abbrev pub history_of : RootEntry K → History
  history_of e = record {
    logical_id = e.logical_id;
    added = pos_part e.add_time;
    removed = pos_part e.del_time;
  }

  -- Entries of one object that stand together make up one history.
  abbrev pub histories : List (RootEntry K) → List History
  histories [] = []
  histories (e ∷ es) = put (history_of e) (histories es)

-- The objects that were added after they were last removed.
abbrev pub alive : List History → List ℕ
alive [] = []
alive (h ∷ hs) = if ltb h.removed h.added then h.logical_id ∷ alive hs else alive hs

-- No object was last added and last removed at the same time.
abbrev pub AreSettled : List History → Type 0
AreSettled [] = Unit {0}
AreSettled (h ∷ hs) = (h.added ≢ h.removed) × AreSettled hs

-- The sieve stands at an object and knows its history.
pub record Tracks (s : EntrySieve) (h : History) : Type 0 where
  pub started : s.started ≡ true
  pub current : s.current_lid ≡ h.logical_id
  pub latest : s.latest_timestamp ≡ pos (later h.added h.removed)
  pub was_removed : h.added < h.removed → s.removed ≡ true
  pub was_added : h.removed < h.added → s.removed ≡ false

abbrev pub extend : {K : Type 0} → History → RootEntry K → History
extend h e = record h {
  added = later h.added (pos_part e.add_time);
  removed = later h.removed (pos_part e.del_time);
}

module _ {K : Type 0} where
  pub note_times :
      (s : EntrySieve) (h : History) (e : RootEntry K) (a d : ℤ)
      → e.add_time ≡ a
      → e.del_time ≡ d
      → Tracks s h
      → Tracks (note_removed e (note_added e s)) (extend h e)
        × ((note_removed e (note_added e s)).result ≡ s.result)
  note_times s h e (pos a) (pos d) i j t = ground arith
  note_times s h e (pos a) (negsuc d) i j t = ground arith
  note_times s h e (negsuc a) (pos d) i j t = ground arith
  note_times s h e (negsuc a) (negsuc d) i j t = ground arith

  abbrev pub fresh : RootEntry K → EntrySieve → EntrySieve
  fresh e s = note_removed e (note_added e (state_reset e s))

  -- An object's first entry is its history.
  pub fresh-Tracks :
      (s : EntrySieve) (e : RootEntry K)
      → s.started ≡ true
      → Tracks (fresh e s) (history_of e) × ((fresh e s).result ≡ s.result)
  fresh-Tracks s e h =
      let never : History = record { logical_id = e.logical_id; added = 0; removed = 0 } in
      let noted = note_times (state_reset e s) never e e.add_time e.del_time refl refl (record {
        started = h;
        current = refl;
        latest = refl;
        was_removed = λ k. absurd (omega (arith, k));
        was_added = λ k. absurd (omega (arith, k));
      }) in
      (
        subst (λ k. Tracks (fresh e s) k)
            (λ i. record {
              logical_id = e.logical_id;
              added = later_zero (pos_part e.add_time) i;
              removed = later_zero (pos_part e.del_time) i;
            })
            noted.0,
        noted.1,
      )

  pub put-extend :
      (h : History) (e : RootEntry K) (hs : List History)
      → (h.logical_id == e.logical_id) ≡ true
      → put h (put (history_of e) hs) ≡ put (extend h e) hs
  put-extend h e [] q = rw q refl
  put-extend h e (g ∷ gs) q = elim (Bool-cases (e.logical_id == g.logical_id)) [
    | inl k ↦ ground (
      arith,
      later_assoc h.added (pos_part e.add_time) g.added,
      later_assoc h.removed (pos_part e.del_time) g.removed,
    )
    | inr k ↦ ground arith
  ]

  pub put_other :
      (h : History) (e : RootEntry K) (hs : List History)
      → (h.logical_id == e.logical_id) ≡ false
      → put h (put (history_of e) hs) ≡ h ∷ put (history_of e) hs
  put_other h e [] q = rw q refl
  put_other h e (g ∷ gs) q = elim (Bool-cases (e.logical_id == g.logical_id)) [
    | inl k ↦ rw (k, q) refl
    | inr k ↦ rw (k, q) refl
  ]

-- The answer, where no other object follows.
pub push-alive :
    (s : EntrySieve) (h : History) (hs : List History)
    → Tracks s h
    → h.added ≢ h.removed
    → (push_latest s).result ++ alive hs ≡ s.result ++ alive (h ∷ hs)
push-alive s h hs t settled = elim (Bool-cases (ltb h.removed h.added)) [
  | inl k ↦
      rw (k, t.was_added (ltb→lt _ _ k), t.current)
        (append_assoc s.result (h.logical_id ∷ []) (alive hs))
  | inr k ↦ rw (k, t.was_removed (omega (arith, ltb→ge _ _ k, settled))) refl
]
