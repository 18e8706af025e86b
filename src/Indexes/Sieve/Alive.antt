-- ===== src/Indexes/Sieve/Alive.antt =====
-- The answer of the sieve of src/Indexes/EntrySieve.cpp, in terms of what the transaction sees and of the
-- histories of objects.
use loxim_stats.Base.{
  ℕ, ◌≡◌, refl, ap, ◌∙◌, sym, subst, Bool, true, false, List, [], ◌∷◌, ◌++◌, if◌then◌else◌, ◌==◌,
  inl, inr, arith, Bool-cases, append-nil,
}
use loxim_stats.Base.Int.{ℤ}
use loxim_stats.Indexes.Traveller.{RootEntry}
use loxim_stats.Indexes.Constraints.Walk.{feed}
use loxim_stats.Indexes.Constraints.Range.{kept}
use loxim_stats.Indexes.Sieve.{
  Viewer, EntrySieve, new_sieve, push_latest, start, state_reset, next_object, note_added,
  note_removed, add, get_result,
}
use loxim_stats.Indexes.Sieve.Snapshot.{sees, is_entry_visible-sees}
use loxim_stats.Indexes.Sieve.History.{
  History, put, history_of, histories, alive, AreSettled, Tracks, extend, note_times, fresh,
  fresh-Tracks, put-extend, put_other, push-alive,
}

if_true {ℓ} : {A : Type ℓ} (b : Bool) (x y : A) → b ≡ true → (if b then x else y) ≡ x
if_true true x y h = refl
if_true false x y h = absurd (ground arith)

if_false {ℓ} : {A : Type ℓ} (b : Bool) (x y : A) → b ≡ false → (if b then x else y) ≡ y
if_false true x y h = absurd (ground arith)
if_false false x y h = refl

push_started : (s : EntrySieve) → s.started ≡ true → (push_latest s).started ≡ true
push_started s h = elim (Bool-cases s.removed) [ inl k ↦ rw k h | inr k ↦ rw k h ]

result_started : (s : EntrySieve) → s.started ≡ true → get_result s ≡ (push_latest s).result
result_started s h = if_true s.started (push_latest s).result s.result h

module _ {K : Type 0} (w : Viewer) where
  abbrev pub seen : List (RootEntry K) → List History
  seen es = histories (kept (sees w) es)

  unseen_add : (s : EntrySieve) (e : RootEntry K) → sees w e ≡ false → add w s e ≡ s
  unfolding add
  unseen_add s e h = rw (is_entry_visible-sees w e, h) refl

  seen_add :
      (s : EntrySieve) (e : RootEntry K)
      → sees w e ≡ true
      → add w s e ≡ note_removed e (note_added e (next_object e (start e s)))
  unfolding add
  seen_add s e h = rw (is_entry_visible-sees w e, h) refl

  -- The next entry belongs to the object at hand.
  same_object :
      (s : EntrySieve) (e : RootEntry K)
      → s.started ≡ true
      → (s.current_lid == e.logical_id) ≡ true
      → next_object e (start e s) ≡ s
  same_object s e h q = rw (h, q) refl

  -- The next entry belongs to another object.
  other_object :
      (s : EntrySieve) (e : RootEntry K)
      → s.started ≡ true
      → (s.current_lid == e.logical_id) ≡ false
      → next_object e (start e s) ≡ state_reset e (push_latest s)
  other_object s e h q = rw (h, q) refl

  seen_without :
      (e : RootEntry K) (es : List (RootEntry K)) → sees w e ≡ false → seen (e ∷ es) ≡ seen es
  seen_without e es h = rw h refl

  seen_with :
      (e : RootEntry K) (es : List (RootEntry K))
      → sees w e ≡ true
      → seen (e ∷ es) ≡ put (history_of e) (seen es)
  seen_with e es h = rw h refl

  add_same :
      (s : EntrySieve) (h : History) (e : RootEntry K)
      → Tracks s h
      → sees w e ≡ true
      → (h.logical_id == e.logical_id) ≡ true
      → add w s e ≡ note_removed e (note_added e s)
  add_same s h e t saw same =
      seen_add s e saw
      ∙ ap (λ u. note_removed e (note_added e u))
          (same_object s e t.started (subst (λ l. (l == e.logical_id) ≡ true) (sym t.current) same))

  add_other :
      (s : EntrySieve) (h : History) (e : RootEntry K)
      → Tracks s h
      → sees w e ≡ true
      → (h.logical_id == e.logical_id) ≡ false
      → add w s e ≡ fresh e (push_latest s)
  add_other s h e t saw other =
      seen_add s e saw
      ∙ ap (λ u. note_removed e (note_added e u))
          (other_object s e t.started
            (subst (λ l. (l == e.logical_id) ≡ false) (sym t.current) other))

  -- The answer of a sieve that stands at an object, after more entries.
  feed-alive :
      (s : EntrySieve) (h : History) (es : List (RootEntry K))
      → Tracks s h
      → AreSettled (put h (seen es))
      → get_result (feed (add w) s es) ≡ s.result ++ alive (put h (seen es))
  feed-alive s h [] t v =
      result_started s t.started ∙ sym (append-nil (push_latest s).result) ∙ push-alive s h [] t v.0
  feed-alive s h (e ∷ es) t v = elim (Bool-cases (sees w e)) [
    | inr unseen ↦
        let same = ap (put h) (seen_without e es unseen) in
        ap (λ u. get_result (feed (add w) u es)) (unseen_add s e unseen)
        ∙ feed-alive s h es t (subst AreSettled same v)
        ∙ ap (λ hs. s.result ++ alive hs) (sym same)
    | inl saw ↦ elim (Bool-cases (h.logical_id == e.logical_id)) [
      | inl same ↦
          let noted = note_times s h e e.add_time e.del_time refl refl t in
          let joins = ap (put h) (seen_with e es saw) ∙ put-extend h e (seen es) same in
          ap (λ u. get_result (feed (add w) u es)) (add_same s h e t saw same)
          ∙ feed-alive (note_removed e (note_added e s)) (extend h e) es noted.0
              (subst AreSettled joins v)
          ∙ ap (λ r. r ++ alive (put (extend h e) (seen es))) noted.1
          ∙ ap (λ hs. s.result ++ alive hs) (sym joins)
      | inr other ↦
          let pushed = push_latest s in
          let begun = fresh-Tracks pushed e (push_started s t.started) in
          let apart = ap (put h) (seen_with e es saw) ∙ put_other h e (seen es) other in
          let settled = subst AreSettled apart v in
          ap (λ u. get_result (feed (add w) u es)) (add_other s h e t saw other)
          ∙ feed-alive (fresh e pushed) (history_of e) es begun.0 settled.1
          ∙ ap (λ r. r ++ alive (put (history_of e) (seen es))) begun.1
          ∙ push-alive s h (put (history_of e) (seen es)) t settled.0
          ∙ ap (λ hs. s.result ++ alive hs) (sym apart)
    ]
  ]

  first_object :
      (s : EntrySieve) (e : RootEntry K)
      → s.started ≡ false
      → next_object e (start e s) ≡ state_reset e (record s { started = true })
  first_object s e h = ground arith

  unstarted-alive :
      (s : EntrySieve) (es : List (RootEntry K))
      → s.started ≡ false
      → s.result ≡ []
      → AreSettled (seen es)
      → get_result (feed (add w) s es) ≡ alive (seen es)
  unstarted-alive s [] h r v = if_false s.started (push_latest s).result s.result h ∙ r
  unstarted-alive s (e ∷ es) h r v = elim (Bool-cases (sees w e)) [
    | inr unseen ↦
        let same = seen_without e es unseen in
        ap (λ u. get_result (feed (add w) u es)) (unseen_add s e unseen)
        ∙ unstarted-alive s es h r (subst AreSettled same v)
        ∙ ap alive (sym same)
    | inl saw ↦
        let begun = fresh-Tracks (record s { started = true }) e refl in
        let first = seen_with e es saw in
        ap (λ u. get_result (feed (add w) u es))
          (seen_add s e saw ∙ ap (λ u. note_removed e (note_added e u)) (first_object s e h))
        ∙ feed-alive (fresh e (record s { started = true })) (history_of e) es begun.0
            (subst AreSettled first v)
        ∙ ap (λ l. l ++ alive (put (history_of e) (seen es))) (begun.1 ∙ r)
        ∙ ap alive (sym first)
  ]

  -- Where, among the entries that the transaction sees, no object was last added and last removed at the
  -- same time, the sieve answers, in the order of the entries and whatever the members are that the
  -- constructor does not set, the objects that were last added after they were last removed. The entries
  -- of one object that stand together count as one history.
  pub get_result-alive :
      (lid : ℕ) (timestamp : ℤ) (removed : Bool) (es : List (RootEntry K))
      → AreSettled (seen es)
      → get_result (feed (add w) (new_sieve lid timestamp removed) es) ≡ alive (seen es)
  get_result-alive lid timestamp removed es v =
      unstarted-alive (new_sieve lid timestamp removed) es refl refl v
