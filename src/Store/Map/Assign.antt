-- ===== src/Store/Map/Assign.antt =====
-- The loop of setPhysicalID, which assigns the identifiers up to the one that is set.
use loxim_stats.Base.{
  ℕ, zero, suc, ◌+◌, ◌%◌, ◌≤◌, ◌<◌, ◌≡◌, ◌≢◌, refl, true, false, some, arith, ltb, Bool-cases, inl,
  inr, ◌∙◌, subst, ltb→lt, ltb→ge,
}
use loxim_stats.Store.Map.{
  PhysicalId, rip, MapFile, get_last_assigned, write_entry, uint_mod, create_logical_id,
  max_logical_id, SetResult, assign, then_write, set_physical_id,
}
use loxim_stats.Store.Map.Create.{created_kept}
use loxim_stats.Store.Map.Entries.{entry, write_entry_same, write_entry_other}

-- `g` keeps the entries of `f`, and those it assigned since are still RIP.
pub record Extends (f g : MapFile) : Type 0 where
  pub more : get_last_assigned f ≤ get_last_assigned g
  pub kept : (j : ℕ) → j ≤ get_last_assigned f → entry g j ≡ entry f j
  pub fresh : (j : ℕ) → get_last_assigned f < j → j ≤ get_last_assigned g → entry g j ≡ rip

pub unchanged_lem : (f : MapFile) → Extends f f
unchanged_lem f = record {
  more = omega arith;
  kept = λ j h. refl;
  fresh = λ j lo hi. absurd (omega arith);
}

joined_lem : (f g h : MapFile) → Extends f g → Extends g h → Extends f h
joined_lem f g h a b = record {
  more = omega (arith, a.more, b.more);
  kept = λ j le. b.kept j (omega (arith, a.more)) ∙ a.kept j le;
  fresh = λ j lo hi. elim (Bool-cases (ltb (get_last_assigned g) j)) [
    | inl new ↦ b.fresh j (ltb→lt _ _ new) hi
    | inr old ↦ b.kept j (ltb→ge _ _ old) ∙ a.fresh j lo (ltb→ge _ _ old)
  ];
}

pub last_write :
    (timer : ℕ) (f : MapFile) (i : ℕ) (e : PhysicalId)
    → get_last_assigned (write_entry timer f i e) ≡ get_last_assigned f
unfolding write_entry
last_write timer f i e = refl

-- One round of the loop: the identifier is assigned, and its entry is written once more.
assign_one : ℕ → MapFile → MapFile
assign_one timer f = let (g, ll) = create_logical_id timer f in write_entry timer g ll rip

assign_one_last :
    (timer : ℕ) (f : MapFile)
    → get_last_assigned f + 1 < uint_mod
    → get_last_assigned (assign_one timer f) ≡ get_last_assigned f + 1
unfolding assign_one create_logical_id write_entry
assign_one_last timer f h = omega arith

assign_one_kept :
    (timer : ℕ) (f : MapFile) (j : ℕ)
    → (get_last_assigned f + 1) % uint_mod ≢ j
    → entry (assign_one timer f) j ≡ entry f j
unfolding assign_one create_logical_id
assign_one_kept timer f j ne =
    let (g, ll) = create_logical_id timer f in
    write_entry_other timer g ll j rip refl ne ∙ created_kept timer f j ne

assign_one_fresh :
    (timer : ℕ) (f : MapFile) (j : ℕ)
    → (get_last_assigned f + 1) % uint_mod ≡ j
    → entry (assign_one timer f) j ≡ rip
unfolding assign_one create_logical_id
assign_one_fresh timer f j e =
    let (g, ll) = create_logical_id timer f in
    subst (λ n. entry (assign_one timer f) n ≡ rip) e (write_entry_same timer g ll rip refl)

assign_one-Extends :
    (timer : ℕ) (f : MapFile) → get_last_assigned f + 1 < uint_mod → Extends f (assign_one timer f)
assign_one-Extends timer f h =
    let last = assign_one_last timer f h in
    record {
      more = omega (arith, last);
      kept = λ j le. assign_one_kept timer f j (omega arith);
      fresh = λ j lo hi. assign_one_fresh timer f j (omega (arith, last));
    }

pub set_physical_id_known :
    (depth rounds timer : ℕ) (f : MapFile) (i : ℕ) (e : PhysicalId)
    → 0 < i
    → i ≤ max_logical_id
    → i ≤ get_last_assigned f
    → set_physical_id (suc depth) rounds timer f i (some e) ≡ some (write_entry timer f i e, 0)
unfolding set_physical_id
set_physical_id_known depth rounds timer f i e pos le known = ground arith

pub set_physical_id_loop :
    (depth rounds timer : ℕ) (f : MapFile) (i : ℕ) (e : PhysicalId)
    → 0 < i
    → i ≤ max_logical_id
    → ltb (get_last_assigned f) i ≡ true
    → set_physical_id (suc depth) rounds timer f i (some e)
      ≡ then_write timer i e
          (assign (λ g ll. set_physical_id depth rounds timer g ll (some rip)) rounds timer f i)
unfolding set_physical_id
set_physical_id_loop depth rounds timer f i e pos small new = ground arith

abbrev pub putter : ℕ → ℕ → ℕ → MapFile → ℕ → SetResult
putter depth rounds timer g ll = set_physical_id (suc depth) rounds timer g ll (some rip)

assign_round :
    (put : MapFile → ℕ → SetResult) (rounds timer : ℕ) (f h : MapFile) (i code : ℕ)
    → ltb (get_last_assigned f) i ≡ true
    → put (create_logical_id timer f).0 (create_logical_id timer f).1 ≡ some (h, code)
    → assign put (suc rounds) timer f i ≡ assign put rounds timer h i
unfolding assign
assign_round put rounds timer f h i code more run = rw (more, run, assign) refl

assign_end :
    (put : MapFile → ℕ → SetResult) (rounds timer : ℕ) (f : MapFile) (i : ℕ)
    → ltb (get_last_assigned f) i ≡ false
    → assign put (suc rounds) timer f i ≡ some f
unfolding assign
assign_end put rounds timer f i done = rw (done, assign) refl

put_created :
    (depth rounds timer : ℕ) (f : MapFile)
    → get_last_assigned f < max_logical_id
    → putter depth rounds timer (create_logical_id timer f).0 (create_logical_id timer f).1
      ≡ some (assign_one timer f, 0)
unfolding create_logical_id assign_one write_entry
put_created depth rounds timer f h =
    let (g, ll) = create_logical_id timer f in
    set_physical_id_known depth rounds timer g ll rip (omega arith) (omega arith) (omega arith)

-- With a round for each identifier that is missing and one for the test that ends it, the loop
-- assigns them all.
pub assign-Extends :
    (depth inner rounds timer : ℕ) (f : MapFile) (i : ℕ)
    → get_last_assigned f ≤ i
    → i ≤ max_logical_id
    → i < get_last_assigned f + rounds
    → (g : MapFile) × (assign (putter depth inner timer) rounds timer f i ≡ some g)
      × (get_last_assigned g ≡ i)
      × Extends f g
unfolding assign
assign-Extends depth inner zero timer f i le small enough = absurd (omega arith)
assign-Extends depth inner (suc rounds) timer f i le small enough =
    elim (Bool-cases (ltb (get_last_assigned f) i)) [
      | inr done ↦ (
        f,
        assign_end (putter depth inner timer) rounds timer f i done,
        omega (arith, ltb→ge _ _ done),
        unchanged_lem f,
      )
      | inl more ↦
          let lt = ltb→lt _ _ more in
          let last = assign_one_last timer f (omega arith) in
          let (g, run, at, rest) =
            assign-Extends depth inner rounds timer (assign_one timer f) i (omega (arith, last))
              small (omega (arith, last)) in
          (
            g,
            assign_round (putter depth inner timer) rounds timer f (assign_one timer f) i 0 more
                  (put_created depth inner timer f (omega arith))
                ∙ run,
            at,
            joined_lem f (assign_one timer f) g (assign_one-Extends timer f (omega arith)) rest,
          )
    ]
