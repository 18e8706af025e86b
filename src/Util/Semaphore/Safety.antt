-- ===== src/Util/Semaphore/Safety.antt =====
-- What holds of every interleaving of threads on one semaphore.
use loxim_stats.Base.{
  ℕ, ◌+◌, ◌≤◌, ◌<◌, ◌≡◌, refl, Bool, true, false, List, [], ◌∷◌, arith, length, ◌∙◌, sym, subst,
  ◌⊎◌, inl, inr, ap, ◌&&◌,
}
use loxim_stats.Util.Semaphore.{
  LockMode, read, write, none, Checked, returns, assert_failed, counter_mod,
}
use loxim_stats.Util.Semaphore.Threads.{
  World, Event, ask_read, ask_write, wake_reader, wake_writer, leave_read, leave_write, ask_upgrade,
  wake_upgrader, spurious_reader, spurious_writer, spurious_upgrader, new_world, step, run,
  is_permitted, are_permitted, permitted_after,
}
use loxim_stats.Util.Semaphore.Invariant.{
  Inv, Keeps, at_mode, new_world-Inv, ask_read-Keeps, ask_write-Keeps, wake_reader-Keeps,
  wake_writer-Keeps, leave_read-Keeps, leave_write-Keeps, ask_upgrade-Keeps, wake_upgrader-Keeps,
}

step-Keeps :
    (threads : ℕ) (w : World) (e : Event)
    → Inv threads w
    → is_permitted w e ≡ true
    → Keeps threads (step w e)
step-Keeps threads w ask_read v h = ask_read-Keeps threads w.sem.mode w.sem.upgrader_waiting w v
step-Keeps threads w ask_write v h = ask_write-Keeps threads w.sem.mode w.sem.upgrader_waiting w v
step-Keeps threads w wake_reader v h =
    wake_reader-Keeps threads w.sem.mode w.sem.upgrader_waiting w v
step-Keeps threads w wake_writer v h =
    wake_writer-Keeps threads w.sem.mode w.sem.upgrader_waiting w v
step-Keeps threads w leave_read v h = leave_read-Keeps threads w.sem.mode w.sem.upgrader_waiting w v
step-Keeps threads w leave_write v h =
    leave_write-Keeps threads w.sem.mode w.sem.upgrader_waiting w v
step-Keeps threads w (ask_upgrade p) v h =
    ask_upgrade-Keeps threads w.sem.mode w.sem.upgrader_waiting w p v h
step-Keeps threads w (wake_upgrader p) v h =
    wake_upgrader-Keeps threads w.sem.mode w.sem.upgrader_waiting w p v
step-Keeps threads w spurious_reader v h = absurd (ground arith)
step-Keeps threads w spurious_writer v h = absurd (ground arith)
step-Keeps threads w (spurious_upgrader p) v h = absurd (ground arith)

Checked-cases {ℓ} : {A : Type ℓ} (r : Checked A) → (r ≡ assert_failed) ⊎ ((a : A) × (r ≡ returns a))
Checked-cases assert_failed = inl refl
Checked-cases (returns a) = inr (a, refl)

returns_inj {ℓ} : {A : Type ℓ} {a b : A} → returns a ≡ returns b → a ≡ b
returns_inj {a} e = ap (λ r. elim r [ returns x ↦ x | assert_failed ↦ a ]) e

first_true : (a b : Bool) → (a && b) ≡ true → a ≡ true
first_true a b h = ground arith

second_true : (a b : Bool) → (a && b) ≡ true → b ≡ true
second_true a b h = ground arith

-- No assert of the semaphore fails.
run-Inv :
    (threads : ℕ) (w : World) (es : List Event)
    → Inv threads w
    → are_permitted w es ≡ true
    → (w' : World) × (run w es ≡ returns w') × Inv threads w'
unfolding run are_permitted
run-Inv threads w [] v h = (w, refl, v)
run-Inv threads w (e ∷ es) v h =
    let first =
      first_true (is_permitted w e) (permitted_after (λ w'. are_permitted w' es) (step w e)) h in
    let kept = step-Keeps threads w e v first in
    elim (Checked-cases (step w e)) [
      | inl failed ↦ absurd (rw failed at kept)
      | inr (w1, done) ↦
          let others =
            second_true (is_permitted w e) (permitted_after (λ w'. are_permitted w' es) (step w e))
              h in
          let (w', rest, v') = run-Inv threads w1 es (rw done at kept) (rw done at others) in
          (w', rw (done, run) rest, v')
    ]

-- At most one writer, and no reader beside it.
abbrev pub IsExclusive : World → Type 0
IsExclusive w = (w.writing ≤ 1) × ((w.writing ≡ 0) ⊎ (w.reading ≡ 0))

-- The threads that wait for a signal, and those that hold the lock or were woken.
abbrev pub blocked : World → ℕ
blocked w = w.read_blocked + w.write_blocked + length w.upgrade_blocked

abbrev pub awake : World → ℕ
awake w = w.reading + w.writing + w.read_woken + w.write_woken + length w.upgrade_woken

Inv-IsExclusive :
    (threads : ℕ) (mode : LockMode) (waiting : Bool) (w : World)
    → Inv threads (at_mode mode waiting w)
    → IsExclusive w
Inv-IsExclusive threads none false w v = ground arith
Inv-IsExclusive threads none true w v = ground arith
Inv-IsExclusive threads read false w v = ground arith
Inv-IsExclusive threads read true w v = ground arith
Inv-IsExclusive threads write false w v = ground arith
Inv-IsExclusive threads write true w v = ground arith

Inv-live :
    (threads : ℕ) (mode : LockMode) (waiting : Bool) (w : World)
    → Inv threads (at_mode mode waiting w)
    → 0 < blocked w
    → (0 < awake w) × (length w.upgrade_blocked ≤ 1)
Inv-live threads none false w v h = ground arith
Inv-live threads none true w v h = ground arith
Inv-live threads read false w v h = ground arith
Inv-live threads read true w v h = ground arith
Inv-live threads write false w v h = ground arith
Inv-live threads write true w v h = ground arith

-- Where no wait on a condition variable returns without a signal of its own, and no thread asks for
-- an upgrade with the priority of another one whose upgrade has not returned: however fewer than
-- 65536 threads interleave their calls and however late they wake up, no assert of the semaphore
-- fails, there is at most one writer, and no reader holds the lock beside it.
pub run-IsExclusive :
    (threads : ℕ) (es : List Event)
    → threads < counter_mod
    → are_permitted (new_world threads) es ≡ true
    → (w : World) × (run (new_world threads) es ≡ returns w) × IsExclusive w
run-IsExclusive threads es few permitted =
    let (w, done, v) =
      run-Inv threads (new_world threads) es (new_world-Inv threads few) permitted in
    (w, done, Inv-IsExclusive threads w.sem.mode w.sem.upgrader_waiting w v)

-- In the runs of fewer than 65536 threads where no wait returns without a signal of its own and no
-- thread asks for an upgrade with the priority of another one whose upgrade has not returned, no
-- thread is forgotten: while one waits for a signal, another one holds the lock or was woken and
-- will run, and at most one waits to upgrade.
pub run-live :
    (threads : ℕ) (es : List Event) (w : World)
    → threads < counter_mod
    → are_permitted (new_world threads) es ≡ true
    → run (new_world threads) es ≡ returns w
    → 0 < blocked w
    → (0 < awake w) × (length w.upgrade_blocked ≤ 1)
run-live threads es w few permitted done h =
    let (w', done', v) =
      run-Inv threads (new_world threads) es (new_world-Inv threads few) permitted in
    Inv-live threads w.sem.mode w.sem.upgrader_waiting w
      (subst (Inv threads) (returns_inj (sym done' ∙ done)) v) h
