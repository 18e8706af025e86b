-- ===== src/Util/Semaphore/Invariant.antt =====
-- What the counters of the semaphore say about the threads.
use loxim_stats.Base.{
  ℕ, ◌+◌, ◌<◌, ◌≡◌, ◌≢◌, Bool, true, false, List, [], ◌∷◌, arith, ◌==◌, length, Bool-cases, inl,
  inr,
}
use loxim_stats.Util.Semaphore.{
  LockMode, read, write, none, Upgrader, no_upgrader, upgrader, Checked, returns, assert_failed,
  counter_mod, new_sem, lock_read, lock_write, lock_upgrade, unlock, woken_read, woken_write,
  woken_upgrade,
}
use loxim_stats.Util.Semaphore.Threads.{
  World, new_world, deliver, contains, remove, step, ask_read, ask_write, wake_reader, wake_writer,
  leave_read, leave_write, ask_upgrade, wake_upgrader, is_permitted,
}

abbrev pub best_prio : Upgrader → ℕ
best_prio no_upgrader = 0
best_prio (upgrader p) = p

abbrev pub AllDiffer : ℕ → List ℕ → Type 0
AllDiffer b [] = Unit {0}
AllDiffer b (p ∷ ps) = (p ≢ b) × AllDiffer b ps

-- Nobody inside, nobody waiting.
pub record IsFree (w : World) : Type 0 where
  pub inside : w.sem.inside ≡ 0
  pub best : w.sem.best_upgrader ≡ no_upgrader
  pub holders : w.reading + w.writing + w.read_woken + w.write_woken ≡ 0
  pub blocked : w.read_blocked + w.write_blocked ≡ 0
  pub upgrades : w.upgrade_blocked ≡ []
  pub losers : w.upgrade_woken ≡ []

-- Readers inside, some perhaps not yet awake; others wait only behind a writer.
pub record IsRead (w : World) : Type 0 where
  pub inside : w.sem.inside ≡ w.reading + w.read_woken
  pub best : w.sem.best_upgrader ≡ no_upgrader
  pub some_inside : 0 < w.sem.inside
  pub holders : w.writing + w.write_woken ≡ 0
  pub behind : 0 < w.read_blocked → 0 < w.write_blocked
  pub upgrades : w.upgrade_blocked ≡ []
  pub losers : w.upgrade_woken ≡ []

-- Readers inside, of which one waits to upgrade and others were refused and do not know it yet.
pub record IsUpgrading (w : World) : Type 0 where
  pub inside : w.sem.inside ≡ w.reading + w.read_woken + 1 + length w.upgrade_woken
  pub best : w.sem.best_upgrader ≢ no_upgrader
  pub two_inside : 1 < w.sem.inside
  pub holders : w.writing + w.write_woken ≡ 0
  pub upgrades : w.upgrade_blocked ≡ best_prio w.sem.best_upgrader ∷ []
  pub losers : AllDiffer (best_prio w.sem.best_upgrader) w.upgrade_woken

-- One writer inside, perhaps not yet awake.
pub record IsWrite (w : World) : Type 0 where
  pub inside : w.sem.inside ≡ 1
  pub best : w.sem.best_upgrader ≡ no_upgrader
  pub holders : w.writing + w.write_woken ≡ 1
  pub readers : w.reading + w.read_woken ≡ 0
  pub upgrades : w.upgrade_blocked ≡ []
  pub losers : w.upgrade_woken ≡ []

-- An upgrader has the lock and does not know it yet.
pub record IsUpgraded (w : World) : Type 0 where
  pub inside : w.sem.inside ≡ 1
  pub best : w.sem.best_upgrader ≢ no_upgrader
  pub holders : w.writing + w.write_woken ≡ 0
  pub readers : w.reading + w.read_woken ≡ 0
  pub upgrades : w.upgrade_blocked ≡ []
  pub losers : w.upgrade_woken ≡ best_prio w.sem.best_upgrader ∷ []

abbrev pub Phase : LockMode → Bool → World → Type 0
Phase none false w = IsFree w
Phase none true w = ⊥
Phase read false w = IsRead w
Phase read true w = IsUpgrading w
Phase write false w = IsWrite w
Phase write true w = IsUpgraded w

-- The number of threads.
abbrev pub total : World → ℕ
total w =
    w.idle
    + w.reading
    + w.writing
    + w.read_blocked
    + w.read_woken
    + w.write_blocked
    + w.write_woken
    + length w.upgrade_blocked
    + length w.upgrade_woken

-- The counters count the waiting threads, none overflows, and the phase fits the mode.
pub record Inv (threads : ℕ) (w : World) : Type 0 where
  pub bounded : threads < counter_mod
  pub counted : total w ≡ threads
  pub readers : w.sem.readers_waiting ≡ w.read_blocked
  pub writers : w.sem.writers_waiting ≡ w.write_blocked
  pub phase : Phase w.sem.mode w.sem.upgrader_waiting w

-- A call kept the asserts and the invariant.
abbrev pub Keeps : ℕ → Checked World → Type 0
Keeps threads (returns w) = Inv threads w
Keeps threads assert_failed = ⊥

pub new_world-Inv : (threads : ℕ) → threads < counter_mod → Inv threads (new_world threads)
unfolding new_world new_sem
new_world-Inv threads h = ground arith

-- A world with its mode in sight.
abbrev pub at_mode : LockMode → Bool → World → World
at_mode mode waiting w = record w { sem = record w.sem { mode = mode; upgrader_waiting = waiting } }

pub ask_read-Keeps :
    (threads : ℕ) (mode : LockMode) (waiting : Bool) (w : World)
    → Inv threads (at_mode mode waiting w)
    → Keeps threads (step (at_mode mode waiting w) ask_read)
unfolding step lock_read
ask_read-Keeps threads none false w v = ground arith
ask_read-Keeps threads none true w v = ground arith
ask_read-Keeps threads read false w v = ground arith
ask_read-Keeps threads read true w v = ground arith
ask_read-Keeps threads write false w v = ground arith
ask_read-Keeps threads write true w v = ground arith

pub ask_write-Keeps :
    (threads : ℕ) (mode : LockMode) (waiting : Bool) (w : World)
    → Inv threads (at_mode mode waiting w)
    → Keeps threads (step (at_mode mode waiting w) ask_write)
unfolding step lock_write
ask_write-Keeps threads none false w v = ground arith
ask_write-Keeps threads none true w v = ground arith
ask_write-Keeps threads read false w v = ground arith
ask_write-Keeps threads read true w v = ground arith
ask_write-Keeps threads write false w v = ground arith
ask_write-Keeps threads write true w v = ground arith

pub wake_reader-Keeps :
    (threads : ℕ) (mode : LockMode) (waiting : Bool) (w : World)
    → Inv threads (at_mode mode waiting w)
    → Keeps threads (step (at_mode mode waiting w) wake_reader)
unfolding step woken_read
wake_reader-Keeps threads none false w v = ground arith
wake_reader-Keeps threads none true w v = ground arith
wake_reader-Keeps threads read false w v = ground arith
wake_reader-Keeps threads read true w v = ground arith
wake_reader-Keeps threads write false w v = ground arith
wake_reader-Keeps threads write true w v = ground arith

pub wake_writer-Keeps :
    (threads : ℕ) (mode : LockMode) (waiting : Bool) (w : World)
    → Inv threads (at_mode mode waiting w)
    → Keeps threads (step (at_mode mode waiting w) wake_writer)
unfolding step woken_write
wake_writer-Keeps threads none false w v = ground arith
wake_writer-Keeps threads none true w v = ground arith
wake_writer-Keeps threads read false w v = ground arith
wake_writer-Keeps threads read true w v = ground arith
wake_writer-Keeps threads write false w v = ground arith
wake_writer-Keeps threads write true w v = ground arith

pub leave_read-Keeps :
    (threads : ℕ) (mode : LockMode) (waiting : Bool) (w : World)
    → Inv threads (at_mode mode waiting w)
    → Keeps threads (step (at_mode mode waiting w) leave_read)
unfolding step unlock deliver
leave_read-Keeps threads none false w v = ground arith
leave_read-Keeps threads none true w v = ground arith
leave_read-Keeps threads read false w v = ground arith
leave_read-Keeps threads read true w v = ground arith
leave_read-Keeps threads write false w v = ground arith
leave_read-Keeps threads write true w v = ground arith

pub leave_write-Keeps :
    (threads : ℕ) (mode : LockMode) (waiting : Bool) (w : World)
    → Inv threads (at_mode mode waiting w)
    → Keeps threads (step (at_mode mode waiting w) leave_write)
unfolding step unlock deliver
leave_write-Keeps threads none false w v = ground arith
leave_write-Keeps threads none true w v = ground arith
leave_write-Keeps threads read false w v = ground arith
leave_write-Keeps threads read true w v = ground arith
leave_write-Keeps threads write false w v = ground arith
leave_write-Keeps threads write true w v = ground arith

contains-AllDiffer : (p : ℕ) (xs : List ℕ) → contains p xs ≡ false → AllDiffer p xs
contains-AllDiffer p [] h = tt
contains-AllDiffer p (x ∷ xs) h = (ground arith, contains-AllDiffer p xs (ground arith))

contains_ne : (b p : ℕ) (xs : List ℕ) → AllDiffer b xs → contains p xs ≡ true → p ≢ b
contains_ne b p [] d h = absurd (cc)
contains_ne b p (x ∷ xs) d h = elim (Bool-cases (p == x)) [
  | inl e ↦ ground arith
  | inr n ↦ contains_ne b p xs d.1 (ground arith)
]

AllDiffer-remove : (b p : ℕ) (xs : List ℕ) → AllDiffer b xs → AllDiffer b (remove p xs)
AllDiffer-remove b p [] d = tt
AllDiffer-remove b p (x ∷ xs) d = ground (arith, AllDiffer-remove b p xs d.1)

length-remove : (p : ℕ) (xs : List ℕ) → contains p xs ≡ true → length xs ≡ length (remove p xs) + 1
length-remove p [] h = absurd (cc)
length-remove p (x ∷ xs) h = elim (Bool-cases (p == x)) [
  | inl e ↦ ground arith
  | inr n ↦ ground (arith, length-remove p xs)
]

pub ask_upgrade-Keeps :
    (threads : ℕ) (mode : LockMode) (waiting : Bool) (w : World) (p : ℕ)
    → Inv threads (at_mode mode waiting w)
    → is_permitted w (ask_upgrade p) ≡ true
    → Keeps threads (step (at_mode mode waiting w) (ask_upgrade p))
unfolding step lock_upgrade deliver
ask_upgrade-Keeps threads none false w p v h = ground arith
ask_upgrade-Keeps threads none true w p v h = ground arith
ask_upgrade-Keeps threads read false w p v h = ground arith
ask_upgrade-Keeps threads read true w p v h = ground (arith, contains-AllDiffer p w.upgrade_woken)
ask_upgrade-Keeps threads write false w p v h = ground arith
ask_upgrade-Keeps threads write true w p v h = ground arith

pub wake_upgrader-Keeps :
    (threads : ℕ) (mode : LockMode) (waiting : Bool) (w : World) (p : ℕ)
    → Inv threads (at_mode mode waiting w)
    → Keeps threads (step (at_mode mode waiting w) (wake_upgrader p))
unfolding step woken_upgrade deliver
wake_upgrader-Keeps threads none false w p v = ground arith
wake_upgrader-Keeps threads none true w p v = ground arith
wake_upgrader-Keeps threads read false w p v = ground arith
wake_upgrader-Keeps threads read true w p v = ground (
  arith,
  contains_ne (best_prio w.sem.best_upgrader) p w.upgrade_woken,
  AllDiffer-remove (best_prio w.sem.best_upgrader) p w.upgrade_woken,
  length-remove p w.upgrade_woken,
)
wake_upgrader-Keeps threads write false w p v = ground arith
wake_upgrader-Keeps threads write true w p v = ground arith
