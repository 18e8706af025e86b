-- ===== src/Util/Semaphore.antt =====
-- src/Util/Concurrency.cpp, RWUJSemaphore: a readers-writer lock whose readers may upgrade, by
-- priority. Each function is what one call does between taking and giving back the mutex; a call
-- that waits on a condition variable has a second function for the time after it wakes. The
-- counters are unsigned shorts and wrap around. An assert that fails is a result of its own; the
-- exceptions of pthread_cond_signal and pthread_cond_broadcast are not modelled.
pub mod Threads
pub mod Invariant
pub mod Safety
mod Examples
use loxim_stats.Base.{
  ℕ, ◌+◌, ◌-◌, ◌%◌, ◌^◌, Bool, true, false, not, ◌&&◌, ◌||◌, ltb, ◌==◌, if◌then◌else◌,
}

-- LockMode; its value Upgrade is never used.
pub data LockMode : Type 0 where
  read write none : LockMode

abbrev pub is_read : LockMode → Bool
is_read read = true
is_read write = false
is_read none = false

abbrev pub is_write : LockMode → Bool
is_write read = false
is_write write = true
is_write none = false

abbrev pub is_none : LockMode → Bool
is_none read = false
is_none write = false
is_none none = true

-- best_upgrader: NO_UPGRADER, or the priority of a waiting upgrader.
pub data Upgrader : Type 0 where
  no_upgrader : Upgrader
  upgrader : ℕ → Upgrader

abbrev pub is_no_upgrader : Upgrader → Bool
is_no_upgrader no_upgrader = true
is_no_upgrader (upgrader p) = false

abbrev pub is_upgrader : Upgrader → ℕ → Bool
is_upgrader no_upgrader prio = false
is_upgrader (upgrader p) prio = p == prio

-- best_upgrader > prio; NO_UPGRADER is -1.
abbrev pub worse_than : Upgrader → ℕ → Bool
worse_than no_upgrader prio = false
worse_than (upgrader p) prio = ltb prio p

pub record Sem : Type 0 where
  pub writers_waiting : ℕ
  pub readers_waiting : ℕ
  pub inside : ℕ
  pub mode : LockMode
  pub upgrader_waiting : Bool
  pub best_upgrader : Upgrader

abbrev pub counter_mod : ℕ
counter_mod = 2 ^ 16

abbrev pub increment : ℕ → ℕ
increment n = (n + 1) % counter_mod

abbrev pub decrement : ℕ → ℕ
decrement n = (n + counter_mod - 1) % counter_mod

-- What a call signals.
pub data Signal : Type 0 where
  silent signal_writer broadcast_readers signal_upgrader : Signal

-- How a call ends: inside, waiting, or refused.
pub data Outcome : Type 0 where
  entered waits refused : Outcome

pub data Checked {ℓ} (A : Type ℓ) : Type ℓ where
  returns : A → Checked A
  assert_failed : Checked A

abbrev pub check {ℓ} : {A : Type ℓ} → Bool → Checked A → Checked A
check true r = r
check false r = assert_failed

abbrev pub Call : Type 0
Call = Checked (Sem × Signal × Outcome)

unfoldable pub new_sem : Sem
new_sem = record {
  writers_waiting = 0;
  readers_waiting = 0;
  inside = 0;
  mode = none;
  upgrader_waiting = false;
  best_upgrader = no_upgrader;
}

unfoldable pub lock_read : Sem → Call
lock_read s = check (not (is_none s.mode) || s.inside == 0) (
    if is_none s.mode || (is_read s.mode && s.writers_waiting == 0 && not s.upgrader_waiting)
    then check
        (is_no_upgrader s.best_upgrader
          && s.writers_waiting == 0
          && not s.upgrader_waiting
          && (s.inside == 0 || is_read s.mode)
          && s.readers_waiting == 0
          && (is_none s.mode || is_read s.mode)
          && ltb s.inside (counter_mod - 1))
        (returns (record s { mode = read; inside = increment s.inside }, silent, entered))
    else check
        ((is_write s.mode || ltb 0 s.writers_waiting || s.upgrader_waiting)
          && (s.upgrader_waiting || is_no_upgrader s.best_upgrader)
          && ltb s.readers_waiting (counter_mod - 1))
        (returns (record s { readers_waiting = increment s.readers_waiting }, silent, waits)))

-- The asserts of a reader that wakes.
pub woken_read : Sem → Checked Sem
woken_read s = check (ltb 0 s.inside && is_read s.mode) (returns s)

unfoldable pub lock_write : Sem → Call
lock_write s = check (not (is_none s.mode) || s.inside == 0) (
    if is_none s.mode
    then check
        (s.inside == 0
          && s.readers_waiting == 0
          && s.writers_waiting == 0
          && not s.upgrader_waiting
          && is_no_upgrader s.best_upgrader)
        (returns (record s { mode = write; inside = 1 }, silent, entered))
    else returns (record s { writers_waiting = increment s.writers_waiting }, silent, waits))

-- The asserts of a writer that wakes.
pub woken_write : Sem → Checked Sem
woken_write s = check (s.inside == 1 && is_write s.mode) (returns s)

-- The last one has left: the lock is handed on.
unfoldable pub hand_on : Sem → Checked (Sem × Signal)
hand_on s =
    if ltb 0 s.readers_waiting
    then (if is_read s.mode
        then check (ltb 0 s.writers_waiting || s.upgrader_waiting) (
            returns (
              record s { inside = 1; writers_waiting = decrement s.writers_waiting; mode = write },
              signal_writer,
            ))
        else check (is_write s.mode) (
            returns (
              record s { inside = s.readers_waiting; mode = read; readers_waiting = 0 },
              broadcast_readers,
            )))
    else if ltb 0 s.writers_waiting
    then check (s.readers_waiting == 0) (
        returns (
          record s { inside = 1; mode = write; writers_waiting = decrement s.writers_waiting },
          signal_writer,
        ))
    else check (s.readers_waiting == 0 && s.writers_waiting == 0)
        (returns (record s { mode = none }, silent))

-- Some are left: the last one may be an upgrader that waits for it.
unfoldable pub stay : Sem → Checked (Sem × Signal)
stay s =
    if s.inside == 1
    then check (is_read s.mode) (
        if s.upgrader_waiting
        then check (not (is_no_upgrader s.best_upgrader))
            (returns (record s { mode = write }, signal_upgrader))
        else returns (s, silent))
    else check (is_read s.mode) (returns (s, silent))

-- `_unlock`, which `unlock` calls with the mutex taken.
unfoldable pub unlock : Sem → Checked (Sem × Signal)
unfolding hand_on stay
unlock s = check (ltb 0 s.inside && (is_read s.mode || is_write s.mode)) (
    if s.inside - 1 == 0
    then hand_on (record s { inside = s.inside - 1 })
    else stay (record s { inside = s.inside - 1 }))

-- An upgrade that is refused gives the lock back.
abbrev pub refuse : Checked (Sem × Signal) → Call
refuse (returns (s, signal)) = returns (s, signal, refused)
refuse assert_failed = assert_failed

unfoldable pub lock_upgrade : Sem → ℕ → Call
unfolding unlock
lock_upgrade s prio = check (not (is_none s.mode) || s.inside == 0) (
    if is_read s.mode && s.inside == 1
    then returns (
      record s { mode = write; upgrader_waiting = false; best_upgrader = no_upgrader },
      silent,
      entered,
    )
    else if s.upgrader_waiting
    then check (not (is_no_upgrader s.best_upgrader) && not (is_upgrader s.best_upgrader prio)) (
        if worse_than s.best_upgrader prio
        then returns (record s { best_upgrader = upgrader prio }, signal_upgrader, waits)
        else refuse (unlock s))
    else check (is_no_upgrader s.best_upgrader) (
        returns
          (record s { upgrader_waiting = true; best_upgrader = upgrader prio }, silent, waits)))

-- An upgrader that wakes has won, or makes way for a better one.
unfoldable pub woken_upgrade : Sem → ℕ → Call
unfolding unlock
woken_upgrade s prio = check s.upgrader_waiting (
    if is_upgrader s.best_upgrader prio
    then check (is_write s.mode && s.inside == 1) (
        returns
          (record s { upgrader_waiting = false; best_upgrader = no_upgrader }, silent, entered))
    else check (not (is_no_upgrader s.best_upgrader)) (refuse (unlock s)))
