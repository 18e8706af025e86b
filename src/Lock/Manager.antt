-- ===== src/Lock/Manager.antt =====
-- src/Lock/Lock.cpp: LockManager, which keeps the lock of each physical identifier and the locks of
-- each transaction. A SingleLock is named by its id, which the set of a transaction compares; the
-- locks themselves are a function from ids. The physical identifier of a logical one, which
-- the store answers, is an argument.
pub mod Loop
pub mod Received
pub mod Release
mod Examples
use loxim_stats.Base.{
  ℕ, zero, suc, ◌+◌, Bool, true, false, ◌||◌, Option, none, some, List, [], ◌∷◌, ◌==◌,
  if◌then◌else◌,
}
use loxim_stats.Util.Semaphore.{Checked, returns, assert_failed}
use loxim_stats.Lock.SingleLock.{
  TransactionId, AccessMode, SingleLock, new_lock, Waited, returned, blocked, Answer, wait_for_lock,
  unlock_single,
}

-- A set of locks, which SingleLockCmp compares by id.
abbrev pub SingleLockSet : Type 0
SingleLockSet = List ℕ

abbrev pub mem : ℕ → SingleLockSet → Bool
mem i [] = false
mem i (j ∷ js) = i == j || mem i js

abbrev pub insert_lock : ℕ → SingleLockSet → SingleLockSet
insert_lock i js = if mem i js then js else i ∷ js

pub record LockManager : Type 0 where
  pub map_of_locks : ℕ → Option ℕ
  pub transaction_locks : ℕ → Option SingleLockSet
  pub single_lock_id : ℕ
  pub lock : ℕ → SingleLock

abbrev pub write_at {ℓ} : {A : Type ℓ} → (ℕ → A) → ℕ → A → ℕ → A
write_at f i a = λ j. if j == i then a else f j

-- ENoFile.
abbrev pub no_file_error : ℕ
no_file_error = 0x100

abbrev pub set_of : Option SingleLockSet → SingleLockSet
set_of none = []
set_of (some js) = js

-- The end of lock_primitive: the lock is added to those of the transaction, whose set may be new.
unfoldable pub receive : LockManager → TransactionId → ℕ → LockManager
receive m t i = record m {
  transaction_locks =
      write_at m.transaction_locks t.id (some (insert_lock i (set_of (m.transaction_locks t.id))));
}

-- The state and the answer; a call that waits has not added the lock yet.
abbrev pub ManagerAnswer : Type 0
ManagerAnswer = Checked (LockManager × Waited)

unfoldable pub after_new : LockManager → TransactionId → ℕ → Checked SingleLock → ManagerAnswer
unfolding receive
after_new m t phid assert_failed = assert_failed
after_new m t phid (returns l) = returns (
  receive
      (record m {
        map_of_locks = write_at m.map_of_locks phid (some m.single_lock_id);
        single_lock_id = m.single_lock_id + 1;
        lock = write_at m.lock m.single_lock_id l;
      })
      t m.single_lock_id,
  returned 0,
)

unfoldable pub after_wait : LockManager → TransactionId → ℕ → Answer → ManagerAnswer
unfolding receive
after_wait m t i assert_failed = assert_failed
after_wait m t i (returns (l, blocked p)) =
    returns (record m { lock = write_at m.lock i l }, blocked p)
after_wait m t i (returns (l, returned zero)) =
    returns (receive (record m { lock = write_at m.lock i l }) t i, returned 0)
after_wait m t i (returns (l, returned (suc e))) =
    returns (record m { lock = write_at m.lock i l }, returned (suc e))

unfoldable pub lock_known : LockManager → TransactionId → AccessMode → ℕ → Option ℕ → ManagerAnswer
unfolding after_new after_wait
lock_known m t mode phid none = after_new m t phid (new_lock t mode m.single_lock_id phid)
lock_known m t mode phid (some i) = after_wait m t i (wait_for_lock (m.lock i) t mode)

unfoldable pub lock_primitive :
    (ℕ → Option ℕ) → LockManager → ℕ → TransactionId → AccessMode → ManagerAnswer
unfolding lock_known
lock_primitive get_physical_id m lid t mode = elim (get_physical_id lid) [
  | none ↦ returns (m, returned no_file_error)
  | some phid ↦ lock_known m t mode phid (m.map_of_locks phid)
]

-- lockAll: `pos` stays at the first element. `none`: the fuel, one unit for each round, ran out.
pub lock_all :
    ℕ → (ℕ → Option ℕ) → LockManager → List ℕ → TransactionId → AccessMode → Option ManagerAnswer
unfolding lock_primitive
lock_all fuel get_physical_id m [] t mode = some (returns (m, returned 0))
lock_all zero get_physical_id m (lid ∷ lids) t mode = none
lock_all (suc fuel) get_physical_id m (lid ∷ lids) t mode =
    elim (lock_primitive get_physical_id m lid t mode) [
      | assert_failed ↦ some assert_failed
      | returns (m', blocked p) ↦ some (returns (m', blocked p))
      | returns (m', returned zero) ↦ lock_all fuel get_physical_id m' (lid ∷ lids) t mode
      | returns (m', returned (suc e)) ↦ some (returns (m', returned (suc e)))
    ]

-- One round of unlockAll: a lock that nobody needs any more leaves the map.
abbrev pub forget : LockManager → ℕ → SingleLock → Bool → LockManager
forget m i l true = record m {
  map_of_locks = write_at m.map_of_locks l.phid none;
  lock = write_at m.lock i l;
}
forget m i l false = record m { lock = write_at m.lock i l }

pub unlock_each : LockManager → TransactionId → SingleLockSet → Checked LockManager
unlock_each m t [] = returns m
unlock_each m t (i ∷ is) = elim (unlock_single (m.lock i) t) [
  | assert_failed ↦ assert_failed
  | returns (l, deleted) ↦ unlock_each (forget m i l deleted) t is
]

abbrev pub drop_locks : TransactionId → Checked LockManager → Checked LockManager
drop_locks t assert_failed = assert_failed
drop_locks t (returns m) =
    returns (record m { transaction_locks = write_at m.transaction_locks t.id none })

-- A lock that is deleted keeps its last state here, and nothing refers to it.
pub unlock_all : LockManager → TransactionId → Checked LockManager
unfolding unlock_each
unlock_all m t = elim (m.transaction_locks t.id) [
  | none ↦ returns m
  | some is ↦ drop_locks t (unlock_each m t is)
]
