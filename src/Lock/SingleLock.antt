-- ===== src/Lock/SingleLock.antt =====
-- src/Lock/SingleLock.cpp: the lock of one object, with wait-die prevention of deadlocks. A call that
-- blocks in the semaphore is split there: `wait_for_lock` says what it waits for, and `finish_wait`
-- is the rest of the call, after the semaphore let it in. Transactions are told apart by their ids.
pub mod WaitDie
pub mod Upgrade
pub mod Held
mod Examples
use loxim_stats.Base.{
  ℕ, ◌+◌, ◌-◌, Bool, true, false, not, ◌&&◌, ◌||◌, List, [], ◌∷◌, ltb, ◌==◌, if◌then◌else◌,
}
use loxim_stats.Util.Semaphore.{
  Sem, Signal, Outcome, entered, waits, refused, Checked, returns, assert_failed, Call, new_sem,
  lock_read, lock_write, lock_upgrade, unlock,
}

-- TransactionManager/Transaction.h; the session and the time stamp play no part here.
pub record TransactionId : Type 0 where
  pub id : ℕ
  pub priority : ℕ

pub data AccessMode : Type 0 where
  read write : AccessMode

-- A set of transactions, with TransactionIDCmp: two are the same if their ids are.
abbrev pub TransactionIdSet : Type 0
TransactionIdSet = List TransactionId

abbrev pub find : TransactionId → TransactionIdSet → Bool
find t [] = false
find t (u ∷ us) = t.id == u.id || find t us

abbrev pub insert : TransactionId → TransactionIdSet → TransactionIdSet
insert t us = if find t us then us else t ∷ us

abbrev pub erase : TransactionId → TransactionIdSet → TransactionIdSet
erase t [] = []
erase t (u ∷ us) = if t.id == u.id then us else u ∷ erase t us

abbrev pub is_empty : TransactionIdSet → Bool
is_empty [] = true
is_empty (u ∷ us) = false

pub record SingleLock : Type 0 where
  pub current_read : TransactionIdSet
  pub current_write : TransactionIdSet
  pub inside : ℕ
  pub waiting : ℕ
  pub tid : TransactionId
  pub id : ℕ
  pub sem : Sem
  pub phid : ℕ

-- ErrTManager | EDeadlock.
abbrev pub deadlock_error : ℕ
deadlock_error = 0x2802400

abbrev pub sem_after : Call → Checked Sem
sem_after (returns (s, signal, outcome)) = returns s
sem_after assert_failed = assert_failed

abbrev pub first_call : AccessMode → Call
first_call read = lock_read new_sem
first_call write = lock_write new_sem

abbrev pub readers_of : AccessMode → TransactionId → TransactionIdSet
readers_of read t = t ∷ []
readers_of write t = []

abbrev pub writers_of : AccessMode → TransactionId → TransactionIdSet
writers_of read t = []
writers_of write t = t ∷ []

abbrev pub lock_with : TransactionId → AccessMode → ℕ → ℕ → Checked Sem → Checked SingleLock
lock_with t mode id phid assert_failed = assert_failed
lock_with t mode id phid (returns s) = returns (record {
  current_read = readers_of mode t;
  current_write = writers_of mode t;
  inside = 1;
  waiting = 0;
  tid = t;
  id = id;
  sem = s;
  phid = phid;
})

-- The constructor, for the transaction that asks first; its semaphore is new.
unfoldable pub new_lock : TransactionId → AccessMode → ℕ → ℕ → Checked SingleLock
new_lock t mode id phid = lock_with t mode id phid (sem_after (first_call mode))

-- A younger transaction, one of a greater number, dies.
pub prevent_deadlock : SingleLock → TransactionId → ℕ
prevent_deadlock l t = if ltb l.tid.priority t.priority then deadlock_error else 0

-- What a call does next, once it knows whether its transaction is inside.
pub data Plan : Type 0 where
  nothing : Plan
  die : ℕ → Plan
  enter_read enter_write enter_upgrade : Plan

abbrev pub unless_younger : ℕ → Plan → Plan
unless_younger error p = if error == 0 then p else die error

pub plan_read : SingleLock → TransactionId → Bool → Bool → Plan
plan_read l t is_current_read is_current_write =
    if is_current_read || is_current_write
    then nothing
    else if is_empty l.current_write
    then enter_read
    else unless_younger (prevent_deadlock l t) enter_read

pub plan_write : SingleLock → TransactionId → Bool → Bool → Plan
plan_write l t is_current_read is_current_write =
    if is_current_write
    then nothing
    else if is_current_read
    then unless_younger (prevent_deadlock l t) enter_upgrade
    else unless_younger (prevent_deadlock l t) enter_write

pub plan : SingleLock → TransactionId → AccessMode → Plan
unfolding plan_read plan_write
plan l t read = plan_read l t (find t l.current_read) (find t l.current_write)
plan l t write = plan_write l t (find t l.current_read) (find t l.current_write)

-- A call returns an error code, 0 for none, or waits in the semaphore.
pub data Waited : Type 0 where
  returned : ℕ → Waited
  blocked : Plan → Waited

-- The older of two transactions; the first on a tie.
abbrev pub older : TransactionId → TransactionId → TransactionId
older t u = if ltb u.priority t.priority then u else t

abbrev pub add_reader : AccessMode → TransactionId → TransactionIdSet → TransactionIdSet
add_reader read t us = insert t us
add_reader write t us = us

abbrev pub add_writer : AccessMode → TransactionId → TransactionIdSet → TransactionIdSet
add_writer read t us = us
add_writer write t us = insert t us

-- The part behind the semaphore: without an error the transaction is recorded.
unfoldable pub finish_wait : SingleLock → TransactionId → AccessMode → ℕ → SingleLock × Waited
finish_wait l t mode error =
    if error == 0
    then (
      record l {
        waiting = l.waiting - 1;
        current_read = add_reader mode t l.current_read;
        current_write = add_writer mode t l.current_write;
        tid = older l.tid t;
        inside = l.inside + 1;
      },
      returned 0,
    )
    else (l, returned error)

-- `errorCode = sem->lock_upgrade(…)` reads a bool, true for a lock that was upgraded, as an int.
abbrev pub upgrade_code : Outcome → ℕ
upgrade_code entered = 1
upgrade_code waits = 1
upgrade_code refused = 0

abbrev pub Answer : Type 0
Answer = Checked (SingleLock × Waited)

abbrev pub after_lock : SingleLock → TransactionId → AccessMode → Plan → Call → Answer
after_lock l t mode p (returns (s, signal, entered)) =
    returns (finish_wait (record l { sem = s }) t mode 0)
after_lock l t mode p (returns (s, signal, waits)) = returns (record l { sem = s }, blocked p)
after_lock l t mode p (returns (s, signal, refused)) = assert_failed
after_lock l t mode p assert_failed = assert_failed

abbrev pub after_upgrade : SingleLock → TransactionId → Call → Answer
after_upgrade l t (returns (s, signal, entered)) =
    returns (finish_wait (record l { sem = s }) t write (upgrade_code entered))
after_upgrade l t (returns (s, signal, waits)) =
    returns (record l { sem = s }, blocked enter_upgrade)
after_upgrade l t (returns (s, signal, refused)) =
    returns (finish_wait (record l { sem = s }) t write (upgrade_code refused))
after_upgrade l t assert_failed = assert_failed

pub carry_out : SingleLock → TransactionId → AccessMode → Plan → Answer
carry_out l t mode nothing = returns (record l { waiting = l.waiting - 1 }, returned 0)
carry_out l t mode (die error) = returns (finish_wait l t mode error)
carry_out l t mode enter_read = after_lock l t mode enter_read (lock_read l.sem)
carry_out l t mode enter_write = after_lock l t mode enter_write (lock_write l.sem)
carry_out l t mode enter_upgrade = after_upgrade l t (lock_upgrade l.sem t.priority)

unfoldable pub wait_for_lock : SingleLock → TransactionId → AccessMode → Answer
unfolding carry_out
wait_for_lock l t mode = carry_out (record l { waiting = l.waiting + 1 }) t mode (plan l t mode)

abbrev pub unlocked : SingleLock → Checked (Sem × Signal) → Checked (SingleLock × Bool)
unlocked l (returns (s, signal)) = returns (record l { sem = s }, l.inside == 0 && l.waiting == 0)
unlocked l assert_failed = assert_failed

-- The lock without the transaction, and whether the manager has to delete it.
unfoldable pub unlock_single : SingleLock → TransactionId → Checked (SingleLock × Bool)
unlock_single l t =
    unlocked
      (record l {
        inside = l.inside - 1;
        current_read = erase t l.current_read;
        current_write = erase t l.current_write;
      })
      (unlock l.sem)
