-- ===== src/Lock/SingleLock/Held.antt =====
-- Requests for a lock that the transaction holds already.
use loxim_stats.Base.{ℕ, ◌≡◌, refl, Bool, true, ◌||◌, arith, ==_refl}
use loxim_stats.Util.Semaphore.{returns, new_sem, lock_read, lock_write}
use loxim_stats.Lock.SingleLock.{
  TransactionId, AccessMode, read, write, find, SingleLock, new_lock, plan, returned, wait_for_lock,
}

-- The transaction has nothing more to ask of the lock.
abbrev pub holds : SingleLock → TransactionId → AccessMode → Bool
holds l t read = find t l.current_read || find t l.current_write
holds l t write = find t l.current_write

-- A lock that is asked for again is granted and stays as it is.
pub wait_for_lock-holds :
    (l : SingleLock) (t : TransactionId) (mode : AccessMode)
    → holds l t mode ≡ true
    → wait_for_lock l t mode ≡ returns (l, returned 0)
unfolding wait_for_lock plan
wait_for_lock-holds l t read h = rw h (ground arith)
wait_for_lock-holds l t write h = rw h (ground arith)

-- A new lock is held by the transaction that made it.
pub new_lock-holds :
    (t : TransactionId) (mode : AccessMode) (id phid : ℕ)
    → (l : SingleLock) × (new_lock t mode id phid ≡ returns l) × (holds l t mode ≡ true)
unfolding new_lock lock_read lock_write new_sem
new_lock-holds t read id phid = (_, refl, rw (==_refl t.id) refl)
new_lock-holds t write id phid = (_, refl, rw (==_refl t.id) refl)
