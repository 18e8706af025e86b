-- ===== src/Lock/Manager/Received.antt =====
-- What a transaction that was granted a lock leaves in the tables of the manager.
use loxim_stats.Base.{
  ℕ, zero, suc, ◌+◌, ◌≡◌, refl, true, Option, none, some, Bool-cases, inl, inr, ◌∙◌, sym, subst,
  ==_refl,
}
use loxim_stats.Util.Semaphore.{Checked, returns, assert_failed}
use loxim_stats.Lock.SingleLock.{
  TransactionId, AccessMode, SingleLock, new_lock, returned, blocked, Answer, wait_for_lock,
}
use loxim_stats.Lock.Manager.{
  SingleLockSet, mem, insert_lock, LockManager, write_at, set_of, receive, ManagerAnswer, after_new,
  after_wait, lock_known, lock_primitive,
}

-- The object has a lock, and the transaction has it among its locks.
abbrev pub IsReceived : LockManager → ℕ → TransactionId → Type 0
IsReceived m phid t =
    (i : ℕ) × (m.map_of_locks phid ≡ some i) × (mem i (set_of (m.transaction_locks t.id)) ≡ true)

mem-insert_lock : (i : ℕ) (js : SingleLockSet) → mem i (insert_lock i js) ≡ true
mem-insert_lock i js = elim (Bool-cases (mem i js)) [
  | inl in_it ↦ rw in_it in_it
  | inr out ↦ rw (out, ==_refl i) refl
]

receive-IsReceived :
    (m : LockManager) (phid i : ℕ) (t : TransactionId)
    → m.map_of_locks phid ≡ some i
    → IsReceived (receive m t i) phid t
unfolding receive
receive-IsReceived m phid i t known =
    (i, known, rw (==_refl t.id) (mem-insert_lock i (set_of (m.transaction_locks t.id))))

-- What a granted request leaves; nothing is said of others.
abbrev LeavesReceived : ManagerAnswer → ℕ → TransactionId → Type 0
LeavesReceived (returns (m, returned zero)) phid t = IsReceived m phid t
LeavesReceived (returns (m, returned (suc e))) phid t = Unit {0}
LeavesReceived (returns (m, blocked p)) phid t = Unit {0}
LeavesReceived assert_failed phid t = Unit {0}

after_new-LeavesReceived :
    (m : LockManager) (t : TransactionId) (phid : ℕ) (c : Checked SingleLock)
    → LeavesReceived (after_new m t phid c) phid t
unfolding after_new
after_new-LeavesReceived m t phid assert_failed = tt
after_new-LeavesReceived m t phid (returns l) =
    receive-IsReceived
      (record m {
        map_of_locks = write_at m.map_of_locks phid (some m.single_lock_id);
        single_lock_id = m.single_lock_id + 1;
        lock = write_at m.lock m.single_lock_id l;
      })
      phid m.single_lock_id t (rw (==_refl phid) refl)

after_wait-LeavesReceived :
    (m : LockManager) (t : TransactionId) (phid i : ℕ) (a : Answer)
    → m.map_of_locks phid ≡ some i
    → LeavesReceived (after_wait m t i a) phid t
unfolding after_wait
after_wait-LeavesReceived m t phid i assert_failed known = tt
after_wait-LeavesReceived m t phid i (returns (l, blocked p)) known = tt
after_wait-LeavesReceived m t phid i (returns (l, returned zero)) known =
    receive-IsReceived (record m { lock = write_at m.lock i l }) phid i t known
after_wait-LeavesReceived m t phid i (returns (l, returned (suc e))) known = tt

lock_known-LeavesReceived :
    (m : LockManager) (t : TransactionId) (mode : AccessMode) (phid : ℕ) (i : Option ℕ)
    → m.map_of_locks phid ≡ i
    → LeavesReceived (lock_known m t mode phid i) phid t
unfolding lock_known
lock_known-LeavesReceived m t mode phid none known =
    after_new-LeavesReceived m t phid (new_lock t mode m.single_lock_id phid)
lock_known-LeavesReceived m t mode phid (some i) known =
    after_wait-LeavesReceived m t phid i (wait_for_lock (m.lock i) t mode) known

-- When a request for an object that exists is granted, the object has a lock in the map, a new one or the
-- one that it had, and the transaction has it among its locks.
pub lock_primitive-IsReceived :
    (get_physical_id : ℕ → Option ℕ) (m m' : LockManager) (lid phid : ℕ) (t : TransactionId)
    (mode : AccessMode)
    → get_physical_id lid ≡ some phid
    → lock_primitive get_physical_id m lid t mode ≡ returns (m', returned 0)
    → IsReceived m' phid t
unfolding lock_primitive
lock_primitive-IsReceived get_physical_id m m' lid phid t mode p done =
    subst (λ a. LeavesReceived a phid t) (sym opened ∙ done)
      (lock_known-LeavesReceived m t mode phid (m.map_of_locks phid) refl)
  where
    opened :
        lock_primitive get_physical_id m lid t mode ≡ lock_known m t mode phid (m.map_of_locks phid)
    opened = rw (p, lock_primitive) refl
