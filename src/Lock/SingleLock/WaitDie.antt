-- ===== src/Lock/SingleLock/WaitDie.antt =====
-- Wait-die: a transaction that waits for a write lock is at least as old as all that hold the lock.
use loxim_stats.Base.{
  ℕ, ◌+◌, ◌≤◌, ◌≡◌, Bool, true, [], ◌∷◌, ltb, arith, Bool-cases, inl, inr, subst, sym, ltb→ge,
}
use loxim_stats.Util.Semaphore.{
  entered, waits, refused, returns, assert_failed, lock_read, lock_write, lock_upgrade, Call,
}
use loxim_stats.Lock.SingleLock.{
  TransactionId, AccessMode, read, write, TransactionIdSet, find, erase, SingleLock, new_lock,
  prevent_deadlock, Plan, nothing, die, enter_read, enter_write, enter_upgrade, plan, returned,
  blocked, finish_wait, Answer, after_lock, after_upgrade, carry_out, wait_for_lock, unlock_single,
}

-- No transaction of the set is older than the priority says.
abbrev pub NoneOlder : ℕ → TransactionIdSet → Type 0
NoneOlder p [] = Unit {0}
NoneOlder p (u ∷ us) = (p ≤ u.priority) × NoneOlder p us

-- `tid` is as old as every holder.
pub record IsOldest (l : SingleLock) : Type 0 where
  pub readers : NoneOlder l.tid.priority l.current_read
  pub writers : NoneOlder l.tid.priority l.current_write

NoneOlder-le : (p q : ℕ) (us : TransactionIdSet) → p ≤ q → NoneOlder q us → NoneOlder p us
NoneOlder-le p q [] h n = tt
NoneOlder-le p q (u ∷ us) h n = (omega arith, NoneOlder-le p q us h n.1)

NoneOlder-erase :
    (p : ℕ) (t : TransactionId) (us : TransactionIdSet) → NoneOlder p us → NoneOlder p (erase t us)
NoneOlder-erase p t [] n = tt
NoneOlder-erase p t (u ∷ us) n = ground (arith, NoneOlder-erase p t us n.1)

pub new_lock-IsOldest :
    (t : TransactionId) (mode : AccessMode) (id phid : ℕ) (l : SingleLock)
    → new_lock t mode id phid ≡ returns l
    → IsOldest l
unfolding new_lock lock_read lock_write
new_lock-IsOldest t read id phid l e = ground arith
new_lock-IsOldest t write id phid l e = ground arith

pub finish_wait-IsOldest :
    (l : SingleLock) (t : TransactionId) (mode : AccessMode) (error : ℕ)
    → IsOldest l
    → IsOldest (finish_wait l t mode error).0
unfolding finish_wait
finish_wait-IsOldest l t read error v = ground (
  arith,
  NoneOlder-le t.priority l.tid.priority l.current_read,
  NoneOlder-le t.priority l.tid.priority l.current_write,
)
finish_wait-IsOldest l t write error v = ground (
  arith,
  NoneOlder-le t.priority l.tid.priority l.current_read,
  NoneOlder-le t.priority l.tid.priority l.current_write,
)

-- Whatever a call leaves behind.
abbrev pub LeavesOldest : Answer → Type 0
LeavesOldest (returns (l, r)) = IsOldest l
LeavesOldest assert_failed = Unit {0}

after_lock-LeavesOldest :
    (l : SingleLock) (t : TransactionId) (mode : AccessMode) (p : Plan) (c : Call)
    → IsOldest l
    → LeavesOldest (after_lock l t mode p c)
after_lock-LeavesOldest l t mode p (returns (s, signal, entered)) v =
    finish_wait-IsOldest (record l { sem = s }) t mode 0
      (record { readers = v.readers; writers = v.writers })
after_lock-LeavesOldest l t mode p (returns (s, signal, waits)) v = record {
  readers = v.readers;
  writers = v.writers;
}
after_lock-LeavesOldest l t mode p (returns (s, signal, refused)) v = tt
after_lock-LeavesOldest l t mode p assert_failed v = tt

after_upgrade-LeavesOldest :
    (l : SingleLock) (t : TransactionId) (c : Call)
    → IsOldest l
    → LeavesOldest (after_upgrade l t c)
after_upgrade-LeavesOldest l t (returns (s, signal, entered)) v =
    finish_wait-IsOldest (record l { sem = s }) t write 1
      (record { readers = v.readers; writers = v.writers })
after_upgrade-LeavesOldest l t (returns (s, signal, waits)) v = record {
  readers = v.readers;
  writers = v.writers;
}
after_upgrade-LeavesOldest l t (returns (s, signal, refused)) v =
    finish_wait-IsOldest (record l { sem = s }) t write 0
      (record { readers = v.readers; writers = v.writers })
after_upgrade-LeavesOldest l t assert_failed v = tt

carry_out-LeavesOldest :
    (l : SingleLock) (t : TransactionId) (mode : AccessMode) (p : Plan)
    → IsOldest l
    → LeavesOldest (carry_out l t mode p)
unfolding carry_out
carry_out-LeavesOldest l t mode nothing v = record { readers = v.readers; writers = v.writers }
carry_out-LeavesOldest l t mode (die error) v = finish_wait-IsOldest l t mode error v
carry_out-LeavesOldest l t mode enter_read v =
    after_lock-LeavesOldest l t mode enter_read (lock_read l.sem) v
carry_out-LeavesOldest l t mode enter_write v =
    after_lock-LeavesOldest l t mode enter_write (lock_write l.sem) v
carry_out-LeavesOldest l t mode enter_upgrade v =
    after_upgrade-LeavesOldest l t (lock_upgrade l.sem t.priority) v

-- The answers that do not wait.
abbrev IsBlocked : Answer → Type 0
IsBlocked (returns (l, blocked p)) = Unit {0}
IsBlocked (returns (l, returned e)) = ⊥
IsBlocked assert_failed = ⊥

younger_dies :
    (l : SingleLock) (t : TransactionId)
    → ltb l.tid.priority t.priority ≡ true
    → ¬ IsBlocked (wait_for_lock l t write)
unfolding wait_for_lock plan prevent_deadlock finish_wait
younger_dies l t lt = elim (Bool-cases (find t l.current_write)) [
  | inl inside ↦ rw inside (λ b. b)
  | inr outside ↦ elim (Bool-cases (find t l.current_read)) [
    | inl reader ↦ rw (outside, reader, lt) (λ b. b)
    | inr neither ↦ rw (outside, neither, lt) (λ b. b)
  ]
]

-- A request for writing that has to wait comes from a transaction that is no younger than any holder,
-- if the lock's `tid` is as old as its holders.
pub wait_for_lock-wait_die :
    (l l' : SingleLock) (t : TransactionId) (p : Plan)
    → IsOldest l
    → wait_for_lock l t write ≡ returns (l', blocked p)
    → NoneOlder t.priority l.current_read × NoneOlder t.priority l.current_write
wait_for_lock-wait_die l l' t p v e = elim (Bool-cases (ltb l.tid.priority t.priority)) [
  | inl lt ↦ absurd (younger_dies l t lt (subst IsBlocked (sym e) tt))
  | inr ge ↦ (
    NoneOlder-le t.priority l.tid.priority l.current_read (ltb→ge _ _ ge) v.readers,
    NoneOlder-le t.priority l.tid.priority l.current_write (ltb→ge _ _ ge) v.writers,
  )
]

-- Whatever the answer to a request, granted, refused or waiting, the `tid` of the lock that it leaves
-- is again as old as every holder.
pub wait_for_lock-LeavesOldest :
    (l : SingleLock) (t : TransactionId) (mode : AccessMode)
    → IsOldest l
    → LeavesOldest (wait_for_lock l t mode)
unfolding wait_for_lock
wait_for_lock-LeavesOldest l t mode v =
    carry_out-LeavesOldest (record l { waiting = l.waiting + 1 }) t mode (plan l t mode)
      (record { readers = v.readers; writers = v.writers })

-- Giving a lock back keeps `tid` as old as the holders that are left.
pub unlock_single-IsOldest :
    (l l' : SingleLock) (t : TransactionId) (deleted : Bool)
    → IsOldest l
    → unlock_single l t ≡ returns (l', deleted)
    → IsOldest l'
unfolding unlock_single
unlock_single-IsOldest l l' t deleted v e = ground (
  arith,
  NoneOlder-erase l.tid.priority t l.current_read,
  NoneOlder-erase l.tid.priority t l.current_write,
)
