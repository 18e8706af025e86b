-- ===== src/Lock/SingleLock/Upgrade.antt =====
-- What becomes of upgrades and of refused requests. `lock_upgrade` answers true for a lock that was
-- upgraded, and `wait_for_lock` reads 0 as success.
use loxim_stats.Base.{
  ℕ, ◌+◌, ◌-◌, ◌≤◌, ◌<◌, ◌≡◌, ◌≢◌, refl, Bool, true, false, [], ◌∷◌, arith, ◌∙◌, ◌||◌, ◌==◌, ltb,
  ltb→ge, Bool-cases, inl, inr,
}
use loxim_stats.Util.Semaphore.{
  Sem, LockMode, Upgrader, upgrader, no_upgrader, Checked, returns, assert_failed, Call, Signal,
  entered, waits, refused, lock_read, lock_write, lock_upgrade, unlock,
}
use loxim_stats.Lock.SingleLock.{
  TransactionId, TransactionIdSet, AccessMode, write, find, erase, SingleLock, prevent_deadlock,
  Plan, nothing, die, enter_read, enter_write, enter_upgrade, plan, returned, finish_wait,
  after_lock, after_upgrade, carry_out, unlocked, wait_for_lock, unlock_single,
}
use loxim_stats.Lock.SingleLock.WaitDie.{NoneOlder, IsOldest}

-- A sole reader that upgrades gets the write lock of the semaphore, and error code 1: it is not
-- recorded as the writer and stays counted as waiting.
pub wait_for_lock-upgrade_granted :
    (l : SingleLock) (t : TransactionId)
    → find t l.current_write ≡ false
    → find t l.current_read ≡ true
    → t.priority ≤ l.tid.priority
    → l.sem.mode ≡ LockMode.read
    → l.sem.inside ≡ 1
    → (s : Sem) × (wait_for_lock l t write
        ≡ returns (record l { waiting = l.waiting + 1; sem = s }, returned 1))
      × (s.mode ≡ LockMode.write)
unfolding wait_for_lock plan prevent_deadlock lock_upgrade finish_wait
wait_for_lock-upgrade_granted l t w r old m i = (
  record l.sem { mode = LockMode.write; upgrader_waiting = false; best_upgrader = no_upgrader },
  ground arith,
  ground arith,
)

-- A transaction of the set has the priority.
abbrev pub has_priority : ℕ → TransactionIdSet → Bool
has_priority p [] = false
has_priority p (u ∷ us) = u.priority == p || has_priority p us

NoneOlder-has_priority :
    (p b : ℕ) (us : TransactionIdSet) → NoneOlder p us → has_priority b us ≡ true → p ≤ b
NoneOlder-has_priority p b [] n h = absurd (ground arith)
NoneOlder-has_priority p b (u ∷ us) n h = ground (arith, NoneOlder-has_priority p b us n.1)

abbrev IsRefused : Call → Type 0
IsRefused (returns (s, signal, entered)) = ⊥
IsRefused (returns (s, signal, waits)) = ⊥
IsRefused (returns (s, signal, refused)) = Unit {0}
IsRefused assert_failed = ⊥

-- The semaphore refuses only upgrades of a priority above that of the upgrader that waits.
best_unrefused :
    (s : Sem) (best : Upgrader) (p : ℕ)
    → ((b : ℕ) → best ≡ upgrader b → p ≤ b)
    → ¬ IsRefused (lock_upgrade (record s { best_upgrader = best }) p)
unfolding lock_upgrade
best_unrefused s no_upgrader p old = ground arith
best_unrefused s (upgrader b) p old = ground (arith, old b refl)

after_upgrade-refused :
    (l l' : SingleLock) (t : TransactionId) (c : Call) (error : ℕ)
    → ¬ IsRefused c
    → after_upgrade l t c ≡ returns (l', returned error)
    → error ≢ 0
unfolding finish_wait
after_upgrade-refused l l' t (returns (s, signal, entered)) error kept e = ground arith
after_upgrade-refused l l' t (returns (s, signal, waits)) error kept e = ground arith
after_upgrade-refused l l' t (returns (s, signal, refused)) error kept e = absurd (kept tt)
after_upgrade-refused l l' t assert_failed error kept e = ground arith

-- Where `tid` is as old as every holder and the upgrader that waits in the semaphore has the priority of
-- one of the readers, a reader that asks for writing is never told at once that it has the lock: a
-- call that returns, returns an error code, that of a deadlock or the true of lock_upgrade.
pub wait_for_lock-upgrade_unrefused :
    (l l' : SingleLock) (t : TransactionId) (error : ℕ)
    → IsOldest l
    → ((b : ℕ) → l.sem.best_upgrader ≡ upgrader b → has_priority b l.current_read ≡ true)
    → find t l.current_write ≡ false
    → find t l.current_read ≡ true
    → wait_for_lock l t write ≡ returns (l', returned error)
    → error ≢ 0
unfolding wait_for_lock plan prevent_deadlock carry_out finish_wait
wait_for_lock-upgrade_unrefused l l' t error v reads w r e =
    elim (Bool-cases (ltb l.tid.priority t.priority)) [
      | inl lt ↦ ground arith
      | inr ge ↦
          after_upgrade-refused (record l { waiting = l.waiting + 1 }) l' t
            (lock_upgrade l.sem t.priority) error
            (best_unrefused l.sem l.sem.best_upgrader t.priority (λ b h. omega (
              arith,
              ltb→ge _ _ ge,
              NoneOlder-has_priority l.tid.priority b l.current_read v.readers (reads b h),
            )))
            (ground arith)
    ]

finish_wait_waiting :
    (l l' : SingleLock) (t : TransactionId) (mode : AccessMode) (code error : ℕ)
    → finish_wait l t mode code ≡ (l', returned error)
    → error ≢ 0
    → l'.waiting ≡ l.waiting
unfolding finish_wait
finish_wait_waiting l l' t mode code error e bad = ground arith

after_lock_waiting :
    (l l' : SingleLock) (t : TransactionId) (mode : AccessMode) (p : Plan) (c : Call) (error : ℕ)
    → after_lock l t mode p c ≡ returns (l', returned error)
    → error ≢ 0
    → l'.waiting ≡ l.waiting
unfolding finish_wait
after_lock_waiting l l' t mode p (returns (s, signal, entered)) error e bad = ground arith
after_lock_waiting l l' t mode p (returns (s, signal, waits)) error e bad = ground arith
after_lock_waiting l l' t mode p (returns (s, signal, refused)) error e bad = ground arith
after_lock_waiting l l' t mode p assert_failed error e bad = ground arith

after_upgrade_waiting :
    (l l' : SingleLock) (t : TransactionId) (c : Call) (error : ℕ)
    → after_upgrade l t c ≡ returns (l', returned error)
    → error ≢ 0
    → l'.waiting ≡ l.waiting
unfolding finish_wait
after_upgrade_waiting l l' t (returns (s, signal, entered)) error e bad = ground arith
after_upgrade_waiting l l' t (returns (s, signal, waits)) error e bad = ground arith
after_upgrade_waiting l l' t (returns (s, signal, refused)) error e bad = ground arith
after_upgrade_waiting l l' t assert_failed error e bad = ground arith

carry_out_waiting :
    (l l' : SingleLock) (t : TransactionId) (mode : AccessMode) (p : Plan) (error : ℕ)
    → carry_out l t mode p ≡ returns (l', returned error)
    → error ≢ 0
    → l'.waiting ≡ l.waiting
unfolding carry_out finish_wait
carry_out_waiting l l' t mode nothing error e bad = ground arith
carry_out_waiting l l' t mode (die code) error e bad = ground arith
carry_out_waiting l l' t mode enter_read error e bad =
    after_lock_waiting l l' t mode enter_read (lock_read l.sem) error e bad
carry_out_waiting l l' t mode enter_write error e bad =
    after_lock_waiting l l' t mode enter_write (lock_write l.sem) error e bad
carry_out_waiting l l' t mode enter_upgrade error e bad =
    after_upgrade_waiting l l' t (lock_upgrade l.sem t.priority) error e bad

unlocked_waiting :
    (l l' : SingleLock) (r : Checked (Sem × Signal)) (deleted : Bool)
    → 0 < l.waiting
    → unlocked l r ≡ returns (l', deleted)
    → (l'.waiting ≡ l.waiting) × (deleted ≡ false)
unlocked_waiting l l' (returns (s, signal)) deleted h e = ground arith
unlocked_waiting l l' assert_failed deleted h e = ground arith

-- A request that ends with an error stays counted as waiting, and a release of the lock that it leaves
-- keeps the count and never asks for the lock to be deleted.
pub wait_for_lock-unlock_leak :
    (l l' l2 : SingleLock) (t u : TransactionId) (mode : AccessMode) (error : ℕ) (deleted : Bool)
    → wait_for_lock l t mode ≡ returns (l', returned error)
    → error ≢ 0
    → unlock_single l' u ≡ returns (l2, deleted)
    → (l'.waiting ≡ l.waiting + 1) × (l2.waiting ≡ l.waiting + 1) × (deleted ≡ false)
unfolding wait_for_lock unlock_single
wait_for_lock-unlock_leak l l' l2 t u mode error deleted e bad done = (kept, kept2 ∙ kept, gone)
  where
    kept : l'.waiting ≡ l.waiting + 1
    kept =
        carry_out_waiting (record l { waiting = l.waiting + 1 }) l' t mode (plan l t mode) error e
          bad

    left : SingleLock
    left = record l' {
      inside = l'.inside - 1;
      current_read = erase u l'.current_read;
      current_write = erase u l'.current_write;
    }

    both : (l2.waiting ≡ l'.waiting) × (deleted ≡ false)
    both = unlocked_waiting left l2 (unlock l'.sem) deleted (omega (arith, kept)) done

    kept2 : l2.waiting ≡ l'.waiting
    kept2 = both.0

    gone : deleted ≡ false
    gone = both.1
