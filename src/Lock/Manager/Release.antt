-- ===== src/Lock/Manager/Release.antt =====
-- unlockAll: every lock of the transaction is given back once.
use loxim_stats.Base.{
  ℕ, ◌≡◌, refl, ap, Bool, true, false, Option, none, some, [], ◌∷◌, ◌==◌, Bool-cases, inl, inr, ◌∙◌,
  sym, subst, ==_refl, ==→eq, ◌⊎◌,
}
use loxim_stats.Util.Semaphore.{Checked, returns, assert_failed}
use loxim_stats.Lock.SingleLock.{TransactionId, SingleLock, unlock_single}
use loxim_stats.Lock.Manager.{
  SingleLockSet, mem, LockManager, write_at, forget, unlock_each, drop_locks, unlock_all,
}

-- No lock is listed twice.
abbrev pub IsSetOfLocks : SingleLockSet → Type 0
IsSetOfLocks [] = Unit {0}
IsSetOfLocks (i ∷ is) = (mem i is ≡ false) × IsSetOfLocks is

Checked-cases : {A : Type 0} (c : Checked A) → ((a : A) × (c ≡ returns a)) ⊎ (c ≡ assert_failed)
Checked-cases (returns a) = inl (a, refl)
Checked-cases assert_failed = inr refl

unlock_each_first :
    (m : LockManager) (t : TransactionId) (i : ℕ) (is : SingleLockSet) (l : SingleLock) (d : Bool)
    → unlock_single (m.lock i) t ≡ returns (l, d)
    → unlock_each m t (i ∷ is) ≡ unlock_each (forget m i l d) t is
unfolding unlock_each
unlock_each_first m t i is l d e = rw (e, unlock_each) refl

unlock_each_fails :
    (m : LockManager) (t : TransactionId) (i : ℕ) (is : SingleLockSet)
    → unlock_single (m.lock i) t ≡ assert_failed
    → unlock_each m t (i ∷ is) ≡ assert_failed
unfolding unlock_each
unlock_each_fails m t i is e = rw (e, unlock_each) refl

forget_lock : (m : LockManager) (i : ℕ) (l : SingleLock) (d : Bool) → (forget m i l d).lock i ≡ l
forget_lock m i l true = rw (==_refl i) refl
forget_lock m i l false = rw (==_refl i) refl

forget_other :
    (m : LockManager) (i j : ℕ) (l : SingleLock) (d : Bool)
    → (j == i) ≡ false
    → (forget m i l d).lock j ≡ m.lock j
forget_other m i j l true ne = rw ne refl
forget_other m i j l false ne = rw ne refl

-- What became of a lock: it was given back by the transaction, or it is as before.
abbrev pub ReleasedIf : Bool → LockManager → LockManager → TransactionId → ℕ → Type 0
ReleasedIf true m m' t j = (d : Bool) × (unlock_single (m.lock j) t ≡ returns (m'.lock j, d))
ReleasedIf false m m' t j = m'.lock j ≡ m.lock j

relock_lem :
    (b : Bool) (m n m' : LockManager) (t : TransactionId) (j : ℕ)
    → n.lock j ≡ m.lock j
    → ReleasedIf b n m' t j
    → ReleasedIf b m m' t j
relock_lem true m n m' t j p (d, e) = (d, ap (λ l. unlock_single l t) (sym p) ∙ e)
relock_lem false m n m' t j p r = r ∙ p

first_released :
    (m m' : LockManager) (t : TransactionId) (i : ℕ) (is : SingleLockSet) (l : SingleLock)
    (d : Bool)
    → mem i is ≡ false
    → unlock_single (m.lock i) t ≡ returns (l, d)
    → ReleasedIf (mem i is) (forget m i l d) m' t i
    → ReleasedIf (mem i (i ∷ is)) m m' t i
first_released m m' t i is l d new e r =
    rw (==_refl i) (d, e ∙ ap (λ x. returns (x, d)) (sym (kept ∙ forget_lock m i l d)))
  where
    kept : m'.lock i ≡ (forget m i l d).lock i
    kept = subst (λ b. ReleasedIf b (forget m i l d) m' t i) new r

ReleasedIf-cons :
    (m m' : LockManager) (t : TransactionId) (i : ℕ) (is : SingleLockSet) (l : SingleLock)
    (d : Bool) (j : ℕ)
    → mem i is ≡ false
    → unlock_single (m.lock i) t ≡ returns (l, d)
    → ReleasedIf (mem j is) (forget m i l d) m' t j
    → ReleasedIf (mem j (i ∷ is)) m m' t j
ReleasedIf-cons m m' t i is l d j new e r = elim (Bool-cases (j == i)) [
  | inl same ↦
      let p = ==→eq j i same in
      subst (λ n. ReleasedIf (mem n (i ∷ is)) m m' t n) (sym p)
        (first_released m m' t i is l d new e
          (subst (λ n. ReleasedIf (mem n is) (forget m i l d) m' t n) p r))
  | inr other ↦
      rw other (relock_lem (mem j is) m (forget m i l d) m' t j (forget_other m i j l d other) r)
]

retable_lem :
    (b : Bool) (m n : LockManager) (t : TransactionId) (j : ℕ) (u : ℕ → Option SingleLockSet)
    → ReleasedIf b m n t j
    → ReleasedIf b m (record n { transaction_locks = u }) t j
retable_lem true m n t j u r = r
retable_lem false m n t j u r = r

abbrev IsReturned : {A : Type 0} → Checked A → Type 0
IsReturned (returns a) = Unit {0}
IsReturned assert_failed = ⊥

returned_inj : (m m' : LockManager) → returns m ≡ returns m' → m ≡ m'
returned_inj m m' e = ap (λ c. elim c [ returns a ↦ a | assert_failed ↦ m ]) e

unlock_each-ReleasedIf :
    (m m' : LockManager) (t : TransactionId) (is : SingleLockSet) (j : ℕ)
    → IsSetOfLocks is
    → unlock_each m t is ≡ returns m'
    → ReleasedIf (mem j is) m m' t j
unfolding unlock_each
unlock_each-ReleasedIf m m' t [] j v done = ap (λ n. n.lock j) (sym (returned_inj m m' done))
unlock_each-ReleasedIf m m' t (i ∷ is) j v done =
    elim (Checked-cases (unlock_single (m.lock i) t)) [
      | inl ((l, d), e) ↦ ReleasedIf-cons m m' t i is l d j v.0 e (
          unlock_each-ReleasedIf (forget m i l d) m' t is j v.1
            (sym (unlock_each_first m t i is l d e) ∙ done))
      | inr e ↦ absurd (subst IsReturned (sym done ∙ unlock_each_fails m t i is e) tt)
    ]

-- When unlockAll succeeds for a transaction with a set of locks, each lock of the set is as one call of
-- SingleLock::unlock by the transaction leaves it, every other lock is as before, and the
-- transaction has no set any more.
pub unlock_all-ReleasedIf :
    (m m' : LockManager) (t : TransactionId) (is : SingleLockSet)
    → m.transaction_locks t.id ≡ some is
    → IsSetOfLocks is
    → unlock_all m t ≡ returns m'
    → (m'.transaction_locks t.id ≡ none) × ((j : ℕ) → ReleasedIf (mem j is) m m' t j)
unfolding unlock_all
unlock_all-ReleasedIf m m' t is own v done = elim (Checked-cases (unlock_each m t is)) [
  | inl (n, e) ↦
      let end =
        returned_inj (record n { transaction_locks = write_at n.transaction_locks t.id none }) m'
          (sym (opened ∙ ap (drop_locks t) e) ∙ done) in
      (
        ap (λ k. k.transaction_locks t.id) (sym end) ∙ rw (==_refl t.id) refl,
        λ j.
            subst (λ k. ReleasedIf (mem j is) m k t j) end
              (retable_lem (mem j is) m n t j (write_at n.transaction_locks t.id none)
                (unlock_each-ReleasedIf m n t is j v e)),
      )
  | inr e ↦ absurd (subst IsReturned (sym done ∙ (opened ∙ ap (drop_locks t) e)) tt)
]
  where
    opened : unlock_all m t ≡ drop_locks t (unlock_each m t is)
    opened = rw (own, unlock_all) refl
