-- ===== src/Lock/Manager/Loop.antt =====
-- A lock that a transaction holds is granted again, for ever in lockAll.
use loxim_stats.Base.{
  ℕ, zero, suc, ◌+◌, ◌≡◌, refl, ap, true, Option, none, some, List, ◌∷◌, ◌∙◌, ==_refl,
}
use loxim_stats.Util.Semaphore.{returns}
use loxim_stats.Lock.SingleLock.{TransactionId, AccessMode, returned}
use loxim_stats.Lock.SingleLock.Held.{holds, wait_for_lock-holds, new_lock-holds}
use loxim_stats.Lock.Manager.{
  LockManager, write_at, receive, after_new, after_wait, lock_known, lock_primitive, lock_all,
}

-- The object has a lock that the transaction holds.
record Held (m : LockManager) (phid : ℕ) (t : TransactionId) (mode : AccessMode) : Type 0 where
  index : ℕ
  known : m.map_of_locks phid ≡ some index
  held : holds (m.lock index) t mode ≡ true

known_lock :
    (get_physical_id : ℕ → Option ℕ) (m : LockManager) (lid phid : ℕ) (t : TransactionId)
    (mode : AccessMode) (i : Option ℕ)
    → get_physical_id lid ≡ some phid
    → m.map_of_locks phid ≡ i
    → lock_primitive get_physical_id m lid t mode ≡ lock_known m t mode phid i
unfolding lock_primitive
known_lock get_physical_id m lid phid t mode i p q =
    rw (p, lock_primitive) (ap (lock_known m t mode phid) q)

lock_primitive-Held :
    (get_physical_id : ℕ → Option ℕ) (m : LockManager) (lid phid : ℕ) (t : TransactionId)
    (mode : AccessMode)
    → get_physical_id lid ≡ some phid
    → Held m phid t mode
    → (m' : LockManager) × (lock_primitive get_physical_id m lid t mode ≡ returns (m', returned 0))
      × Held m' phid t mode
unfolding lock_known after_wait receive
lock_primitive-Held get_physical_id m lid phid t mode p h = (
  receive (record m { lock = write_at m.lock h.index (m.lock h.index) }) t h.index,
  known_lock get_physical_id m lid phid t mode (some h.index) p h.known
      ∙ ap (after_wait m t h.index) (wait_for_lock-holds (m.lock h.index) t mode h.held),
  record { index = h.index; known = h.known; held = rw (==_refl h.index) h.held },
)

lock_primitive-new :
    (get_physical_id : ℕ → Option ℕ) (m : LockManager) (lid phid : ℕ) (t : TransactionId)
    (mode : AccessMode)
    → get_physical_id lid ≡ some phid
    → m.map_of_locks phid ≡ none
    → (m' : LockManager) × (lock_primitive get_physical_id m lid t mode ≡ returns (m', returned 0))
      × Held m' phid t mode
unfolding lock_known after_new receive
lock_primitive-new get_physical_id m lid phid t mode p free =
    let (l, made, held) = new_lock-holds t mode m.single_lock_id phid in
    (
      receive
          (record m {
            map_of_locks = write_at m.map_of_locks phid (some m.single_lock_id);
            single_lock_id = m.single_lock_id + 1;
            lock = write_at m.lock m.single_lock_id l;
          })
          t m.single_lock_id,
      known_lock get_physical_id m lid phid t mode none p free ∙ ap (after_new m t phid) made,
      record {
        index = m.single_lock_id;
        known = rw (==_refl phid) refl;
        held = rw (==_refl m.single_lock_id) held;
      },
    )

lock_all_round :
    (fuel : ℕ) (get_physical_id : ℕ → Option ℕ) (m m' : LockManager) (lid : ℕ) (lids : List ℕ)
    (t : TransactionId) (mode : AccessMode)
    → lock_primitive get_physical_id m lid t mode ≡ returns (m', returned 0)
    → lock_all (suc fuel) get_physical_id m (lid ∷ lids) t mode
      ≡ lock_all fuel get_physical_id m' (lid ∷ lids) t mode
unfolding lock_all
lock_all_round fuel get_physical_id m m' lid lids t mode done = rw (done, lock_all) refl

lock_all-Held :
    (fuel : ℕ) (get_physical_id : ℕ → Option ℕ) (m : LockManager) (lid phid : ℕ) (lids : List ℕ)
    (t : TransactionId) (mode : AccessMode)
    → get_physical_id lid ≡ some phid
    → Held m phid t mode
    → lock_all fuel get_physical_id m (lid ∷ lids) t mode ≡ none
unfolding lock_all
lock_all-Held zero get_physical_id m lid phid lids t mode p h = refl
lock_all-Held (suc fuel) get_physical_id m lid phid lids t mode p h =
    let (m', done, h') = lock_primitive-Held get_physical_id m lid phid t mode p h in
    lock_all_round fuel get_physical_id m m' lid lids t mode done
    ∙ (lock_all-Held fuel get_physical_id m' lid phid lids t mode p h')

-- A call of lockAll whose first object exists and is locked by nobody never ends: no number of rounds
-- is enough.
pub lock_all_endless :
    (fuel : ℕ) (get_physical_id : ℕ → Option ℕ) (m : LockManager) (lid phid : ℕ) (lids : List ℕ)
    (t : TransactionId) (mode : AccessMode)
    → get_physical_id lid ≡ some phid
    → m.map_of_locks phid ≡ none
    → lock_all fuel get_physical_id m (lid ∷ lids) t mode ≡ none
unfolding lock_all
lock_all_endless zero get_physical_id m lid phid lids t mode p free = refl
lock_all_endless (suc fuel) get_physical_id m lid phid lids t mode p free =
    let (m', done, h) = lock_primitive-new get_physical_id m lid phid t mode p free in
    lock_all_round fuel get_physical_id m m' lid lids t mode done
    ∙ (lock_all-Held fuel get_physical_id m' lid phid lids t mode p h)
