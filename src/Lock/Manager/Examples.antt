-- ===== src/Lock/Manager/Examples.antt =====
-- A manager without locks, and a transaction that asks for the first of two objects.
use loxim_stats.Base.{ℕ, ◌+◌, ◌≡◌, refl, Option, none, some, [], ◌∷◌}
use loxim_stats.Util.Semaphore.{LockMode, returns, new_sem, unlock, lock_write}
use loxim_stats.Lock.SingleLock.{
  TransactionId, write, SingleLock, returned, new_lock, unlock_single,
}
use loxim_stats.Lock.Manager.{
  LockManager, write_at, receive, lock_primitive, mem, unlock_each, unlock_all, lock_known,
  after_new, lock_all,
}
use loxim_stats.Lock.Manager.Release.{ReleasedIf, unlock_all-ReleasedIf}
use loxim_stats.Lock.Manager.Loop.{lock_all_endless}
use loxim_stats.Lock.Manager.Received.{IsReceived, lock_primitive-IsReceived}

abbrev physical : ℕ → Option ℕ
physical lid = some (lid + 100)

abbrev asker : TransactionId
asker = record { id = 4; priority = 2 }

abbrev asked_lock : SingleLock
asked_lock = record {
  current_read = [];
  current_write = asker ∷ [];
  inside = 1;
  waiting = 0;
  tid = asker;
  id = 0;
  sem = record new_sem { mode = LockMode.write; inside = 1 };
  phid = 101;
}

abbrev empty_manager : LockManager
empty_manager = record {
  map_of_locks = λ phid. none;
  transaction_locks = λ id. none;
  single_lock_id = 0;
  lock = λ i. asked_lock;
}

lock_all_endless_example : lock_all 50 physical empty_manager (1 ∷ 2 ∷ []) asker write ≡ none
lock_all_endless_example =
    lock_all_endless 50 physical empty_manager 1 101 (2 ∷ []) asker write refl refl

abbrev locked : LockManager
locked = record empty_manager {
  map_of_locks = write_at empty_manager.map_of_locks 101 (some 0);
  transaction_locks = write_at empty_manager.transaction_locks 4 (some (0 ∷ []));
  single_lock_id = 1;
  lock = write_at empty_manager.lock 0 asked_lock;
}

grants : lock_primitive physical empty_manager 1 asker write ≡ returns (locked, returned 0)
unfolding lock_primitive lock_known after_new receive new_lock lock_write new_sem
grants = refl

lock_primitive-IsReceived_example : IsReceived locked 101 asker
lock_primitive-IsReceived_example =
    lock_primitive-IsReceived physical empty_manager locked 1 101 asker write refl grants

abbrev free_lock : SingleLock
free_lock = record asked_lock { current_write = []; inside = 0; sem = new_sem }

abbrev released : LockManager
released = record locked {
  map_of_locks = write_at locked.map_of_locks 101 none;
  transaction_locks = write_at locked.transaction_locks 4 none;
  lock = write_at locked.lock 0 free_lock;
}

releases : unlock_all locked asker ≡ returns released
unfolding unlock_all unlock_each unlock_single unlock new_sem
releases = refl

unlock_all-ReleasedIf_example :
    (released.transaction_locks 4 ≡ none)
    × ((j : ℕ) → ReleasedIf (mem j (0 ∷ [])) locked released asker j)
unlock_all-ReleasedIf_example =
    unlock_all-ReleasedIf locked released asker (0 ∷ []) refl (refl, tt) releases
