-- ===== src/Lock/SingleLock/Examples.antt =====
-- Requests for the lock of one object, evaluated on concrete transactions.
use loxim_stats.Base.{ℕ, ap, subst, ◌+◌, ◌≡◌, ◌≢◌, refl, true, false, [], ◌∷◌, arith}
use loxim_stats.Util.Semaphore.{
  Sem, LockMode, upgrader, no_upgrader, returns, new_sem, lock_write, unlock,
}
use loxim_stats.Lock.SingleLock.{
  TransactionId, read, write, SingleLock, deadlock_error, enter_write, returned, blocked, plan,
  prevent_deadlock, finish_wait, wait_for_lock, unlock_single,
}
use loxim_stats.Lock.SingleLock.WaitDie.{
  NoneOlder, IsOldest, LeavesOldest, wait_for_lock-wait_die, wait_for_lock-LeavesOldest,
}
use loxim_stats.Lock.SingleLock.Upgrade.{
  has_priority, wait_for_lock-upgrade_granted, wait_for_lock-upgrade_unrefused,
  wait_for_lock-unlock_leak,
}

abbrev eldest : TransactionId
eldest = record { id = 1; priority = 3 }

abbrev middle : TransactionId
middle = record { id = 2; priority = 5 }

abbrev youngest : TransactionId
youngest = record { id = 3; priority = 8 }

abbrev read_by_two : SingleLock
read_by_two = record {
  current_read = youngest ∷ middle ∷ [];
  current_write = [];
  inside = 2;
  waiting = 0;
  tid = middle;
  id = 0;
  sem = record new_sem { mode = LockMode.read; inside = 2 };
  phid = 7;
}

read_by_two-IsOldest : IsOldest read_by_two
read_by_two-IsOldest = record { readers = ground arith; writers = tt }

abbrev eldest_waits : SingleLock
eldest_waits = record read_by_two {
  waiting = 1;
  sem = record read_by_two.sem { writers_waiting = 1 };
}

answers_write : wait_for_lock read_by_two eldest write ≡ returns (eldest_waits, blocked enter_write)
unfolding wait_for_lock plan prevent_deadlock lock_write new_sem finish_wait
answers_write = refl

wait_for_lock-wait_die_example : NoneOlder 3 (youngest ∷ middle ∷ []) × NoneOlder 3 []
wait_for_lock-wait_die_example =
    wait_for_lock-wait_die read_by_two eldest_waits eldest enter_write read_by_two-IsOldest
      answers_write

wait_for_lock-LeavesOldest_example : LeavesOldest (wait_for_lock read_by_two eldest read)
wait_for_lock-LeavesOldest_example =
    wait_for_lock-LeavesOldest read_by_two eldest read read_by_two-IsOldest

abbrev read_by_one : SingleLock
read_by_one = record read_by_two {
  current_read = youngest ∷ [];
  inside = 1;
  sem = record read_by_two.sem { inside = 1 };
}

gives_back : unlock_single read_by_two middle ≡ returns (read_by_one, false)
unfolding unlock_single new_sem unlock
gives_back = refl

abbrev read_by_youngest : SingleLock
read_by_youngest = record read_by_one { tid = youngest }

wait_for_lock-upgrade_granted_example :
    (s : Sem) × (wait_for_lock read_by_youngest youngest write
      ≡ returns (record read_by_youngest { waiting = 1; sem = s }, returned 1))
    × (s.mode ≡ LockMode.write)
wait_for_lock-upgrade_granted_example =
    wait_for_lock-upgrade_granted read_by_youngest youngest refl refl (ground arith) refl refl

upgrader_inj : {a b : ℕ} → upgrader a ≡ upgrader b → a ≡ b
upgrader_inj {a} e = ap (λ u. elim u [ no_upgrader ↦ a | upgrader p ↦ p ]) e

-- The eldest waits to upgrade; the younger ones do not get as far as the semaphore.
abbrev read_by_three : SingleLock
read_by_three = record read_by_two {
  current_read = youngest ∷ middle ∷ eldest ∷ [];
  inside = 3;
  waiting = 1;
  tid = eldest;
  sem = record read_by_two.sem { inside = 3; upgrader_waiting = true; best_upgrader = upgrader 3 };
}

upgrade_dies :
    wait_for_lock read_by_three middle write
    ≡ returns (record read_by_three { waiting = 2 }, returned deadlock_error)
unfolding wait_for_lock plan prevent_deadlock finish_wait
upgrade_dies = refl

wait_for_lock-upgrade_unrefused_example : deadlock_error ≢ 0
wait_for_lock-upgrade_unrefused_example =
    wait_for_lock-upgrade_unrefused read_by_three (record read_by_three { waiting = 2 }) middle
      deadlock_error (record { readers = ground arith; writers = tt })
      (λ b h. subst (λ p. has_priority p read_by_three.current_read ≡ true) (upgrader_inj h) refl)
      refl refl upgrade_dies

abbrev refused_one : SingleLock
refused_one = record read_by_one { tid = middle; waiting = 1 }

youngest_dies :
    wait_for_lock read_by_two youngest write
    ≡ returns (record read_by_two { waiting = 1 }, returned deadlock_error)
unfolding wait_for_lock plan prevent_deadlock finish_wait
youngest_dies = refl

youngest_leaves :
    unlock_single (record read_by_two { waiting = 1 }) middle ≡ returns (refused_one, false)
unfolding unlock_single new_sem unlock
youngest_leaves = refl

wait_for_lock-unlock_leak_example : (1 ≡ 0 + 1) × (1 ≡ 0 + 1) × (false ≡ false)
wait_for_lock-unlock_leak_example =
    wait_for_lock-unlock_leak read_by_two (record read_by_two { waiting = 1 }) refused_one youngest
      middle write deadlock_error false youngest_dies (ground arith) youngest_leaves
