-- ===== src/Util/Semaphore/Examples.antt =====
-- Two readers of which the second upgrades, and a writer that waits for them.
use loxim_stats.Base.{ℕ, ◌≡◌, List, [], ◌∷◌, arith, refl, length, ◌≤◌, ◌<◌}
use loxim_stats.Util.Semaphore.{
  woken_write, returns, new_sem, read, lock_read, lock_write, lock_upgrade, woken_upgrade, unlock,
  Checked, assert_failed,
}
use loxim_stats.Util.Semaphore.Threads.{
  World, Event, ask_read, ask_write, wake_writer, leave_read, leave_write, ask_upgrade,
  wake_upgrader, new_world, run, step, deliver, are_permitted, spurious_writer,
}
use loxim_stats.Util.Semaphore.Safety.{IsExclusive, run-IsExclusive, run-live, awake}

abbrev history : List Event
history =
    ask_read
    ∷ ask_read
    ∷ ask_upgrade 7
    ∷ ask_write
    ∷ leave_read
    ∷ wake_upgrader 7
    ∷ leave_write
    ∷ wake_writer
    ∷ []

run-IsExclusive_example : (w : World) × (run (new_world 3) history ≡ returns w) × IsExclusive w
unfolding are_permitted step lock_read lock_write lock_upgrade woken_upgrade unlock new_world
    new_sem deliver woken_write
run-IsExclusive_example = run-IsExclusive 3 history (omega arith) refl

-- The writer still waits for the first reader.
abbrev short_history : List Event
short_history = ask_read ∷ ask_read ∷ ask_write ∷ leave_read ∷ []

abbrev short_world : World
short_world = record (new_world 3) {
  sem = record new_sem { inside = 1; mode = read; writers_waiting = 1 };
  idle = 1;
  reading = 1;
  write_blocked = 1;
}

run-live_example : (0 < awake short_world) × (length short_world.upgrade_blocked ≤ 1)
unfolding run are_permitted step lock_read lock_write unlock new_world new_sem deliver
run-live_example = run-live 3 short_history short_world (omega arith) refl refl (omega arith)

-- A writer that wakes without a signal passes its assert and holds the lock beside the first one.
abbrev writers_in : Checked World → ℕ
writers_in (returns w) = w.writing
writers_in assert_failed = 0

two_writers :
    writers_in (run (new_world 2) (ask_write ∷ ask_write ∷ spurious_writer ∷ wake_writer ∷ [])) ≡ 2
unfolding run step lock_write woken_write new_world new_sem deliver
two_writers = refl
