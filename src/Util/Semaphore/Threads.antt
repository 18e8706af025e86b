-- ===== src/Util/Semaphore/Threads.antt =====
-- Threads that use one semaphore, in any order of their calls. A thread is idle, holds the lock for
-- reading or writing, waits on a condition variable, or was woken and has not run yet; the threads
-- in each state are counted, those that upgrade are listed by their priorities. A signal wakes
-- one waiting thread and a broadcast all of them; pthread_cond_wait may also return where nobody
-- signalled it, and pthread_cond_signal may wake more than one, which are events of their own.
use loxim_stats.Base.{
  ℕ, ◌+◌, ◌-◌, Bool, true, false, not, ◌&&◌, ◌||◌, List, [], ◌∷◌, ltb, ◌==◌, if◌then◌else◌,
}
use loxim_stats.Util.Semaphore.{
  Sem, Signal, silent, signal_writer, broadcast_readers, signal_upgrader, entered, waits, refused,
  Checked, returns, assert_failed, Call, new_sem, lock_read, lock_write, lock_upgrade, unlock,
  woken_read, woken_write, woken_upgrade,
}

pub record World : Type 0 where
  pub sem : Sem
  pub idle : ℕ
  pub reading : ℕ
  pub writing : ℕ
  pub read_blocked : ℕ
  pub read_woken : ℕ
  pub write_blocked : ℕ
  pub write_woken : ℕ
  pub upgrade_blocked : List ℕ
  pub upgrade_woken : List ℕ

unfoldable pub new_world : ℕ → World
new_world threads = record {
  sem = new_sem;
  idle = threads;
  reading = 0;
  writing = 0;
  read_blocked = 0;
  read_woken = 0;
  write_blocked = 0;
  write_woken = 0;
  upgrade_blocked = [];
  upgrade_woken = [];
}

unfoldable pub deliver_writer : World → World
deliver_writer w =
    if ltb 0 w.write_blocked
    then record w { write_blocked = w.write_blocked - 1; write_woken = w.write_woken + 1 }
    else w

unfoldable pub deliver_upgrader : World → List ℕ → World
deliver_upgrader w [] = w
deliver_upgrader w (p ∷ ps) = record w { upgrade_blocked = ps; upgrade_woken = p ∷ w.upgrade_woken }

-- The effect of a signal on the waiting threads.
unfoldable pub deliver : Signal → World → World
unfolding deliver_writer deliver_upgrader
deliver silent w = w
deliver signal_writer w = deliver_writer w
deliver broadcast_readers w = record w {
  read_blocked = 0;
  read_woken = w.read_woken + w.read_blocked;
}
deliver signal_upgrader w = deliver_upgrader w w.upgrade_blocked

-- A thread asks for the lock, wakes up, asks for an upgrade, gives the lock back, or is woken without
-- a signal of its own.
pub data Event : Type 0 where
  ask_read ask_write wake_reader wake_writer leave_read leave_write : Event
  spurious_reader spurious_writer : Event
  ask_upgrade wake_upgrader spurious_upgrader : ℕ → Event

abbrev pub contains : ℕ → List ℕ → Bool
contains p [] = false
contains p (q ∷ qs) = p == q || contains p qs

abbrev pub remove : ℕ → List ℕ → List ℕ
remove p [] = []
remove p (q ∷ qs) = if p == q then qs else q ∷ remove p qs

abbrev pub read_asked : World → Call → Checked World
read_asked w (returns (s, signal, entered)) =
    returns (record w { sem = s; reading = w.reading + 1 })
read_asked w (returns (s, signal, waits)) =
    returns (record w { sem = s; read_blocked = w.read_blocked + 1 })
read_asked w (returns (s, signal, refused)) = assert_failed
read_asked w assert_failed = assert_failed

abbrev pub write_asked : World → Call → Checked World
write_asked w (returns (s, signal, entered)) =
    returns (record w { sem = s; writing = w.writing + 1 })
write_asked w (returns (s, signal, waits)) =
    returns (record w { sem = s; write_blocked = w.write_blocked + 1 })
write_asked w (returns (s, signal, refused)) = assert_failed
write_asked w assert_failed = assert_failed

-- A signal of lock_upgrade is sent before its thread waits.
abbrev pub upgrade_asked : World → ℕ → Call → Checked World
upgrade_asked w p (returns (s, signal, entered)) =
    returns (record w { sem = s; writing = w.writing + 1 })
upgrade_asked w p (returns (s, signal, waits)) =
    let w' = deliver signal (record w { sem = s }) in
    returns (record w' { upgrade_blocked = p ∷ w'.upgrade_blocked })
upgrade_asked w p (returns (s, signal, refused)) =
    returns (deliver signal (record w { sem = s; idle = w.idle + 1 }))
upgrade_asked w p assert_failed = assert_failed

abbrev pub woken : World → Checked Sem → Checked World
woken w (returns s) = returns (record w { sem = s })
woken w assert_failed = assert_failed

abbrev pub left : World → Checked (Sem × Signal) → Checked World
left w (returns (s, signal)) = returns (deliver signal (record w { sem = s; idle = w.idle + 1 }))
left w assert_failed = assert_failed

-- An event that no thread can cause changes nothing.
unfoldable pub step : World → Event → Checked World
step w ask_read =
    if ltb 0 w.idle
    then read_asked (record w { idle = w.idle - 1 }) (lock_read w.sem)
    else returns w
step w ask_write =
    if ltb 0 w.idle
    then write_asked (record w { idle = w.idle - 1 }) (lock_write w.sem)
    else returns w
step w wake_reader =
    if ltb 0 w.read_woken
    then woken (record w { read_woken = w.read_woken - 1; reading = w.reading + 1 })
        (woken_read w.sem)
    else returns w
step w wake_writer =
    if ltb 0 w.write_woken
    then woken (record w { write_woken = w.write_woken - 1; writing = w.writing + 1 })
        (woken_write w.sem)
    else returns w
step w leave_read =
    if ltb 0 w.reading
    then left (record w { reading = w.reading - 1 }) (unlock w.sem)
    else returns w
step w leave_write =
    if ltb 0 w.writing
    then left (record w { writing = w.writing - 1 }) (unlock w.sem)
    else returns w
step w (ask_upgrade p) =
    if ltb 0 w.reading
    then upgrade_asked (record w { reading = w.reading - 1 }) p (lock_upgrade w.sem p)
    else returns w
step w (wake_upgrader p) =
    if contains p w.upgrade_woken
    then upgrade_asked (record w { upgrade_woken = remove p w.upgrade_woken }) p
        (woken_upgrade w.sem p)
    else returns w
step w spurious_reader =
    if ltb 0 w.read_blocked
    then returns (record w { read_blocked = w.read_blocked - 1; read_woken = w.read_woken + 1 })
    else returns w
step w spurious_writer = returns (deliver_writer w)
step w (spurious_upgrader p) =
    if contains p w.upgrade_blocked
    then returns (record w {
      upgrade_blocked = remove p w.upgrade_blocked;
      upgrade_woken = p ∷ w.upgrade_woken;
    })
    else returns w

unfoldable pub run : World → List Event → Checked World
run w [] = returns w
run w (e ∷ es) = elim (step w e) [ returns w' ↦ run w' es | assert_failed ↦ assert_failed ]

-- No event wakes a thread without a signal of its own, and no thread asks for an upgrade with the
-- priority of another one whose upgrade has not returned yet.
abbrev pub is_permitted : World → Event → Bool
is_permitted w spurious_reader = false
is_permitted w spurious_writer = false
is_permitted w (spurious_upgrader p) = false
is_permitted w (ask_upgrade p) = not (contains p w.upgrade_blocked || contains p w.upgrade_woken)
is_permitted w _ = true

abbrev pub permitted_after : (World → Bool) → Checked World → Bool
permitted_after next (returns w) = next w
permitted_after next assert_failed = true

unfoldable pub are_permitted : World → List Event → Bool
are_permitted w [] = true
are_permitted w (e ∷ es) =
    is_permitted w e && permitted_after (λ w'. are_permitted w' es) (step w e)
