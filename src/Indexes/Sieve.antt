-- ===== src/Indexes/Sieve.antt =====
-- src/Indexes/EntrySieve.cpp: the objects that a transaction sees among the entries of an index. A result
-- is the identifier of an object.
pub mod Snapshot
pub mod History
pub mod Alive
use loxim_stats.Base.{ℕ, Bool, true, false, not, List, [], ◌∷◌, ◌++◌, if◌then◌else◌, ◌==◌}
use loxim_stats.Base.Int.{ℤ, pos, negsuc, ltb_ℤ, eqb_ℤ}
use loxim_stats.Indexes.Resolver.{Resolver, rolled_back, is_visible}
use loxim_stats.Indexes.Traveller.{RootEntry}

abbrev pub store_ixr_nullvalue : ℤ
store_ixr_nullvalue = negsuc 0

-- The transaction that searches, and its index.
pub record Viewer : Type 0 where
  pub id : ℤ
  pub time_stamp : ℤ
  pub index : ℕ
  pub resolver : Resolver

pub record EntrySieve : Type 0 where
  pub result : List ℕ
  pub started : Bool
  pub current_lid : ℕ
  pub latest_timestamp : ℤ
  pub removed : Bool

-- `removed` is what the flag that the constructor does not set happens to be, and so are the two before it.
abbrev pub new_sieve : ℕ → ℤ → Bool → EntrySieve
new_sieve lid timestamp removed = record {
  result = [];
  started = false;
  current_lid = lid;
  latest_timestamp = timestamp;
  removed = removed;
}

-- The int that `!` makes of an int.
abbrev pub not_int : ℤ → ℤ
not_int v = if eqb_ℤ v (pos 0) then pos 1 else pos 0

abbrev pub push_latest : EntrySieve → EntrySieve
push_latest s = if s.removed then s else record s { result = s.result ++ s.current_lid ∷ [] }

module _ {K : Type 0} where
  unfoldable pub is_entry_visible : Viewer → RootEntry K → Bool
  unfolding is_visible
  is_entry_visible w e =
      if eqb_ℤ e.modyfier_transaction_id rolled_back
      then false
      else if eqb_ℤ e.modyfier_transaction_id w.id
      then true
      else if ltb_ℤ w.time_stamp e.add_time
      then false
      else if eqb_ℤ (not_int e.del_time) store_ixr_nullvalue
      then false
      else if eqb_ℤ e.modyfier_transaction_id store_ixr_nullvalue
      then true
      else is_visible w.resolver e.modyfier_transaction_id w.time_stamp w.index

  abbrev pub state_reset : RootEntry K → EntrySieve → EntrySieve
  state_reset e s = record s { current_lid = e.logical_id; latest_timestamp = pos 0 }

  abbrev pub start : RootEntry K → EntrySieve → EntrySieve
  start e s = if s.started then s else state_reset e (record s { started = true })

  abbrev pub next_object : RootEntry K → EntrySieve → EntrySieve
  next_object e s = if s.current_lid == e.logical_id then s else state_reset e (push_latest s)

  abbrev pub note_added : RootEntry K → EntrySieve → EntrySieve
  note_added e s =
      if ltb_ℤ s.latest_timestamp e.add_time
      then record s { latest_timestamp = e.add_time; removed = false }
      else s

  abbrev pub note_removed : RootEntry K → EntrySieve → EntrySieve
  note_removed e s =
      if ltb_ℤ s.latest_timestamp e.del_time
      then record s { latest_timestamp = e.del_time; removed = true }
      else s

  unfoldable pub add : Viewer → EntrySieve → RootEntry K → EntrySieve
  unfolding is_entry_visible
  add w s e =
      if is_entry_visible w e then note_removed e (note_added e (next_object e (start e s))) else s

abbrev pub get_result : EntrySieve → List ℕ
get_result s = if s.started then (push_latest s).result else s.result
