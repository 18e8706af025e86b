-- ===== src/Indexes/Sieve/Snapshot.antt =====
-- What a snapshot of the transaction sees, read off the rules of isolation, against isEntryVisible of
-- src/Indexes/EntrySieve.cpp.
use loxim_stats.Base.{◌≡◌, refl, Bool, not, ◌&&◌, ◌||◌, Option, none, some, arith}
use loxim_stats.Base.Int.{ℤ, ltb_ℤ, eqb_ℤ}
use loxim_stats.Indexes.Resolver.{Resolver, rolled_back, beyond_horizon, is_visible}
use loxim_stats.Indexes.Traveller.{RootEntry}
use loxim_stats.Indexes.Sieve.{Viewer, is_entry_visible, store_ixr_nullvalue}

-- A transaction committed before a time, or is older than all whose commits are remembered.
abbrev pub committed : Resolver → ℤ → ℤ → Option ℤ → Bool
committed r from begin (some time) = ltb_ℤ time begin
committed r from begin none = not (ltb_ℤ r.horizon from)

module _ {K : Type 0} where
  -- An entry of a transaction that was not rolled back is seen by that transaction, and by those that began
  -- no earlier than it was added and after that transaction committed.
  abbrev pub sees : Viewer → RootEntry K → Bool
  sees w e =
      let from = e.modyfier_transaction_id in
      not (eqb_ℤ from rolled_back)
      && (eqb_ℤ from w.id
          || (not (ltb_ℤ w.time_stamp e.add_time)
              && (eqb_ℤ from store_ixr_nullvalue
                  || eqb_ℤ from beyond_horizon
                  || (not (w.resolver.rolled_back_on w.index from)
                      && committed w.resolver from w.time_stamp (w.resolver.commit_ts from)))))

  visible_option :
      (w : Viewer) (e : RootEntry K) (o : Option ℤ)
      → w.resolver.commit_ts e.modyfier_transaction_id ≡ o
      → is_entry_visible w e ≡ sees w e
  unfolding is_entry_visible is_visible
  visible_option w e none h = ground arith
  visible_option w e (some t) h = ground arith

  pub is_entry_visible-sees : (w : Viewer) (e : RootEntry K) → is_entry_visible w e ≡ sees w e
  is_entry_visible-sees w e =
      visible_option w e (w.resolver.commit_ts e.modyfier_transaction_id) refl
