-- ===== src/Kv/StateMachine.antt =====
-- internal/kv/state_machine.go: committed operations over an engine, dumps and restores.
pub mod Reads
pub mod View
pub mod Backup
use distributed_kv.Common.{
  false, ℕ, true, Option, none, some, List, [], ◌∷◌, ◌++◌, map, drop, Bytes, bytes_discrete, codes,
  Error, not_found, Result, ok, err, wrap_error, ◌>>=◌,
}
use distributed_kv.Common.Map
use distributed_kv.Common.Map.{Map}
use distributed_kv.Storage.{Engine, Codec, BatchOp, set, delete, prefix_upper_bound}

abbrev pub data_prefix : Bytes
data_prefix = codes "d/"

abbrev pub data_key : Bytes → Bytes
data_key key = data_prefix ++ key

abbrev pub Pairs : Type 0
Pairs = Map Bytes Bytes

pub record Snapshot : Type 0 where
  pub pairs : Pairs

-- The loop of Dump over the items of the iterator.
unfoldable pub dump_pairs : List (Bytes × Bytes) → Pairs → Pairs
dump_pairs [] pairs = pairs
dump_pairs ((k, v) ∷ items) pairs = dump_pairs items (Map.insert bytes_discrete (drop 2 k) v pairs)

-- What Get makes of the engine's answer; `none` is not found.
abbrev pub found_value : Result Bytes → Result (Option Bytes)
found_value (ok v) = ok (some v)
found_value (err not_found) = ok none
found_value (err e) = err e

module _ ⦃P : Codec Pairs⦄ where
  unfoldable pub marshal : Snapshot → Result Bytes
  marshal s = wrap_error (codes "marshal snapshot") (Codec.encode P s.pairs)

  unfoldable pub unmarshal_snapshot : Bytes → Result Snapshot
  unmarshal_snapshot bytes =
      wrap_error (codes "unmarshal snapshot") (Codec.decode P bytes) >>= λ pairs.
      ok (record { pairs = pairs })

module _ ⦃E : Engine⦄ where
  open E use {Db, get, set_key, delete_key, commit, scan}

  pub record StateMachine : Type 0 where
    pub engine : Db
    pub last_applied : ℕ

  unfoldable pub new_state_machine : Db → StateMachine
  new_state_machine db = record { engine = db; last_applied = 0 }

  unfoldable pub get_value : StateMachine → Bytes → Result (Option Bytes)
  get_value s key = found_value (get s.engine (data_key key))

  abbrev pub finish : Option Error × Db → StateMachine → ℕ → Option Error × StateMachine
  finish (none, db) s index = (none, record { engine = db; last_applied = index })
  finish (some e, db) s index = (some e, record s { engine = db })

  unfoldable pub apply_put : StateMachine → ℕ → Bytes → Bytes → Option Error × StateMachine
  apply_put s index key value =
      finish (set_key s.engine (data_key key) value (record { sync = false })) s index

  unfoldable pub apply_delete : StateMachine → ℕ → Bytes → Option Error × StateMachine
  apply_delete s index key =
      finish (delete_key s.engine (data_key key) (record { sync = false })) s index

  unfoldable pub apply_noop : StateMachine → ℕ → StateMachine
  apply_noop s index = record s { last_applied = index }

  unfoldable pub dump : StateMachine → Result Snapshot
  unfolding dump_pairs
  dump s = scan s.engine data_prefix (prefix_upper_bound data_prefix) >>= λ items.
      ok (record { pairs = dump_pairs items [] })

  abbrev pub clear_ops : List (Bytes × Bytes) → List BatchOp
  clear_ops items = map (λ (item : Bytes × Bytes). delete item.0) items

  abbrev pub pair_ops : Pairs → List BatchOp
  pair_ops pairs = map (λ (p : Bytes × Bytes). set (data_key p.0) p.1) pairs

  abbrev pub restore_items :
      StateMachine → Snapshot → ℕ → Result (List (Bytes × Bytes)) → Option Error × StateMachine
  restore_items s snap index (err e) = (some e, s)
  restore_items s snap index (ok items) =
      finish (commit s.engine (clear_ops items ++ pair_ops snap.pairs) (record { sync = true })) s
        index

  unfoldable pub restore : StateMachine → Snapshot → ℕ → Option Error × StateMachine
  restore s snap index =
      restore_items s snap index (scan s.engine data_prefix (prefix_upper_bound data_prefix))
