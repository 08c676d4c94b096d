-- ===== src/Examples/TransferRuns.antt =====
-- A snapshot that one node in memory takes and another installs.
use distributed_kv.Common.{refl, [], ◌∷◌, ◌++◌, codes, arith, false, bytes_discrete, ℕ_discrete}
use distributed_kv.Common.Map
use distributed_kv.Storage.{in_range, prefix_upper_bound}
use distributed_kv.Kv.StateMachine.{
  StateMachine, Snapshot, new_state_machine, apply_put, dump, dump_pairs, restore, marshal,
  unmarshal_snapshot,
}
use distributed_kv.Raft.Log.{term_at}
use distributed_kv.Raft.Log.Writes.{
  append_entries, encode_sets, restore_snapshot_boundary, set_term_and_vote, cache_all,
  evict_tail_cache, drop_cached, compact_prefix,
}
use distributed_kv.Raft.SnapshotStore.{save, load_latest, write_file_sync, replace_file}
use distributed_kv.Raft.Types.{InstallSnapshotRequest}
use distributed_kv.Raft.State.{Node}
use distributed_kv.Raft.Snapshot.{maybe_snapshot, handle_install_snapshot}
use distributed_kv.Raft.Snapshot.Transfer.{Took, snapshot-transfer}
use distributed_kv.Examples.Memory.{memory_commit, items_of, run_ops}
use distributed_kv.Examples.Codecs.{
  entry_codec, pairs_codec, meta_codec, decode_pairs, decode_items, unframe, split, decode_meta,
}
use distributed_kv.Examples.Files.{memory_files}
use distributed_kv.Examples.Nodes.{engine, empty_log, two_entries, node_with}

abbrev stored : StateMachine
stored = (apply_put (new_state_machine []) 2 (codes "a") (codes "b")).1

abbrev taken : Node
taken = record (node_with false two_entries) { sm = stored; last_applied = 2; commit_index = 2 }

abbrev dumped : Snapshot
dumped = record { pairs = (codes "a", codes "b") ∷ [] }

abbrev joining : Node
joining = node_with false (empty_log false)

abbrev carried : InstallSnapshotRequest
carried = record {
  term = 1;
  leader_id = codes "n1";
  last_included_index = 2;
  last_included_term = 1;
  snapshot_bytes = 1 ∷ 1 ∷ codes "a" ++ 1 ∷ codes "b";
}

snapshot-transfer_example : Took (handle_install_snapshot joining carried).0 2 stored
unfolding append_entries encode_sets memory_commit load_latest save write_file_sync replace_file
    marshal unmarshal_snapshot decode_pairs decode_items unframe split decode_meta bytes_discrete
    restore restore_snapshot_boundary dump dump_pairs apply_put new_state_machine term_at
    maybe_snapshot Map.lookup Map.insert Map.delete items_of run_ops in_range prefix_upper_bound
    set_term_and_vote cache_all evict_tail_cache drop_cached ℕ_discrete compact_prefix
snapshot-transfer_example =
    snapshot-transfer taken (maybe_snapshot taken 2) joining 2 1 1 dumped carried refl refl refl
      refl refl refl (omega arith) refl refl refl refl
