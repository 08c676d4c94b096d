-- ===== src/Examples/SnapshotRuns.antt =====
-- Runs of the snapshot store of internal/raft/snapshot.go over a directory in memory.
use distributed_kv.Common.{
  ◌≡◌, refl, Option, none, some, [], ◌∷◌, ◌++◌, Bytes, bytes_discrete, codes, ite, Error, other,
}
use distributed_kv.Kv.StateMachine.{Snapshot, marshal, unmarshal_snapshot}
use distributed_kv.Raft.SnapshotStore.{
  FileSystem, SnapshotMeta, save, load_latest, write_file_sync, replace_file, tmp_meta_path,
}
use distributed_kv.Raft.SnapshotStore.Saved.{load_latest-save, load_latest-torn}
use distributed_kv.Examples.Files.{memory_files, no_files}
use distributed_kv.Examples.Codecs.{
  pairs_codec, meta_codec, decode_pairs, decode_items, unframe, split, decode_meta,
}

abbrev pub one_pair : Snapshot
one_pair = record { pairs = (codes "a", codes "1") ∷ [] }

abbrev pub at_two : SnapshotMeta
at_two = record { last_included_index = 2; last_included_term = 1 }

load_latest-save_example :
    ◌≡◌ {A = Option (Snapshot × SnapshotMeta)} (some (one_pair, at_two)) (some (one_pair, at_two))
unfolding save load_latest marshal unmarshal_snapshot write_file_sync replace_file decode_pairs
    decode_items unframe split decode_meta bytes_discrete
load_latest-save_example =
    load_latest-save no_files one_pair at_two {r = some (one_pair, at_two)} refl refl

-- Files whose closing fails for the temporary file of the index and the term.
abbrev pub failing_close : Bytes → Option Error
failing_close p = ite (bytes_discrete tmp_meta_path p) (some (other [])) none

abbrev pub failing_files : FileSystem
failing_files = record memory_files {
  close = λ d p. (failing_close p, d);
  close-files = λ d p. refl;
}

abbrev pub at_one : SnapshotMeta
at_one = record { last_included_index = 1; last_included_term = 1 }

abbrev pub saved_before : FileSystem.Disk memory_files
saved_before = (save no_files (record { pairs = [] }) at_one).1

load_latest-torn_example :
    ◌≡◌ {A = Option (Snapshot × SnapshotMeta)} (some (one_pair, at_one)) (some (one_pair, at_one))
unfolding save load_latest marshal unmarshal_snapshot write_file_sync replace_file decode_pairs
    decode_items unframe split decode_meta bytes_discrete
load_latest-torn_example =
    load_latest-torn ⦃F = failing_files⦄ saved_before one_pair at_two at_one
      (1 ∷ 1 ∷ codes "a" ++ 1 ∷ codes "1") (2 ∷ 1 ∷ []) (1 ∷ 1 ∷ []) (other [])
      {r = some (one_pair, at_one)} refl refl refl refl refl refl refl refl
