-- ===== src/Examples/WriterRuns.antt =====
-- Writers that wait on a node in memory.
use distributed_kv.Common.{
  ◌+◌, ◌≤◌, ◌≡◌, refl, none, [], ◌∷◌, In, codes, arith, other, err, false, ℕ_discrete,
}
use distributed_kv.Common.Map
use distributed_kv.Kv.StateMachine.{new_state_machine, apply_put}
use distributed_kv.Raft.Entry.{put}
use distributed_kv.Raft.Log.{get_entry}
use distributed_kv.Raft.Log.Writes.{
  append_entries, encode_sets, evict_tail_cache, cache_all, drop_cached,
}
use distributed_kv.Raft.Types.{Transport, InstallSnapshotRequest, leader}
use distributed_kv.Raft.State.{Node, is_leader}
use distributed_kv.Raft.Lifecycle.{become_follower}
use distributed_kv.Raft.Leader.{become_leader}
use distributed_kv.Raft.Propose.{begin_propose}
use distributed_kv.Raft.Snapshot.{handle_install_snapshot}
use distributed_kv.Raft.Apply.{apply_committed, apply_one, apply_entry}
use distributed_kv.Raft.Steps.{stand, lead, propose, step_down, next, here as at_start}
use distributed_kv.Raft.Writers.{waiting, told}
use distributed_kv.Raft.Writers.Local.{become_follower-steps_down}
use distributed_kv.Raft.Writers.Told.{none_yet, after, told_once, only_leaders_wait}
use distributed_kv.Raft.Writers.Stale.{stale_writer_told}
use distributed_kv.Raft.Writers.Applied.{apply_committed-tells}
use distributed_kv.Examples.Memory.{memory_commit}
use distributed_kv.Examples.Codecs.{entry_codec, pairs_codec, meta_codec}
use distributed_kv.Examples.Files.{memory_files, no_files}
use distributed_kv.Examples.Nodes.{
  engine, engine-IsReadable, settings, node_with, two_entries, second_entry,
}
use distributed_kv.Examples.LifeRuns.{newborn, newborn-started, candidate}
use distributed_kv.Examples.ClusterRuns.{behind, engine-IsWritable, two_entries-IsReady}

abbrev pub silent : Transport
silent = record {
  request_vote = λ _ _. err (other []);
  append_entries = λ _ _. err (other []);
  install_snapshot = λ _ _. err (other []);
}

-- It leads and has one proposal.
abbrev proposed : Node
proposed = (begin_propose (become_leader silent candidate) put (codes "a") (codes "b") []).1

told_once_example : waiting 0 proposed.write_waiters + told 0 proposed.delivered ≤ 1
told_once_example =
    told_once (codes "n1") [] settings [] (new_state_machine []) no_files (codes "addr")
      newborn-started 0
      (next (next (next (at_start newborn) (stand newborn (omega arith))) (lead silent candidate))
        (propose (become_leader silent candidate) put (codes "a") (codes "b") []))

abbrev deposed : Node
deposed = become_follower proposed 5 [] []

only_leaders_wait_example : deposed.write_waiters ≡ []
only_leaders_wait_example =
    only_leaders_wait (codes "n1") [] settings [] (new_state_machine []) no_files (codes "addr")
      newborn-started
      (after
        (after
          (after (after (none_yet newborn) (stand newborn (omega arith)) refl)
            (lead silent candidate) tt)
          (propose (become_leader silent candidate) put (codes "a") (codes "b") []) tt)
        (step_down proposed 5 [] []) tt)
      (become_follower-steps_down proposed 5 [] [])

-- A leader with a writer at index 2, and a snapshot of a later term.
abbrev leading : Node
leading = record (node_with false two_entries) { role = leader; write_waiters = (2, 7) ∷ [] }

abbrev snapshot_request : InstallSnapshotRequest
snapshot_request = record {
  term = 3;
  leader_id = codes "n2";
  last_included_index = 1;
  last_included_term = 1;
  snapshot_bytes = [];
}

abbrev rejoined : Node
rejoined = record (node_with false two_entries) {
  write_waiters = (handle_install_snapshot leading snapshot_request).0.write_waiters;
}

stale_writer_told_example :
    (is_leader (handle_install_snapshot leading snapshot_request).0 ≡ false)
    × ((apply_one rejoined 2).1.delivered ≡ (7, none) ∷ rejoined.delivered)
unfolding append_entries encode_sets memory_commit ℕ_discrete get_entry handle_install_snapshot
    apply_put Map.lookup evict_tail_cache cache_all Map.insert drop_cached apply_entry
stale_writer_told_example =
    stale_writer_told leading rejoined snapshot_request 2 7 second_entry (omega arith) refl refl
      refl refl

abbrev awaited : Node
awaited = record behind { write_waiters = (2, 7) ∷ [] }

apply_committed-tells_example : In (7, none) (apply_committed awaited).delivered
unfolding ℕ_discrete Map.lookup
apply_committed-tells_example =
    apply_committed-tells engine-IsWritable (engine-IsReadable false) awaited 2 7
      two_entries-IsReady (omega arith) (omega arith) refl
