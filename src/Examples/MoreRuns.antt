-- ===== src/Examples/MoreRuns.antt =====
-- The theorems on the state machine, the reads and the apply loop at concrete inputs.
use distributed_kv.Common.{
  ◌+◌, ◌*◌, ◌≤◌, ◌<◌, ◌≡◌, refl, true, false, some, List, [], ◌∷◌, codes, arith, ok, ite,
  bytes_discrete,
}
use distributed_kv.Kv.StateMachine.{new_state_machine, get_value, apply_put}
use distributed_kv.Kv.StateMachine.Reads.{get_value-apply_put}
use distributed_kv.Raft.Types.{leader}
use distributed_kv.Raft.State.{Node}
use distributed_kv.Raft.Log.Writes.{append_entries, encode_sets, compact_prefix}
use distributed_kv.Raft.Log.Valid.{held}
use distributed_kv.Raft.Log.Kept.{compact_prefix-held}
use distributed_kv.Raft.ReadIndex.{
  Beat, answer, confirm_leadership, collect_acks, on_heartbeat, drain,
}
use distributed_kv.Raft.ReadIndex.Acks.{acks, confirm_leadership-majority}
use distributed_kv.Raft.Apply.{apply_committed}
use distributed_kv.Raft.Apply.Progress.{apply_committed-bounds}
use distributed_kv.Examples.Memory.{memory_commit}
use distributed_kv.Examples.Codecs.{entry_codec, pairs_codec, meta_codec}
use distributed_kv.Examples.Files.{memory_files}
use distributed_kv.Examples.Nodes.{
  engine, engine-IsReadable, two_entries, two_entries-IsValid, node_with,
}

get_value-apply_put_example :
    get_value (apply_put (new_state_machine []) 1 (codes "a") (codes "b")).1 (codes "a")
    ≡ ite
        (bytes_discrete (codes "a") (codes "a"))
        (ok (some (codes "b")))
        (get_value (new_state_machine []) (codes "a"))
unfolding apply_put memory_commit
get_value-apply_put_example =
    get_value-apply_put (engine-IsReadable false) (new_state_machine []) 1 (codes "a") (codes "b")
      (codes "a") refl

abbrev reading : Node
reading = record (node_with false two_entries) { role = leader; commit_index = 2 }

abbrev one_ack : List (Beat Node)
one_ack =
    answer (ok (record { term = 0; success = true; conflict_term = 0; conflict_index = 0 })) ∷ []

confirm_leadership-majority_example : 2 + 1 < 2 * (1 + acks reading 0 2 one_ack)
unfolding confirm_leadership collect_acks on_heartbeat drain
confirm_leadership-majority_example = confirm_leadership-majority reading 0 one_ack refl

apply_committed-bounds_example :
    (reading.last_applied ≤ (apply_committed reading).last_applied)
    × ((apply_committed reading).last_applied ≤ reading.commit_index)
    × ((apply_committed reading).commit_index ≡ reading.commit_index)
unfolding append_entries encode_sets memory_commit
apply_committed-bounds_example = apply_committed-bounds reading (omega arith)

compact_prefix-held_example : held (compact_prefix two_entries 1 1).1 2 ≡ held two_entries 2
unfolding append_entries encode_sets memory_commit
compact_prefix-held_example =
    compact_prefix-held two_entries 1 1 2 two_entries-IsValid (omega arith) (omega arith)
      (omega arith)
