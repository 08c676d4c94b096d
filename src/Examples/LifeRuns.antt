-- ===== src/Examples/LifeRuns.antt =====
-- A node in memory that starts and stands.
use distributed_kv.Common.{◌≡◌, refl, [], codes, ok}
use distributed_kv.Common.Map
use distributed_kv.Kv.StateMachine.{new_state_machine}
use distributed_kv.Raft.Log.{open_persistent_log, walk_last}
use distributed_kv.Raft.Log.Runs.{blank}
use distributed_kv.Raft.SnapshotStore.{load_latest}
use distributed_kv.Raft.State.{Node, new_node, fresh_node}
use distributed_kv.Raft.Lifecycle.{become_candidate}
use distributed_kv.Examples.Memory.{items_of, answer_of}
use distributed_kv.Examples.Codecs.{entry_codec, pairs_codec, meta_codec}
use distributed_kv.Examples.Files.{memory_files, no_files}
use distributed_kv.Examples.Nodes.{engine, settings}

abbrev pub newborn : Node
newborn =
    fresh_node (codes "n1") [] settings (blank []) (new_state_machine []) no_files (codes "addr")

pub newborn-started :
    new_node (codes "n1") [] settings [] (new_state_machine []) no_files (codes "addr") ≡ ok newborn
unfolding new_node open_persistent_log load_latest Map.lookup items_of answer_of walk_last
newborn-started = refl

abbrev pub candidate : Node
candidate = (become_candidate newborn).1
