-- ===== src/Raft/Leader.antt =====
-- becomeLeader of internal/raft/node_lifecycle.go.
use distributed_kv.Common.{ℕ, List, [], ◌∷◌, Bytes, bytes_discrete, add64, if◌then◌else◌}
use distributed_kv.Common.Map
use distributed_kv.Common.Map.{Map}
use distributed_kv.Raft.Entry.{noop}
use distributed_kv.Raft.Types.{candidate, leader, Transport, PeerInfo}
use distributed_kv.Raft.State.{Node, is_role}
use distributed_kv.Raft.Replication.{append_local, broadcast_append_entries}
use distributed_kv.Storage.{Engine, Codec}
use distributed_kv.Kv.StateMachine.{Pairs}
use distributed_kv.Raft.Entry.{Entry}
use distributed_kv.Raft.SnapshotStore.{FileSystem, SnapshotMeta}

-- One value for every peer.
unfoldable pub set_all : List PeerInfo → ℕ → Map Bytes ℕ → Map Bytes ℕ
set_all [] v m = m
set_all (p ∷ ps) v m = set_all ps v (Map.insert bytes_discrete p.id v m)

abbrev pub noop_entry : Entry
noop_entry = record {
  index = 0;
  term = 0;
  entry_type = noop;
  key = [];
  value = [];
  client_request_id = [];
}

module _ ⦃E : Engine⦄ ⦃C : Codec Entry⦄ ⦃P : Codec Pairs⦄ ⦃M : Codec SnapshotMeta⦄
    ⦃F : FileSystem⦄ where
  -- The state of a new leader, before its first entry.
  unfoldable pub take_leadership : Node → Node
  unfolding set_all
  take_leadership n = record n {
    role = leader;
    leader_id = n.id;
    leader_client_addr = n.self_client_addr;
    next_index = set_all n.peers (add64 n.log.last_index 1) n.next_index;
    match_index = set_all n.peers 0 n.match_index;
  }

  unfoldable pub become_leader : Transport → Node → Node
  unfolding take_leadership
  become_leader T n =
      if is_role n.role candidate
      then broadcast_append_entries T (append_local (take_leadership n) noop_entry).1
      else n
