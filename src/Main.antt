-- ===== src/Main.antt =====
-- cmd/node/main.go: how a node is put together from its configuration.
pub mod Timeouts
pub mod Serve
use distributed_kv.Common.{
  ℕ, Bytes, bytes_discrete, codes, List, [], ◌∷◌, Option, none, some, Error, Result, ok, err, ◌>>=◌,
  wrap_error, map,
}
use distributed_kv.Common.Map
use distributed_kv.Common.Map.{Map}
use distributed_kv.Storage.{Engine, Codec}
use distributed_kv.Kv.StateMachine.{Pairs, new_state_machine}
use distributed_kv.Raft.Entry.{Entry}
use distributed_kv.Raft.SnapshotStore.{FileSystem, SnapshotMeta}
use distributed_kv.Raft.Types.{PeerInfo, Options}
use distributed_kv.Raft.State.{Node, new_node}
use distributed_kv.Server.Transport.{Grpc, GrpcTransport, new_grpc_transport}
use distributed_kv.Config.{Config, Peer, Sources, load}

abbrev pub options_of : Config → Options
options_of cfg = record {
  election_timeout_min = cfg.election_timeout_min;
  election_timeout_max = cfg.election_timeout_max;
  heartbeat_interval = cfg.heartbeat_interval;
  snapshot_threshold = cfg.snapshot_threshold;
  replication_batch_max_entries = cfg.replication_batch_max_entries;
  fsync_on_append = cfg.fsync_on_append;
}

abbrev pub peer_infos : List Peer → List PeerInfo
peer_infos ps = map (λ (p : Peer). record { id = p.id }) ps

-- The loop that fills peerRaftAddrs.
unfoldable pub peer_raft_addrs : List Peer → Map Bytes Bytes → Map Bytes Bytes
peer_raft_addrs [] addrs = addrs
peer_raft_addrs (p ∷ ps) addrs =
    peer_raft_addrs ps (Map.insert bytes_discrete p.id p.raft_addr addrs)

module _ ⦃E : Engine⦄ ⦃C : Codec Entry⦄ ⦃P : Codec Pairs⦄ ⦃M : Codec SnapshotMeta⦄ ⦃F : FileSystem⦄
    ⦃G : Grpc⦄ where
  -- What the host offers: os.MkdirAll, filepath.Join, storage.OpenPebble and a directory of files.
  pub record Host : Type 0 where
    pub mkdir_all : Bytes → Option Error
    pub join : Bytes → Bytes → Bytes
    pub open_engine : Bytes → Result (Engine.Db E)
    pub directory : Bytes → FileSystem.Disk F

  abbrev pub made : Option Error → Result (Unit {0})
  made none = ok tt
  made (some e) = err e

  -- NewSnapshotStore of internal/raft/snapshot.go
  unfoldable pub new_snapshot_store : Host → Bytes → Result (FileSystem.Disk F)
  new_snapshot_store host dir = made (host.mkdir_all dir) >>= λ _. ok (host.directory dir)

  -- main up to `node.Start()`; log.Fatalf ends it with the error.
  unfoldable pub build : Host → Sources → Result (Node × GrpcTransport)
  unfolding peer_raft_addrs new_snapshot_store
  build host src = do
    cfg ← wrap_error (codes "config") (load src)
    _ ← wrap_error (codes "creating data dir") (made (host.mkdir_all cfg.data_dir))
    raft_engine ←
        wrap_error (codes "opening raft log storage")
          (host.open_engine (host.join cfg.data_dir (codes "raftlog")))
    kv_engine ←
        wrap_error (codes "opening kv storage")
          (host.open_engine (host.join cfg.data_dir (codes "kvdata")))
    snap_store ←
        wrap_error (codes "opening snapshot store")
          (new_snapshot_store host (host.join cfg.data_dir (codes "snapshots")))
    node ← wrap_error (codes "constructing raft node") (
        new_node cfg.node_id (peer_infos cfg.peers) (options_of cfg) raft_engine
          (new_state_machine kv_engine) snap_store cfg.client_addr)
    ok (node, new_grpc_transport (peer_raft_addrs cfg.peers []))
