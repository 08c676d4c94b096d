-- ===== src/Server/Loopback.antt =====
-- The transport of internal/server/transport.go against the server of internal/server/raft_server.go.
use distributed_kv.Common.{◌≡◌, refl, ok, Bytes}
use distributed_kv.Storage.{Engine, Codec}
use distributed_kv.Kv.StateMachine.{Pairs}
use distributed_kv.Raft.Entry.{Entry}
use distributed_kv.Raft.SnapshotStore.{FileSystem, SnapshotMeta}
use distributed_kv.Raft.State.{Node}
use distributed_kv.Raft.Types.{RequestVoteRequest, AppendEntriesRequest, InstallSnapshotRequest}
use distributed_kv.Raft.Election.{handle_request_vote}
use distributed_kv.Raft.Follower.{handle_append_entries}
use distributed_kv.Raft.Snapshot.{handle_install_snapshot}
use distributed_kv.Server.Wire.{
  PbRequestVoteRequest, PbAppendEntriesRequest, PbInstallSnapshotRequest,
  from_pb_entries-to_pb_entries,
}
use distributed_kv.Server.RaftServer.{
  serve_request_vote, serve_append_entries, serve_install_snapshot,
}
use distributed_kv.Server.Transport.{
  Grpc, GrpcTransport, client, send_request_vote, send_append_entries, send_install_snapshot_rpc,
}

module _ ⦃E : Engine⦄ ⦃C : Codec Entry⦄ ⦃P : Codec Pairs⦄ ⦃M : Codec SnapshotMeta⦄ ⦃F : FileSystem⦄
    ⦃G : Grpc⦄ where
  -- The calls on a connection reach the server of the node, and its answers come back.
  pub record Serves (conn : Grpc.Conn G) (n : Node) : Type 0 where
    pub votes :
        (req : PbRequestVoteRequest)
        → Grpc.request_vote G conn req ≡ ok (serve_request_vote n req).1
    pub appends :
        (req : PbAppendEntriesRequest)
        → Grpc.append_entries G conn req ≡ ok (serve_append_entries n req).1
    pub installs :
        (req : PbInstallSnapshotRequest)
        → Grpc.install_snapshot G conn req ≡ ok (serve_install_snapshot n req).1

  -- If the transport has or gets a connection to a peer, and the calls on that connection reach
  -- the RaftServer of a node, then RequestVote, AppendEntries and InstallSnapshot of the transport
  -- return exactly what the node's handler answers to the request.
  pub transport-equals-handlers :
      (t : GrpcTransport) (peer : Bytes) (conn : Grpc.Conn G) (n : Node)
      → (client t peer).0 ≡ ok conn
      → Serves conn n
      → ((req : RequestVoteRequest)
          → (send_request_vote t peer req).0 ≡ ok (handle_request_vote n req).1)
        × ((req : AppendEntriesRequest)
            → (send_append_entries t peer req).0 ≡ ok (handle_append_entries n req).1)
        × ((req : InstallSnapshotRequest)
            → (send_install_snapshot_rpc t peer req).0 ≡ ok (handle_install_snapshot n req).1)
  unfolding send_request_vote send_append_entries send_install_snapshot_rpc serve_request_vote
      serve_append_entries serve_install_snapshot
  transport-equals-handlers t peer conn n c s = (
    λ req. rw (c, s.votes) refl,
    λ req. rw (c, s.appends, from_pb_entries-to_pb_entries) refl,
    λ req. rw (c, s.installs) refl,
  )
