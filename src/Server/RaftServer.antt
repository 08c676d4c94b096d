-- ===== src/Server/RaftServer.antt =====
-- internal/server/raft_server.go: each remote call of a peer is one handler of the node.
use distributed_kv.Storage.{Engine, Codec}
use distributed_kv.Kv.StateMachine.{Pairs}
use distributed_kv.Raft.Entry.{Entry}
use distributed_kv.Raft.SnapshotStore.{FileSystem, SnapshotMeta}
use distributed_kv.Raft.State.{Node}
use distributed_kv.Raft.Election.{handle_request_vote}
use distributed_kv.Raft.Follower.{handle_append_entries}
use distributed_kv.Raft.Snapshot.{handle_install_snapshot}
use distributed_kv.Server.Wire.{
  PbRequestVoteRequest, PbRequestVoteResponse, PbAppendEntriesRequest, PbAppendEntriesResponse,
  PbInstallSnapshotRequest, PbInstallSnapshotResponse, from_pb_entries,
}

module _ ⦃E : Engine⦄ ⦃C : Codec Entry⦄ ⦃P : Codec Pairs⦄ ⦃M : Codec SnapshotMeta⦄
    ⦃F : FileSystem⦄ where
  unfoldable pub serve_request_vote : Node → PbRequestVoteRequest → Node × PbRequestVoteResponse
  serve_request_vote n req =
      let (n', resp) = handle_request_vote n (record {
        term = req.term;
        candidate_id = req.candidate_id;
        last_log_index = req.last_log_index;
        last_log_term = req.last_log_term;
      }) in
      (n', record { term = resp.term; vote_granted = resp.vote_granted })

  unfoldable pub serve_append_entries :
      Node → PbAppendEntriesRequest → Node × PbAppendEntriesResponse
  unfolding from_pb_entries
  serve_append_entries n req =
      let (n', resp) = handle_append_entries n (record {
        term = req.term;
        leader_id = req.leader_id;
        prev_log_index = req.prev_log_index;
        prev_log_term = req.prev_log_term;
        entries = from_pb_entries req.entries;
        leader_commit = req.leader_commit;
        leader_client_addr = req.leader_client_addr;
      }) in
      (
        n',
        record {
          term = resp.term;
          success = resp.success;
          conflict_term = resp.conflict_term;
          conflict_index = resp.conflict_index;
        },
      )

  unfoldable pub serve_install_snapshot :
      Node → PbInstallSnapshotRequest → Node × PbInstallSnapshotResponse
  serve_install_snapshot n req =
      let (n', resp) = handle_install_snapshot n (record {
        term = req.term;
        leader_id = req.leader_id;
        last_included_index = req.last_included_index;
        last_included_term = req.last_included_term;
        snapshot_bytes = req.snapshot_bytes;
      }) in
      (n', record { term = resp.term })
