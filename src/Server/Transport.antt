-- ===== src/Server/Transport.antt =====
-- GRPCTransport of internal/server/transport.go over the gRPC library, which is a parameter.
use distributed_kv.Common.{
  Option, none, some, [], ◌∷◌, ◌++◌, Bytes, bytes_discrete, codes, Error, other, Result, ok, err,
}
use distributed_kv.Common.Map
use distributed_kv.Common.Map.{Map}
use distributed_kv.Raft.Types.{
  RequestVoteRequest, RequestVoteResponse, AppendEntriesRequest, AppendEntriesResponse,
  InstallSnapshotRequest, InstallSnapshotResponse,
}
use distributed_kv.Server.Wire.{
  PbRequestVoteRequest, PbRequestVoteResponse, PbAppendEntriesRequest, PbAppendEntriesResponse,
  PbInstallSnapshotRequest, PbInstallSnapshotResponse, to_pb_entries,
}

-- grpc.NewClient, ClientConn.Close and the generated client: the answer to each remote call.
pub record Grpc : Type 1 where
  pub Conn : Type 0
  pub new_client : Bytes → Result Conn
  pub close : Conn → Option Error
  pub request_vote : Conn → PbRequestVoteRequest → Result PbRequestVoteResponse
  pub append_entries : Conn → PbAppendEntriesRequest → Result PbAppendEntriesResponse
  pub install_snapshot : Conn → PbInstallSnapshotRequest → Result PbInstallSnapshotResponse

module _ ⦃G : Grpc⦄ where
  pub record GrpcTransport : Type 0 where
    pub conns : Map Bytes (Grpc.Conn G)
    pub addrs : Map Bytes Bytes

  unfoldable pub new_grpc_transport : Map Bytes Bytes → GrpcTransport
  new_grpc_transport peer_raft_addrs = record { conns = []; addrs = peer_raft_addrs }

  abbrev pub dialed :
      GrpcTransport → Bytes → Result (Grpc.Conn G) → Result (Grpc.Conn G) × GrpcTransport
  dialed t peer (err e) = (err e, t)
  dialed t peer (ok conn) =
      (ok conn, record t { conns = Map.insert bytes_discrete peer conn t.conns })

  abbrev pub dial : GrpcTransport → Bytes → Option Bytes → Result (Grpc.Conn G) × GrpcTransport
  dial t peer none = (err (other (codes "transport: unknown peer " ++ peer)), t)
  dial t peer (some addr) = dialed t peer (Grpc.new_client G addr)

  abbrev pub reuse_or_dial :
      GrpcTransport → Bytes → Option (Grpc.Conn G) → Result (Grpc.Conn G) × GrpcTransport
  reuse_or_dial t peer (some conn) = (ok conn, t)
  reuse_or_dial t peer none = dial t peer (Map.lookup bytes_discrete peer t.addrs)

  -- The connection to a peer, from the cache or dialed now.
  unfoldable pub client : GrpcTransport → Bytes → Result (Grpc.Conn G) × GrpcTransport
  client t peer = reuse_or_dial t peer (Map.lookup bytes_discrete peer t.conns)

  -- The loop of Close: the first error of the connections.
  unfoldable pub first_error : Map Bytes (Grpc.Conn G) → Option Error → Option Error
  first_error [] found = found
  first_error ((_, conn) ∷ conns) (some e) = first_error conns (some e)
  first_error ((_, conn) ∷ conns) none = first_error conns (Grpc.close G conn)

  unfoldable pub close_transport : GrpcTransport → Option Error × GrpcTransport
  unfolding first_error
  close_transport t = (first_error t.conns none, record t { conns = [] })

  abbrev pub vote_answer : Result PbRequestVoteResponse → Result RequestVoteResponse
  vote_answer (err e) = err e
  vote_answer (ok resp) = ok (record { term = resp.term; vote_granted = resp.vote_granted })

  abbrev pub call_request_vote :
      Result (Grpc.Conn G) → RequestVoteRequest → Result RequestVoteResponse
  call_request_vote (err e) req = err e
  call_request_vote (ok conn) req = vote_answer (
      Grpc.request_vote G conn (record {
        term = req.term;
        candidate_id = req.candidate_id;
        last_log_index = req.last_log_index;
        last_log_term = req.last_log_term;
      }))

  unfoldable pub send_request_vote :
      GrpcTransport → Bytes → RequestVoteRequest → Result RequestVoteResponse × GrpcTransport
  unfolding client
  send_request_vote t peer req = let (conn, t') = client t peer in (call_request_vote conn req, t')

  abbrev pub append_answer : Result PbAppendEntriesResponse → Result AppendEntriesResponse
  append_answer (err e) = err e
  append_answer (ok resp) = ok (record {
    term = resp.term;
    success = resp.success;
    conflict_term = resp.conflict_term;
    conflict_index = resp.conflict_index;
  })

  abbrev pub call_append_entries :
      Result (Grpc.Conn G) → AppendEntriesRequest → Result AppendEntriesResponse
  call_append_entries (err e) req = err e
  call_append_entries (ok conn) req = append_answer (
      Grpc.append_entries G conn (record {
        term = req.term;
        leader_id = req.leader_id;
        prev_log_index = req.prev_log_index;
        prev_log_term = req.prev_log_term;
        entries = to_pb_entries req.entries;
        leader_commit = req.leader_commit;
        leader_client_addr = req.leader_client_addr;
      }))

  unfoldable pub send_append_entries :
      GrpcTransport → Bytes → AppendEntriesRequest → Result AppendEntriesResponse × GrpcTransport
  unfolding client to_pb_entries
  send_append_entries t peer req =
      let (conn, t') = client t peer in (call_append_entries conn req, t')

  abbrev pub install_answer : Result PbInstallSnapshotResponse → Result InstallSnapshotResponse
  install_answer (err e) = err e
  install_answer (ok resp) = ok (record { term = resp.term })

  abbrev pub call_install_snapshot :
      Result (Grpc.Conn G) → InstallSnapshotRequest → Result InstallSnapshotResponse
  call_install_snapshot (err e) req = err e
  call_install_snapshot (ok conn) req = install_answer (
      Grpc.install_snapshot G conn (record {
        term = req.term;
        leader_id = req.leader_id;
        last_included_index = req.last_included_index;
        last_included_term = req.last_included_term;
        snapshot_bytes = req.snapshot_bytes;
      }))

  unfoldable pub send_install_snapshot_rpc :
      GrpcTransport
      → Bytes
      → InstallSnapshotRequest
      → Result InstallSnapshotResponse × GrpcTransport
  unfolding client
  send_install_snapshot_rpc t peer req =
      let (conn, t') = client t peer in (call_install_snapshot conn req, t')
