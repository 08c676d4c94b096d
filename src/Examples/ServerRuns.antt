-- ===== src/Examples/ServerRuns.antt =====
-- The theorems on the servers and the configuration at concrete inputs.
use distributed_kv.Common.{
  ℕ, ◌+◌, ◌*◌, ◌<◌, ◌≡◌, refl, true, false, none, some, List, [], ◌∷◌, Bytes, codes, arith, ok, err,
  Error, not_found, bytes_discrete, ite,
}
use distributed_kv.Common.Map
use distributed_kv.Kv.StateMachine.{new_state_machine, apply_put, get_value}
use distributed_kv.Raft.Types.{
  RequestVoteRequest, AppendEntriesRequest, InstallSnapshotRequest, leader,
}
use distributed_kv.Raft.State.{Node, is_leader, current_term}
use distributed_kv.Raft.Waiters.{applied, begin_wait}
use distributed_kv.Raft.Log.Writes.{append_entries, encode_sets}
use distributed_kv.Raft.Election.{handle_request_vote}
use distributed_kv.Raft.Follower.{handle_append_entries}
use distributed_kv.Raft.Snapshot.{handle_install_snapshot}
use distributed_kv.Raft.ReadIndex.{
  Beat, answer, linearizable_read, confirm_leadership, collect_acks, on_heartbeat, drain,
}
use distributed_kv.Raft.ReadIndex.Acks.{acks}
use distributed_kv.Server.RaftServer.{
  serve_request_vote, serve_append_entries, serve_install_snapshot,
}
use distributed_kv.Server.Transport.{
  Grpc, GrpcTransport, new_grpc_transport, client, send_request_vote, send_append_entries,
  send_install_snapshot_rpc,
}
use distributed_kv.Server.Loopback.{transport-equals-handlers}
use distributed_kv.Server.ClientServer.{status_for, GetRequest, get}
use distributed_kv.Server.Reads.{get-confirmed}
use distributed_kv.Config.{
  Config, Peer, Sources, signed_lt, parse_peers, gather, validate, load, default_config,
}
use distributed_kv.Config.Text.{trim_space}
use distributed_kv.Config.Peers.{peers_text, parse_peers-peers_text}
use distributed_kv.Raft.Timer.{next_timeout}
use distributed_kv.Main.{options_of}
use distributed_kv.Main.Timeouts.{next_timeout-load}
use distributed_kv.Examples.Memory.{memory_commit, answer_of, run_ops}
use distributed_kv.Examples.Codecs.{entry_codec, pairs_codec, meta_codec}
use distributed_kv.Examples.Files.{memory_files}
use distributed_kv.Examples.Nodes.{engine, two_entries, node_with}

-- A network whose only peer is this follower.
abbrev voter : Node
voter = node_with false two_entries

instance abbrev loopback : Grpc
loopback = record {
  Conn = Bytes;
  new_client = λ addr. ok addr;
  close = λ conn. none;
  request_vote = λ conn req. ok (serve_request_vote voter req).1;
  append_entries = λ conn req. ok (serve_append_entries voter req).1;
  install_snapshot = λ conn req. ok (serve_install_snapshot voter req).1;
}

abbrev one_peer : GrpcTransport
one_peer = new_grpc_transport ((codes "n2", codes "n2:7000") ∷ [])

transport-equals-handlers_example :
    ((req : RequestVoteRequest)
      → (send_request_vote one_peer (codes "n2") req).0 ≡ ok (handle_request_vote voter req).1)
    × ((req : AppendEntriesRequest)
        → (send_append_entries one_peer (codes "n2") req).0
          ≡ ok (handle_append_entries voter req).1)
    × ((req : InstallSnapshotRequest)
        → (send_install_snapshot_rpc one_peer (codes "n2") req).0
          ≡ ok (handle_install_snapshot voter req).1)
unfolding client Map.lookup new_grpc_transport bytes_discrete
transport-equals-handlers_example =
    transport-equals-handlers one_peer (codes "n2") (codes "n2:7000") voter refl
      (record { votes = λ req. refl; appends = λ req. refl; installs = λ req. refl })

abbrev reading : Node
reading = record (node_with false two_entries) {
  role = leader;
  sm = (apply_put (new_state_machine []) 1 (codes "a") (codes "b")).1;
}

abbrev one_ack : List (Beat Node)
one_ack =
    answer (ok (record { term = 0; success = true; conflict_term = 0; conflict_index = 0 })) ∷ []

abbrev get_a : GetRequest
get_a = record { key = codes "a"; linearizable = true }

abbrev no_text : Error → Bytes
no_text e = []

get-confirmed_example :
    (is_leader reading ≡ true)
    × (2 + 1 < 2 * (1 + acks reading (current_term reading) 2 one_ack))
    × (get_value (get no_text reading one_ack (λ n. n) applied get_a).1.sm (codes "a")
        ≡ ok (some (get no_text reading one_ack (λ n. n) applied get_a).0.value))
unfolding append_entries encode_sets memory_commit get linearizable_read confirm_leadership
    collect_acks on_heartbeat drain begin_wait get_value answer_of apply_put run_ops Map.lookup
    Map.insert Map.delete bytes_discrete new_state_machine status_for
get-confirmed_example = get-confirmed no_text reading one_ack (λ n. n) applied get_a refl refl

abbrev two_peers : List Peer
two_peers =
    record { id = codes "n2"; raft_addr = codes "a:1"; client_addr = codes "a:2" }
    ∷ record { id = codes "n3"; raft_addr = codes "b:1"; client_addr = codes "b:2" }
    ∷ []

parse_peers-peers_text_example : parse_peers (peers_text two_peers) ≡ ok two_peers
parse_peers-peers_text_example = parse_peers-peers_text two_peers (
  record {
    id_plain = omega arith;
    raft_plain = omega arith;
    no_comma = omega arith;
    trimmed = unfold trim_space in refl;
  },
  (
    record {
      id_plain = omega arith;
      raft_plain = omega arith;
      no_comma = omega arith;
      trimmed = unfold trim_space in refl;
    },
    tt,
  ),
)

-- An environment that names the node and its addresses.
abbrev small_environment : Sources
small_environment = record {
  getenv = λ name. ite (bytes_discrete name (codes "NODE_ID")) (codes "n1") (
      ite (bytes_discrete name (codes "RAFT_ADDR")) (codes "a:1")
        (ite (bytes_discrete name (codes "CLIENT_ADDR")) (codes "a:2") []));
  read_file = λ path. err not_found;
  unmarshal = λ b cfg. ok cfg;
}

abbrev small_config : Config
small_config = record default_config {
  node_id = codes "n1";
  raft_addr = codes "a:1";
  client_addr = codes "a:2";
}

abbrev zero_draw : ℕ → ℕ
zero_draw span = 0

next_timeout-load_example :
    (signed_lt (next_timeout (options_of small_config) zero_draw) small_config.election_timeout_min
      ≡ false)
    × (signed_lt
          (next_timeout (options_of small_config) zero_draw)
          small_config.election_timeout_max
        ≡ true)
unfolding load gather validate default_config bytes_discrete
next_timeout-load_example =
    next_timeout-load small_environment small_config zero_draw refl (omega arith) (omega arith)
      (λ span lo hi. lo)
