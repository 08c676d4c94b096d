-- ===== src/Raft/Types.antt =====
-- The roles, messages and options of internal/raft/state.go, and the transport that carries them.
use distributed_kv.Common.{ℕ, Bool, Bytes, List, Result}
use distributed_kv.Raft.Entry.{Entry}

pub data Role : Type 0 where
  follower candidate leader : Role

unfoldable pub Role-discrete : Discrete Role
Role-discrete = hlevel

pub record RequestVoteRequest : Type 0 where
  pub term : ℕ
  pub candidate_id : Bytes
  pub last_log_index : ℕ
  pub last_log_term : ℕ

pub record RequestVoteResponse : Type 0 where
  pub term : ℕ
  pub vote_granted : Bool

pub record AppendEntriesRequest : Type 0 where
  pub term : ℕ
  pub leader_id : Bytes
  pub prev_log_index : ℕ
  pub prev_log_term : ℕ
  pub entries : List Entry
  pub leader_commit : ℕ
  pub leader_client_addr : Bytes

pub record AppendEntriesResponse : Type 0 where
  pub term : ℕ
  pub success : Bool
  pub conflict_term : ℕ
  pub conflict_index : ℕ

pub record InstallSnapshotRequest : Type 0 where
  pub term : ℕ
  pub leader_id : Bytes
  pub last_included_index : ℕ
  pub last_included_term : ℕ
  pub snapshot_bytes : Bytes

pub record InstallSnapshotResponse : Type 0 where
  pub term : ℕ

-- The answers that a node gets from its peers, by peer and request. An error stands for a peer
-- that cannot be reached.
pub record Transport : Type 0 where
  pub request_vote : Bytes → RequestVoteRequest → Result RequestVoteResponse
  pub append_entries : Bytes → AppendEntriesRequest → Result AppendEntriesResponse
  pub install_snapshot : Bytes → InstallSnapshotRequest → Result InstallSnapshotResponse

pub record PeerInfo : Type 0 where
  pub id : Bytes

-- Durations are numbers of nanoseconds.
pub record Options : Type 0 where
  pub election_timeout_min : ℕ
  pub election_timeout_max : ℕ
  pub heartbeat_interval : ℕ
  pub snapshot_threshold : ℕ
  pub replication_batch_max_entries : ℕ
  pub fsync_on_append : Bool
