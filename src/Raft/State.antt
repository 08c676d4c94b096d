-- ===== src/Raft/State.antt =====
-- The Node of internal/raft/state.go and its construction.
use distributed_kv.Common.{
  ℕ, Bool, true, false, Option, none, some, List, [], Bytes, Error, Result, ok, err, ◌>>=◌,
}
use distributed_kv.Common.Map.{Map}
use distributed_kv.Storage.{Engine, Codec}
use distributed_kv.Kv.StateMachine.{StateMachine, Snapshot, Pairs, restore}
use distributed_kv.Raft.Entry.{Entry}
use distributed_kv.Raft.Log.{PersistentLog, open_persistent_log}
use distributed_kv.Raft.SnapshotStore.{FileSystem, SnapshotMeta, load_latest}
use distributed_kv.Raft.Types.{Role, follower, candidate, leader, PeerInfo, Options}

-- `done` names the channel that is closed when the read may go on.
pub record PendingRead : Type 0 where
  pub read_index : ℕ
  pub done : ℕ

abbrev pub is_role : Role → Role → Bool
is_role follower follower = true
is_role candidate candidate = true
is_role leader leader = true
is_role _ _ = false

-- m[k] of a Go map with numbers: 0 for a missing key.
abbrev pub or_zero : Option ℕ → ℕ
or_zero none = 0
or_zero (some n) = n

module _ ⦃E : Engine⦄ ⦃C : Codec Entry⦄ ⦃P : Codec Pairs⦄ ⦃M : Codec SnapshotMeta⦄
    ⦃F : FileSystem⦄ where
  -- The channels are numbers: `next_channel` is the next fresh one, `closed` are those that were
  -- closed, and `delivered` are the messages sent, the latest first. A channel of capacity one
  -- that only wakes a loop is the Boolean that says whether a token waits in it.
  pub record Node : Type 0 where
    pub id : Bytes
    pub peers : List PeerInfo
    pub opts : Options
    pub log : PersistentLog
    pub sm : StateMachine
    pub snap_store : FileSystem.Disk F
    pub role : Role
    pub commit_index : ℕ
    pub last_applied : ℕ
    pub next_index : Map Bytes ℕ
    pub match_index : Map Bytes ℕ
    pub leader_id : Bytes
    pub leader_client_addr : Bytes
    pub self_client_addr : Bytes
    pub election_reset : Bool
    pub commit_advanced : Bool
    pub pending_reads : List PendingRead
    pub write_waiters : Map ℕ ℕ
    pub next_channel : ℕ
    pub closed : List ℕ
    pub delivered : List (ℕ × Option Error)

  abbrev pub current_term : Node → ℕ
  current_term n = n.log.current_term

  abbrev pub is_leader : Node → Bool
  is_leader n = is_role n.role leader

  -- LeaderHint
  abbrev pub leader_hint : Node → Bytes
  leader_hint n = n.leader_client_addr

  abbrev pub with_role : Node → Role → Node
  with_role n role = record n { role = role }

  abbrev pub with_log : Node → PersistentLog → Node
  with_log n log = record n { log = log }

  abbrev pub restored : Node → Result (Option (Snapshot × SnapshotMeta)) → Result Node
  restored n (err e) = err e
  restored n (ok none) = ok n
  restored n (ok (some (snap, meta))) = after (restore n.sm snap meta.last_included_index)
    where
      after : Option Error × StateMachine → Result Node
      after (some e, _) = err e
      after (none, sm) = ok (record n {
        sm = sm;
        last_applied = meta.last_included_index;
        commit_index = meta.last_included_index;
      })

  -- The node before a local snapshot is looked for.
  abbrev pub fresh_node :
      Bytes
      → List PeerInfo
      → Options
      → PersistentLog
      → StateMachine
      → FileSystem.Disk F
      → Bytes
      → Node
  fresh_node id peers opts log sm disk addr = record {
    id = id;
    peers = peers;
    opts = opts;
    log = log;
    sm = sm;
    snap_store = disk;
    role = follower;
    commit_index = 0;
    last_applied = 0;
    next_index = [];
    match_index = [];
    leader_id = [];
    leader_client_addr = [];
    self_client_addr = addr;
    election_reset = false;
    commit_advanced = false;
    pending_reads = [];
    write_waiters = [];
    next_channel = 0;
    closed = [];
    delivered = [];
  }

  unfoldable pub new_node :
      Bytes
      → List PeerInfo
      → Options
      → Engine.Db E
      → StateMachine
      → FileSystem.Disk F
      → Bytes
      → Result Node
  new_node id peers opts db sm disk addr = open_persistent_log db >>= λ log.
      restored (fresh_node id peers opts log sm disk addr) (load_latest disk)
