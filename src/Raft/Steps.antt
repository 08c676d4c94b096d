-- ===== src/Raft/Steps.antt =====
-- A node of internal/raft as a state machine: each step is one handler that runs to its end, with the
-- answers of the peers as an argument. What is drawn from it is about the fields that the handlers
-- touch under the mutex of the node, where a handler meets no other: the role, the waiting writers,
-- the commit index. The term and the vote, which are not, are those of Raft.Ballots.
use distributed_kv.Common.{ℕ, ◌+◌, ◌<◌, List, Bytes, Result, u64_mod}
use distributed_kv.Raft.Entry.{EntryType}
use distributed_kv.Raft.Types.{
  Transport, RequestVoteRequest, AppendEntriesRequest, AppendEntriesResponse,
  InstallSnapshotRequest,
}
use distributed_kv.Raft.State.{Node, current_term}
use distributed_kv.Raft.Lifecycle.{become_follower, become_candidate}
use distributed_kv.Raft.Snapshot.{handle_install_snapshot}
use distributed_kv.Raft.Replication.{
  on_append_response, try_advance_commit_index, broadcast_append_entries,
}
use distributed_kv.Raft.Follower.{handle_append_entries}
use distributed_kv.Raft.Leader.{become_leader}
use distributed_kv.Raft.Apply.{apply_committed}
use distributed_kv.Raft.Election.{handle_request_vote}
use distributed_kv.Raft.Propose.{begin_propose}
use distributed_kv.Storage.{Engine, Codec}
use distributed_kv.Kv.StateMachine.{Pairs}
use distributed_kv.Raft.Entry.{Entry}
use distributed_kv.Raft.SnapshotStore.{FileSystem, SnapshotMeta}

module _ ⦃E : Engine⦄ ⦃C : Codec Entry⦄ ⦃P : Codec Pairs⦄ ⦃M : Codec SnapshotMeta⦄
    ⦃F : FileSystem⦄ where
  pub data Step : Node → Node → Type 0 where
    vote : (n : Node) (req : RequestVoteRequest) → Step n (handle_request_vote n req).0
    append : (n : Node) (req : AppendEntriesRequest) → Step n (handle_append_entries n req).0
    install : (n : Node) (req : InstallSnapshotRequest) → Step n (handle_install_snapshot n req).0
    -- The term is not the last one that a uint64 holds.
    stand : (n : Node) → current_term n + 1 < u64_mod → Step n (become_candidate n).1
    step_down : (n : Node) (term : ℕ) (id addr : Bytes) → Step n (become_follower n term id addr)
    lead : (T : Transport) (n : Node) → Step n (become_leader T n)
    replicate : (T : Transport) (n : Node) → Step n (broadcast_append_entries T n)
    answered :
        (n : Node) (peer : Bytes) (term : ℕ) (es : List Entry) (r : Result AppendEntriesResponse)
        → Step n (on_append_response n peer term es r)
    advance : (n : Node) (term : ℕ) → Step n (try_advance_commit_index n term)
    apply : (n : Node) → Step n (apply_committed n)
    propose :
        (n : Node) (type : EntryType) (key value id : Bytes)
        → Step n (begin_propose n type key value id).1

  -- Any number of steps.
  pub data Reach : Node → Node → Type 0 where
    here : (n : Node) → Reach n n
    next : {a b c : Node} → Reach a b → Step b c → Reach a c
