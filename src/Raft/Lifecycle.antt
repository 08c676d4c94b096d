-- ===== src/Raft/Lifecycle.antt =====
-- The role changes of internal/raft/node_lifecycle.go that need no peer.
use distributed_kv.Common.{ℕ, true, [], Bytes, add64, ltb, if◌then◌else◌}
use distributed_kv.Raft.Log.Writes.{set_term_and_vote}
use distributed_kv.Raft.Types.{follower, candidate}
use distributed_kv.Raft.State.{Node, current_term, is_leader, with_log}
use distributed_kv.Raft.Waiters.{fail_stale_writers}
use distributed_kv.Storage.{Engine, Codec}
use distributed_kv.Kv.StateMachine.{Pairs}
use distributed_kv.Raft.Entry.{Entry}
use distributed_kv.Raft.SnapshotStore.{FileSystem, SnapshotMeta}

module _ ⦃E : Engine⦄ ⦃C : Codec Entry⦄ ⦃P : Codec Pairs⦄ ⦃M : Codec SnapshotMeta⦄
    ⦃F : FileSystem⦄ where
  -- A token in a channel of capacity one: a second send is dropped.
  abbrev pub reset_election_timer : Node → Node
  reset_election_timer n = record n { election_reset = true }

  abbrev pub signal_commit_advanced : Node → Node
  signal_commit_advanced n = record n { commit_advanced = true }

  -- `_ = n.log.SetTermAndVote(term, voted_for)`: the error is dropped.
  abbrev pub persist_vote : Node → ℕ → Bytes → Node
  persist_vote n term voted_for = with_log n (set_term_and_vote n.log term voted_for).1

  -- The test of the term and the write are not under the mutex of the node; Raft.Ballots has them as
  -- single steps. This is the function run alone.
  unfoldable pub become_follower : Node → ℕ → Bytes → Bytes → Node
  become_follower n term leader_id addr =
      let stepped = record n {
        role = follower;
        leader_id = leader_id;
        leader_client_addr = addr;
      } in
      let n' = if is_leader n then fail_stale_writers stepped else stepped in
      if ltb (current_term n') term then persist_vote n' term [] else n'

  -- The new term beside the node, where it runs alone: the read of the term and the write of the
  -- vote are not under the mutex of the node either.
  unfoldable pub become_candidate : Node → ℕ × Node
  become_candidate n =
      let new_term = add64 (current_term n) 1 in
      (
        new_term,
        record (persist_vote n new_term n.id) {
          role = candidate;
          leader_id = [];
          leader_client_addr = [];
        },
      )
