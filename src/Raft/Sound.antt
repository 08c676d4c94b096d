-- ===== src/Raft/Sound.antt =====
-- The log of a node of internal/raft when it stands as a candidate or accepts a leader, as sequential
-- functions.
pub mod First
use distributed_kv.Common.{◌<◌, ◌≡◌, [], arith, u64_mod, add64}
use distributed_kv.Storage.{Engine, Codec}
use distributed_kv.Kv.StateMachine.{Pairs}
use distributed_kv.Raft.Entry.{Entry}
use distributed_kv.Raft.SnapshotStore.{FileSystem, SnapshotMeta}
use distributed_kv.Raft.Log.Writes.{set_term_and_vote}
use distributed_kv.Raft.Log.Sound.{IsSound, set_term_and_vote-IsSound}
use distributed_kv.Raft.Types.{AppendEntriesRequest}
use distributed_kv.Raft.State.{Node, current_term}
use distributed_kv.Raft.Waiters.{fail_stale_writers}
use distributed_kv.Raft.Lifecycle.{become_candidate}
use distributed_kv.Raft.Follower.{accept_leader}

module _ ⦃E : Engine⦄ ⦃C : Codec Entry⦄ ⦃P : Codec Pairs⦄ ⦃M : Codec SnapshotMeta⦄
    ⦃F : FileSystem⦄ where
  pub become_candidate-IsSound : (n : Node) → IsSound n.log → IsSound (become_candidate n).1.log
  unfolding become_candidate
  become_candidate-IsSound n s =
      set_term_and_vote-IsSound n.log (add64 (current_term n) 1) n.id (omega arith) s

  pub accept_leader-IsSound :
      (n : Node) (req : AppendEntriesRequest)
      → req.term < u64_mod
      → IsSound n.log
      → IsSound (accept_leader n req).log
  unfolding accept_leader fail_stale_writers
  accept_leader-IsSound n req ht s =
      ground (arith, s, set_term_and_vote-IsSound n.log req.term [] ht s)

  pub boundary-accept_leader :
      (n : Node) (req : AppendEntriesRequest)
      → (accept_leader n req).log.last_included_index ≡ n.log.last_included_index
  unfolding accept_leader set_term_and_vote fail_stale_writers
  boundary-accept_leader n req = ground arith
