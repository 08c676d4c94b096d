-- ===== src/Raft/Replication/Commit.antt =====
-- When tryAdvanceCommitIndex of internal/raft/replication.go commits.
use distributed_kv.Common.{
  ℕ, ◌*◌, ◌<◌, ◌≡◌, ◌⊎◌, inl, inr, true, ◌&&◌, some, arith, leb, ◌==◌, length, Bool-cases,
}
use distributed_kv.Raft.Log.{term_at}
use distributed_kv.Raft.State.{Node, current_term, is_leader}
use distributed_kv.Raft.Replication.{
  match_indexes, majority_index, try_advance_commit_index, is_term,
}
use distributed_kv.Raft.Replication.Majority.{count_ge, majority_index_lem}
use distributed_kv.Storage.{Engine, Codec}
use distributed_kv.Kv.StateMachine.{Pairs}
use distributed_kv.Raft.Entry.{Entry}
use distributed_kv.Raft.SnapshotStore.{FileSystem, SnapshotMeta}

module _ ⦃E : Engine⦄ ⦃C : Codec Entry⦄ ⦃P : Codec Pairs⦄ ⦃M : Codec SnapshotMeta⦄
    ⦃F : FileSystem⦄ where
  -- What a leader may commit: a later index that more than half of the cluster has reached, whose
  -- entry is of the leader's own term.
  pub record Committable (n : Node) (term index : ℕ) : Type 0 where
    pub leads : is_leader n ≡ true
    pub in_term : current_term n ≡ term
    pub later : n.commit_index < index
    pub majority : length (match_indexes n) < 2 * count_ge index (match_indexes n)
    pub own_term : term_at n.log index ≡ some term

  -- tryAdvanceCommitIndex either leaves the node as it is, or the node leads in the given term and
  -- it commits a later index that more than half of the cluster has reached and whose entry is of
  -- that term, and changes nothing else but the signal to the apply loop.
  pub try_advance_commit_index_lem :
      (n : Node) (term : ℕ)
      → (try_advance_commit_index n term ≡ n)
        ⊎ ((index : ℕ) × Committable n term index
            × (try_advance_commit_index n term
                ≡ record n { commit_index = index; commit_advanced = true }))
  unfolding try_advance_commit_index
  try_advance_commit_index_lem n term =
      elim (Bool-cases (is_leader n && (current_term n == term))) [
        | inr e ↦ inl (rw e)
        | inl e ↦ elim (Bool-cases (leb index n.commit_index)) [
          | inl l ↦ inl (rw (e, l))
          | inr l ↦ elim (Bool-cases (is_term (term_at n.log index) term)) [
            | inr t ↦ inl (rw (e, l, t))
            | inl t ↦ inr (
              index,
              record {
                leads = ground arith;
                in_term = ground arith;
                later = ground arith;
                majority = (majority_index_lem (match_indexes n) (omega arith)).0;
                own_term = ground arith;
              },
              rw (e, l, t),
            )
          ]
        ]
      ]
    where
      index : ℕ
      index = majority_index (match_indexes n)
