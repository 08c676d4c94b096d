-- ===== src/Raft/Election/Count.antt =====
-- How many votes win an election of internal/raft/election.go.
use distributed_kv.Common.{
  ℕ, suc, ◌+◌, ◌-◌, ◌≤◌, ◌<◌, ◌≡◌, true, List, [], ◌∷◌, arith, ◌==◌, if◌then◌else◌,
}
use distributed_kv.Raft.State.{Node}
use distributed_kv.Raft.Election.{
  Arrival, answer, timed_out, stopping, meanwhile, vote_result, collect_votes, still_candidate,
  needed_votes,
}
use distributed_kv.Storage.{Engine, Codec}
use distributed_kv.Kv.StateMachine.{Pairs}
use distributed_kv.Raft.Entry.{Entry}
use distributed_kv.Raft.SnapshotStore.{FileSystem, SnapshotMeta}

-- The granted votes among the first `waiting` answers.
pub granted_votes : {N : Type 0} → ℕ → ℕ → List (Arrival N) → ℕ
granted_votes term waiting [] = 0
granted_votes term waiting (answer r ∷ rest) =
    let later = granted_votes term (waiting - 1) rest in
    if waiting == 0 then 0 else if (vote_result term r).granted then suc later else later
granted_votes term waiting (meanwhile f ∷ rest) = granted_votes term waiting rest
granted_votes term waiting (timed_out ∷ rest) = 0
granted_votes term waiting (stopping ∷ rest) = 0

-- Twice the votes that startElection needs is more than the number of nodes, so any two sets of so
-- many votes share a node.
pub needed_votes_majority : (peers : ℕ) → peers + 1 < needed_votes peers + needed_votes peers
needed_votes_majority peers = omega arith

module _ ⦃E : Engine⦄ ⦃C : Codec Entry⦄ ⦃P : Codec Pairs⦄ ⦃M : Codec SnapshotMeta⦄
    ⦃F : FileSystem⦄ where
  -- If the loop of startElection ends with a win, then the votes at hand and the granted ones
  -- among the answers that it waits for are at least the needed ones, and the node is still a
  -- candidate of that term.
  pub collect_votes-won :
      (n : Node) (term needed votes waiting : ℕ) (arrivals : List (Arrival Node))
      → (collect_votes n term needed votes waiting arrivals).0 ≡ true
      → (needed ≤ votes + granted_votes term waiting arrivals)
        × (still_candidate (collect_votes n term needed votes waiting arrivals).1 term ≡ true)
  unfolding collect_votes granted_votes
  collect_votes-won n term needed votes waiting [] h = cc
  collect_votes-won n term needed votes waiting (timed_out ∷ rest) h = cc
  collect_votes-won n term needed votes waiting (stopping ∷ rest) h = cc
  collect_votes-won n term needed votes waiting (meanwhile f ∷ rest) h =
      collect_votes-won (f n) term needed votes waiting rest h
  collect_votes-won n term needed votes waiting (answer r ∷ rest) h = ground (
    arith,
    collect_votes-won n term needed votes (waiting - 1) rest,
    collect_votes-won n term needed (votes + 1) (waiting - 1) rest,
  )
