-- ===== src/Raft/Election.antt =====
-- internal/raft/election.go: the candidate's round and the voter's answer.
pub mod Grants
pub mod Failures
pub mod Count
use distributed_kv.Common.{
  ℕ, suc, ◌+◌, ◌-◌, ◌/◌, Bool, true, false, List, [], ◌∷◌, Bytes, Option, none, some, Error, Result,
  ok, err, ltb, leb, ◌==◌, ◌&&◌, ◌||◌, not, if◌then◌else◌, eq_bytes, length,
}
use distributed_kv.Raft.Log.{PersistentLog, last_term}
use distributed_kv.Raft.Types.{
  Role, follower, candidate, leader, Transport, RequestVoteRequest, RequestVoteResponse,
}
use distributed_kv.Raft.State.{Node, current_term, is_leader, is_role, with_log}
use distributed_kv.Raft.Waiters.{fail_stale_writers}
use distributed_kv.Raft.Lifecycle.{
  reset_election_timer, become_follower, become_candidate, persist_vote,
}
use distributed_kv.Raft.Leader.{become_leader}
use distributed_kv.Storage.{Engine, Codec}
use distributed_kv.Kv.StateMachine.{Pairs}
use distributed_kv.Raft.Entry.{Entry}
use distributed_kv.Raft.SnapshotStore.{FileSystem, SnapshotMeta}

-- What the select of startElection meets: a peer's answer, the end of the attempt, or a handler
-- that runs in between.
pub data Arrival (N : Type 0) : Type 0 where
  answer : Result RequestVoteResponse → Arrival N
  timed_out stopping : Arrival N
  meanwhile : (N → N) → Arrival N

-- The voteResult that a vote goroutine sends.
pub record VoteResult : Type 0 where
  pub granted : Bool
  pub higher_term : ℕ

abbrev pub vote_result : ℕ → Result RequestVoteResponse → VoteResult
vote_result term (err _) = record { granted = false; higher_term = 0 }
vote_result term (ok resp) =
    if ltb term resp.term
    then record { granted = false; higher_term = resp.term }
    else record { granted = resp.vote_granted; higher_term = 0 }

-- total/2 + 1
abbrev pub needed_votes : ℕ → ℕ
needed_votes peers = (peers + 1) / 2 + 1

module _ ⦃E : Engine⦄ ⦃C : Codec Entry⦄ ⦃P : Codec Pairs⦄ ⦃M : Codec SnapshotMeta⦄
    ⦃F : FileSystem⦄ where
  -- `n.Role() == Candidate && n.log.CurrentTerm() == term`
  abbrev pub still_candidate : Node → ℕ → Bool
  still_candidate n term = is_role n.role candidate && (current_term n == term)

  -- The loop over the arrivals: whether the election is won, beside the node. `waiting` is the
  -- number of answers still to come.
  unfoldable pub collect_votes : Node → ℕ → ℕ → ℕ → ℕ → List (Arrival Node) → Bool × Node
  collect_votes n term needed votes waiting [] = (false, n)
  collect_votes n term needed votes waiting (timed_out ∷ rest) = (false, n)
  collect_votes n term needed votes waiting (stopping ∷ rest) = (false, n)
  collect_votes n term needed votes waiting (meanwhile f ∷ rest) =
      collect_votes (f n) term needed votes waiting rest
  collect_votes n term needed votes waiting (answer resp ∷ rest) =
      let r = vote_result term resp in
      let lost = collect_votes n term needed votes (waiting - 1) rest in
      let gained = collect_votes n term needed (votes + 1) (waiting - 1) rest in
      if waiting == 0
      then (false, n)
      else if ltb term r.higher_term
      then (false, become_follower n r.higher_term [] [])
      else if r.granted
      then if leb needed (votes + 1) && still_candidate n term then (true, n) else gained
      else lost

  -- The request that startElection sends to every peer.
  abbrev pub vote_request : Node → ℕ → RequestVoteRequest
  vote_request n term = record {
    term = term;
    candidate_id = n.id;
    last_log_index = n.log.last_index;
    last_log_term = last_term n.log;
  }

  -- `arrivals` are what the loop meets in turn, and `settle` is what other handlers do while the
  -- vote goroutines are joined.
  unfoldable pub start_election : Transport → Node → List (Arrival Node) → (Node → Node) → Node
  unfolding collect_votes
  start_election T n arrivals settle =
      let (term, n1) = become_candidate n in
      let n2 = reset_election_timer n1 in
      let needed = needed_votes (length n2.peers) in
      if needed == 1
      then become_leader T n2
      else let (won, n3) = collect_votes n2 term needed 1 (length n2.peers) arrivals in
        let n4 = settle n3 in if won && still_candidate n4 term then become_leader T n4 else n4

  unfoldable pub candidate_log_up_to_date : Node → ℕ → ℕ → Bool
  candidate_log_up_to_date n last_log_index last_log_term =
      let my_last_term = last_term n.log in
      if last_log_term == my_last_term
      then leb n.log.last_index last_log_index
      else ltb my_last_term last_log_term

  -- HandleRequestVote up to the vote: a higher term makes the node a follower with no vote.
  unfoldable pub observe_term : Node → ℕ → Node
  observe_term n term =
      if ltb (current_term n) term
      then (let n' = if is_leader n then fail_stale_writers n else n in
          persist_vote (record n' { role = follower; leader_id = []; leader_client_addr = [] }) term
            [])
      else n

  unfoldable pub handle_request_vote : Node → RequestVoteRequest → Node × RequestVoteResponse
  unfolding observe_term candidate_log_up_to_date
  handle_request_vote n req =
      if ltb req.term (current_term n)
      then (n, record { term = current_term n; vote_granted = false })
      else let settled = if ltb (current_term n) req.term then req.term else current_term n in
        let n1 = observe_term n req.term in
        let voted_for = n1.log.voted_for in
        let log_ok = candidate_log_up_to_date n1 req.last_log_index req.last_log_term in
        if (eq_bytes voted_for [] || eq_bytes voted_for req.candidate_id) && log_ok
        then (
          reset_election_timer (persist_vote n1 settled req.candidate_id),
          record { term = settled; vote_granted = true },
        )
        else (n1, record { term = settled; vote_granted = false })
