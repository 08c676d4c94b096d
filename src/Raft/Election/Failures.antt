-- ===== src/Raft/Election/Failures.antt =====
-- What HandleRequestVote of internal/raft/election.go answers when its writes fail.
use distributed_kv.Common.{
  ℕ, ◌≤◌, ◌≡◌, refl, ◌∙◌, inl, inr, true, [], ◌∷◌, put_uint64, Bool-cases, arith, ltb, le→ltb,
  if◌then◌else◌, Bytes,
}
use distributed_kv.Storage.{set}
use distributed_kv.Raft.Log.{PersistentLog, key_term, key_voted_for}
use distributed_kv.Raft.Log.Writes.{set_term_and_vote}
use distributed_kv.Raft.Types.{RequestVoteRequest}
use distributed_kv.Raft.State.{Node, current_term, is_leader}
use distributed_kv.Raft.Waiters.{fail_stale_writers}
use distributed_kv.Raft.Election.{handle_request_vote, observe_term}
use distributed_kv.Raft.Election.Grants.{
  IsBroken, UpToDate, answered, free_and_up_to_date, free_and_up_to_date_iff,
}
use distributed_kv.Storage.{Engine, Codec}
use distributed_kv.Kv.StateMachine.{Pairs}
use distributed_kv.Raft.Entry.{Entry}
use distributed_kv.Raft.SnapshotStore.{FileSystem, SnapshotMeta}

module _ ⦃E : Engine⦄ ⦃C : Codec Entry⦄ ⦃P : Codec Pairs⦄ ⦃M : Codec SnapshotMeta⦄
    ⦃F : FileSystem⦄ where
  -- A failed write leaves the term and the vote.
  unwritten :
      (pl : PersistentLog) (term : ℕ) (id : Bytes)
      → IsBroken E
      → let pl' = (set_term_and_vote pl term id).1 in
        (pl'.current_term ≡ pl.current_term) × (pl'.voted_for ≡ pl.voted_for)
  unfolding set_term_and_vote
  unwritten pl term id b =
      let (x, e) =
        b.commits_fail pl.engine (set key_term (put_uint64 term) ∷ set key_voted_for id ∷ [])
          (record { sync = true }) in
      rw e (refl, refl)

  unobserved :
      (n : Node) (term : ℕ)
      → IsBroken E
      → (current_term (observe_term n term) ≡ current_term n)
        × ((observe_term n term).log.voted_for ≡ n.log.voted_for)
  unfolding observe_term fail_stale_writers
  unobserved n term b = elim (Bool-cases (ltb (current_term n) term)) [
    | inl e ↦ elim (Bool-cases (is_leader n)) [
      | inl l ↦ rw (e, l) (unwritten n.log term [] b)
      | inr l ↦ rw (e, l) (unwritten n.log term [] b)
    ]
    | inr e ↦ rw e (refl, refl)
  ]

  -- The handler leaves the term and the vote too.
  unrecorded :
      (n : Node) (req : RequestVoteRequest)
      → IsBroken E
      → current_term n ≤ req.term
      → ((handle_request_vote n req).0.log.current_term ≡ current_term n)
        × ((handle_request_vote n req).0.log.voted_for ≡ n.log.voted_for)
  unfolding handle_request_vote
  unrecorded n req b le =
      let (t, v) = unobserved n req.term b in
      elim (Bool-cases (free_and_up_to_date (observe_term n req.term) req)) [
        | inl e ↦
            rw (le→ltb req.term (current_term n) le, e)
              (let (t', v') =
                  unwritten (observe_term n req.term).log
                    (if ltb (current_term n) req.term then req.term else current_term n)
                    req.candidate_id b in
                (t' ∙ t, v' ∙ v))
        | inr e ↦ rw (le→ltb req.term (current_term n) le, e) (t, v)
      ]

  granted :
      (n : Node) (req : RequestVoteRequest)
      → IsBroken E
      → n.log.voted_for ≡ []
      → current_term n ≤ req.term
      → UpToDate (observe_term n req.term).log req
      → (handle_request_vote n req).1.vote_granted ≡ true
  granted n req b v le u =
      answered n req le
      ∙ (free_and_up_to_date_iff (observe_term n req.term) req).1
          (inl ((unobserved n req.term b).1 ∙ v), u)

  -- If all commits of the engine fail, a node that has not voted, and whose log is not ahead of
  -- either candidate's, grants its vote to two requests of one term, not below its own, one after
  -- the other.
  pub double_vote :
      (n : Node) (first second : RequestVoteRequest)
      → IsBroken E
      → n.log.voted_for ≡ []
      → current_term n ≤ first.term
      → second.term ≡ first.term
      → UpToDate (observe_term n first.term).log first
      → UpToDate (observe_term (handle_request_vote n first).0 second.term).log second
      → ((handle_request_vote n first).1.vote_granted ≡ true)
        × ((handle_request_vote (handle_request_vote n first).0 second).1.vote_granted ≡ true)
  double_vote n first second b v le same u w =
      let (t, x) = unrecorded n first b le in
      (
        granted n first b v le u,
        granted (handle_request_vote n first).0 second b (x ∙ v) (omega arith) w,
      )
