-- ===== src/Raft/Ballots/Races.antt =====
-- Races on the term and the vote of a node of internal/raft.
use distributed_kv.Common.{
  ℕ, [], ◌∷◌, subst, refl, Bytes, ◌+◌, ◌<◌, ◌≡◌, sym, ◌∙◌, true, arith, u64_mod, add64,
}
use distributed_kv.Storage.{Engine, Codec}
use distributed_kv.Kv.StateMachine.{Pairs}
use distributed_kv.Raft.Entry.{Entry}
use distributed_kv.Raft.SnapshotStore.{FileSystem, SnapshotMeta}
use distributed_kv.Raft.Types.{RequestVoteRequest}
use distributed_kv.Raft.State.{Node, current_term}
use distributed_kv.Raft.Election.{handle_request_vote, observe_term}
use distributed_kv.Raft.Waiters.{fail_stale_writers}
use distributed_kv.Raft.Election.Grants.{
  IsReliable, set_term_and_vote-ok, handle_request_vote-records,
}
use distributed_kv.Raft.Ballots.{
  Pending, candidacy, discovery, term_of, Part, finds_later, write_pending, Parts, none_yet,
  then_part, reads_term, writes,
}
use distributed_kv.Raft.Ballots.Handlers.{quiet, voter_of, Parts-then, handle_request_vote-Parts}

module _ ⦃E : Engine⦄ ⦃C : Codec Entry⦄ ⦃P : Codec Pairs⦄ ⦃M : Codec SnapshotMeta⦄
    ⦃F : FileSystem⦄ where
  id-handle_request_vote :
      (n : Node) (req : RequestVoteRequest) → (handle_request_vote n req).0.id ≡ n.id
  unfolding handle_request_vote observe_term fail_stale_writers
  id-handle_request_vote n req = ground arith

  -- A call that was decided on before the request and is made after it.
  late_call :
      (p : Pending) (n : Node) (req : RequestVoteRequest)
      → Part (voter_of [] n) (voter_of (p ∷ []) n)
      → term_of p < u64_mod
      → req.term < u64_mod
      → current_term n < u64_mod
      → Parts
          (voter_of [] n)
          (quiet [] n.id (write_pending n.id (handle_request_vote n req).0.log p))
  late_call p n req decided room fits now =
      subst
        (λ (id : Bytes).
          Parts (voter_of [] n)
            (quiet [] id (write_pending id (handle_request_vote n req).0.log p)))
        (id-handle_request_vote n req)
        (then_part
          (Parts-then (then_part (none_yet (voter_of [] n)) decided)
            (handle_request_vote-Parts (p ∷ []) n req fits now))
          (writes (voter_of (p ∷ []) (handle_request_vote n req).0) [] p [] refl room))

  -- If commits do not fail, and between the read of the term for a candidacy and its call of
  -- SetTermAndVote the node grants a request for the next term, which fits in 64 bits, then this
  -- is an interleaving of single reads and writes, the vote for the request's candidate stands
  -- until the call, and the call replaces it in the same term by a vote for the node itself.
  pub vote_overwritten :
      (n : Node) (req : RequestVoteRequest)
      → IsReliable E
      → current_term n + 1 < u64_mod
      → req.term ≡ current_term n + 1
      → (handle_request_vote n req).1.vote_granted ≡ true
      → let voted = (handle_request_vote n req).0.log in
        let stood = write_pending n.id voted (candidacy (add64 (current_term n) 1)) in
        Parts (voter_of [] n) (quiet [] n.id stood)
        × (voted.voted_for ≡ req.candidate_id)
        × (stood.current_term ≡ voted.current_term)
        × (stood.voted_for ≡ n.id)
  vote_overwritten n req r room next granted =
      let (t, v, _) = handle_request_vote-records n req r granted in
      let (t', v') =
        set_term_and_vote-ok (handle_request_vote n req).0.log (add64 (current_term n) 1) n.id r in
      let same : add64 (current_term n) 1 ≡ req.term = ground (arith, next) in
      (
        late_call (candidacy (add64 (current_term n) 1)) n req (reads_term (voter_of [] n))
            (omega arith) (omega arith) (omega arith),
        v,
        t' ∙ same ∙ sym t,
        v',
      )

  -- If commits do not fail, and between the test that a term is later than the node's own and the
  -- call of SetTermAndVote that follows from it the node grants a request for a still later term,
  -- which fits in 64 bits, then this is an interleaving of single reads and writes, the node is in
  -- the term of the request until the call, and the call takes it back to the earlier term and
  -- clears its vote.
  pub term_falls :
      (n : Node) (req : RequestVoteRequest) (term : ℕ)
      → IsReliable E
      → current_term n < term
      → term < req.term
      → req.term < u64_mod
      → (handle_request_vote n req).1.vote_granted ≡ true
      → let later = (handle_request_vote n req).0.log in
        let behind = write_pending n.id later (discovery term) in
        Parts (voter_of [] n) (quiet [] n.id behind)
        × (later.current_term ≡ req.term)
        × (behind.current_term ≡ term)
        × (behind.voted_for ≡ [])
  term_falls n req term r new behind fits granted =
      let (t, _, _) = handle_request_vote-records n req r granted in
      let (t', v') = set_term_and_vote-ok (handle_request_vote n req).0.log term [] r in
      (
        late_call (discovery term) n req
            (finds_later (voter_of [] n) term new (omega (arith, behind, fits)))
            (omega (arith, behind, fits)) fits (omega (arith, new, behind, fits)),
        t,
        t',
        v',
      )
