-- ===== src/Raft/Ballots/Handlers.antt =====
-- The handlers of internal/raft that write the term and the vote, in the reads and writes they are
-- made of.
use distributed_kv.Common.{
  ℕ, ◌<◌, ◌≡◌, refl, inl, inr, ◌⊎◌, Bool, true, [], ◌∷◌, Bytes, arith, u64_mod, Bool-cases, dec_lt,
  lt→ltb, le→ltb, eq_bytes, bytes_discrete, ◌&&◌, ◌||◌, List, ltb, if◌then◌else◌,
}
use distributed_kv.Storage.{Engine, Codec}
use distributed_kv.Kv.StateMachine.{Pairs}
use distributed_kv.Raft.Entry.{Entry}
use distributed_kv.Raft.SnapshotStore.{FileSystem, SnapshotMeta}
use distributed_kv.Raft.Log.{PersistentLog}
use distributed_kv.Raft.Log.Writes.{set_term_and_vote}
use distributed_kv.Raft.Types.{RequestVoteRequest}
use distributed_kv.Raft.State.{Node, current_term}
use distributed_kv.Raft.Waiters.{fail_stale_writers}
use distributed_kv.Raft.Election.{observe_term, handle_request_vote, candidate_log_up_to_date}
use distributed_kv.Raft.Ballots.{
  Pending, discovery, ballot, Voter, finds_later, finds_free, writes, Parts, none_yet, then_part,
}

module _ ⦃E : Engine⦄ ⦃C : Codec Entry⦄ where
  abbrev pub quiet : List Pending → Bytes → PersistentLog → Voter
  quiet rest id log = record { id = id; log = log; pending = rest }

  pub Parts-then : {u v w : Voter} → Parts u v → Parts v w → Parts u w
  Parts-then ps (none_yet v) = ps
  Parts-then ps (then_part qs q) = then_part (Parts-then ps qs) q

  discovery-Parts :
      (rest : List Pending) (id : Bytes) (log : PersistentLog) (term : ℕ) {u : Voter}
      → log.current_term < term
      → term < u64_mod
      → Parts u (quiet rest id log)
      → Parts u (quiet rest id (set_term_and_vote log term []).1)
  discovery-Parts rest id log term lt fits ps =
      then_part (then_part ps (finds_later (quiet rest id log) term lt fits)) (
        writes (record (quiet rest id log) { pending = discovery term ∷ rest }) [] (discovery term)
          rest refl fits)

  ballot-Parts :
      (rest : List Pending) (id : Bytes) (log : PersistentLog) (term : ℕ) (candidate : Bytes)
      {u : Voter}
      → (log.voted_for ≡ []) ⊎ (log.voted_for ≡ candidate)
      → term < u64_mod
      → Parts u (quiet rest id log)
      → Parts u (quiet rest id (set_term_and_vote log term candidate).1)
  ballot-Parts rest id log term candidate free fits ps =
      then_part (then_part ps (finds_free (quiet rest id log) term candidate free fits)) (
        writes (record (quiet rest id log) { pending = ballot term candidate ∷ rest }) []
          (ballot term candidate) rest refl fits)

module _ ⦃E : Engine⦄ ⦃C : Codec Entry⦄ ⦃P : Codec Pairs⦄ ⦃M : Codec SnapshotMeta⦄
    ⦃F : FileSystem⦄ where
  -- The node beside the calls that other handlers are about to make.
  abbrev pub voter_of : List Pending → Node → Voter
  voter_of rest n = quiet rest n.id n.log

  observe_term-Parts :
      (rest : List Pending) (n : Node) (term : ℕ)
      → term < u64_mod
      → Parts (voter_of rest n) (voter_of rest (observe_term n term))
  unfolding observe_term fail_stale_writers
  observe_term-Parts rest n term fits = ground (
    arith,
    none_yet (voter_of rest n),
    λ (lt : n.log.current_term < term).
        discovery-Parts rest n.id n.log term lt fits (none_yet (voter_of rest n)),
  )

  pub handle_request_vote-Parts :
      (rest : List Pending) (n : Node) (req : RequestVoteRequest)
      → req.term < u64_mod
      → current_term n < u64_mod
      → Parts (voter_of rest n) (voter_of rest (handle_request_vote n req).0)
  unfolding handle_request_vote
  handle_request_vote-Parts rest n req fits now = elim (dec_lt req.term (current_term n)) [
    | yes old ↦ rw (lt→ltb _ _ old) (none_yet (voter_of rest n))
    | no new ↦
        let seen = observe_term-Parts rest n req.term fits in
        elim (Bool-cases granted) [
          | inr e ↦ rw (le→ltb req.term (current_term n) (omega arith), e) seen
          | inl e ↦
              let settled_fits : settled < u64_mod = ground arith in
              rw (le→ltb req.term (current_term n) (omega arith), e)
                (ballot-Parts rest n1.id n1.log settled req.candidate_id (free e) settled_fits seen)
        ]
  ]
    where
      n1 : Node
      n1 = observe_term n req.term

      settled : ℕ
      settled = if ltb (current_term n) req.term then req.term else current_term n

      log_ok : Bool
      log_ok = candidate_log_up_to_date n1 req.last_log_index req.last_log_term

      granted : Bool
      granted =
          (eq_bytes n1.log.voted_for [] || eq_bytes n1.log.voted_for req.candidate_id) && log_ok

      free : granted ≡ true → (n1.log.voted_for ≡ []) ⊎ (n1.log.voted_for ≡ req.candidate_id)
      free e = elim (bytes_discrete n1.log.voted_for []) [
        | yes p ↦ inl p
        | no p ↦ elim (bytes_discrete n1.log.voted_for req.candidate_id) [
          | yes q ↦ inr q
          | no q ↦ absurd (ground arith)
        ]
      ]
