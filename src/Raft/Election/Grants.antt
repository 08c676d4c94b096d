-- ===== src/Raft/Election/Grants.antt =====
-- When HandleRequestVote of internal/raft/election.go grants a vote, and what it leaves.
use distributed_kv.Common.{
  ℕ, ◌≤◌, ◌<◌, ◌≡◌, refl, sym, ap, ◌∙◌, ◌↔◌, ◌⊎◌, inl, inr, Bool, true, false, ◌&&◌, ◌||◌, none,
  some, List, [], Bytes, arith, Error, ok, ltb, Bool-cases, dec_lt, lt→ltb, le→ltb, eq_bytes,
  le→ltb, eq_bytes, u64_mod, if◌then◌else◌, bytes_discrete,
}
use distributed_kv.Storage.{BatchOp, WriteOptions}
use distributed_kv.Raft.Log.{PersistentLog, last_term, open_persistent_log}
use distributed_kv.Raft.Log.Writes.{set_term_and_vote}
use distributed_kv.Raft.Log.Valid.{IsValid}
use distributed_kv.Raft.Log.Preserve.{set_term_and_vote-IsValid}
use distributed_kv.Raft.Log.Recover.{IsReadable, open-recovers}
use distributed_kv.Raft.Types.{RequestVoteRequest, RequestVoteResponse}
use distributed_kv.Raft.State.{Node, current_term, is_leader}
use distributed_kv.Raft.Waiters.{fail_stale_writers}
use distributed_kv.Raft.Election.{handle_request_vote, observe_term, candidate_log_up_to_date}
use distributed_kv.Storage.{Engine, Codec}
use distributed_kv.Kv.StateMachine.{Pairs}
use distributed_kv.Raft.Entry.{Entry}
use distributed_kv.Raft.SnapshotStore.{FileSystem, SnapshotMeta}

-- An engine whose commits and reads do not fail.
pub record IsReliable (E : Engine) : Type 0 where
  pub commits :
      (d : Engine.Db E) (b : List BatchOp) (o : WriteOptions) → (Engine.commit E d b o).0 ≡ none
  pub readable : (d : Engine.Db E) → IsReadable ⦃E = E⦄ d

-- An engine whose commits all fail.
pub record IsBroken (E : Engine) : Type 0 where
  pub commits_fail :
      (d : Engine.Db E) (b : List BatchOp) (o : WriteOptions)
      → (x : Error) × ((Engine.commit E d b o).0 ≡ some x)

module _ ⦃E : Engine⦄ ⦃C : Codec Entry⦄ where
  pub set_term_and_vote-ok :
      (pl : PersistentLog) (term : ℕ) (id : Bytes)
      → IsReliable E
      → let pl' = (set_term_and_vote pl term id).1 in
        (pl'.current_term ≡ term) × (pl'.voted_for ≡ id)
  unfolding set_term_and_vote
  set_term_and_vote-ok pl term id r = rw (r.commits pl.engine _ _) (refl, refl)

module _ ⦃E : Engine⦄ ⦃C : Codec Entry⦄ ⦃P : Codec Pairs⦄ ⦃M : Codec SnapshotMeta⦄
    ⦃F : FileSystem⦄ where
  -- Raft's comparison of logs: a later last term, or the same one and a log that is not shorter.
  abbrev pub UpToDate : PersistentLog → RequestVoteRequest → Type 0
  UpToDate log req =
      (last_term log < req.last_log_term)
      ⊎ ((req.last_log_term ≡ last_term log) × (log.last_index ≤ req.last_log_index))

  candidate_log_up_to_date_iff :
      (n : Node) (req : RequestVoteRequest)
      → (candidate_log_up_to_date n req.last_log_index req.last_log_term ≡ true)
        ↔ UpToDate n.log req
  unfolding candidate_log_up_to_date
  candidate_log_up_to_date_iff n req =
      (λ h. forth (dec_lt (last_term n.log) req.last_log_term) h, λ h. ground arith)
    where
      forth :
          Dec (last_term n.log < req.last_log_term)
          → candidate_log_up_to_date n req.last_log_index req.last_log_term ≡ true
          → UpToDate n.log req
      forth (yes p) h = inl p
      forth (no p) h = inr (ground arith)

  -- Who may get the vote of a node in its own term.
  abbrev pub FreeFor : PersistentLog → Bytes → Type 0
  FreeFor log id = (log.voted_for ≡ []) ⊎ (log.voted_for ≡ id)

  -- A request of an older term is refused, and changes nothing.
  pub handle_request_vote-stale :
      (n : Node) (req : RequestVoteRequest)
      → req.term < current_term n
      → handle_request_vote n req ≡ (n, record { term = current_term n; vote_granted = false })
  unfolding handle_request_vote
  handle_request_vote-stale n req h = rw (lt→ltb _ _ h)

  refused :
      (n : Node) (req : RequestVoteRequest)
      → req.term < current_term n
      → (handle_request_vote n req).1.vote_granted ≡ true
      → ⊥
  refused n req p h = cc (
    h,
    ap (λ (o : Node × RequestVoteResponse). o.1.vote_granted) (handle_request_vote-stale n req p),
  )

  -- The test of the handler once the term is settled.
  abbrev pub free_and_up_to_date : Node → RequestVoteRequest → Bool
  free_and_up_to_date n req =
      (eq_bytes n.log.voted_for [] || eq_bytes n.log.voted_for req.candidate_id)
      && candidate_log_up_to_date n req.last_log_index req.last_log_term

  pub free_and_up_to_date_iff :
      (n : Node) (req : RequestVoteRequest)
      → (free_and_up_to_date n req ≡ true) ↔ (FreeFor n.log req.candidate_id × UpToDate n.log req)
  free_and_up_to_date_iff n req = (
    λ h. (free h, (candidate_log_up_to_date_iff n req).0 (ground arith)),
    λ (f, u). back f ((candidate_log_up_to_date_iff n req).1 u),
  )
    where
      free : free_and_up_to_date n req ≡ true → FreeFor n.log req.candidate_id
      free h = elim (bytes_discrete n.log.voted_for []) [
        | yes p ↦ inl p
        | no p ↦ elim (bytes_discrete n.log.voted_for req.candidate_id) [
          | yes q ↦ inr q
          | no q ↦ ground arith
        ]
      ]

      back :
          FreeFor n.log req.candidate_id
          → candidate_log_up_to_date n req.last_log_index req.last_log_term ≡ true
          → free_and_up_to_date n req ≡ true
      back f u = ground arith

  -- A node of an older term starts the new one with a free vote; one of the same term stays as it is.
  observe_term-free :
      (n : Node) (term : ℕ) (id : Bytes)
      → IsReliable E
      → current_term n ≤ term
      → FreeFor (observe_term n term).log id ↔ (term ≡ current_term n → FreeFor n.log id)
  unfolding observe_term fail_stale_writers
  observe_term-free n term id r le = elim (dec_lt (current_term n) term) [
    | yes p ↦
        let (t, v) = set_term_and_vote-ok n.log term [] r in
        (
          λ f e. absurd (omega arith),
          λ f.
              rw (lt→ltb _ _ p)
                (inl (elim (Bool-cases (is_leader n)) [ inl e ↦ rw e v | inr e ↦ rw e v ])),
        )
    | no p ↦ rw (le→ltb (current_term n) term (omega arith)) (λ f e. f, λ f. f (omega arith))
  ]

  pub answered :
      (n : Node) (req : RequestVoteRequest)
      → current_term n ≤ req.term
      → (handle_request_vote n req).1.vote_granted
        ≡ free_and_up_to_date (observe_term n req.term) req
  unfolding handle_request_vote
  answered n req le = elim (Bool-cases (free_and_up_to_date (observe_term n req.term) req)) [
    | inl e ↦ rw (le→ltb req.term (current_term n) le, e)
    | inr e ↦ rw (le→ltb req.term (current_term n) le, e)
  ]

  -- If the engine's commits and reads do not fail, HandleRequestVote grants the vote exactly if
  -- the request is not of an older term, the vote is free or already the candidate's in case the
  -- term is the node's own, and the candidate's last term is later, or is the same with a last
  -- index that is not lower.
  pub handle_request_vote-grants_iff :
      (n : Node) (req : RequestVoteRequest)
      → IsReliable E
      → ((handle_request_vote n req).1.vote_granted ≡ true) ↔ (
          (current_term n ≤ req.term)
          × (req.term ≡ current_term n → FreeFor n.log req.candidate_id)
          × UpToDate (observe_term n req.term).log req)
  handle_request_vote-grants_iff n req r = elim (dec_lt req.term (current_term n)) [
    | yes p ↦ (λ h. absurd (refused n req p h), λ (le, _, _). absurd (omega arith))
    | no p ↦
        let le : current_term n ≤ req.term = omega arith in
        let free = observe_term-free n req.term req.candidate_id r le in
        let test = free_and_up_to_date_iff (observe_term n req.term) req in
        (
          λ h. let (f, u) = test.0 (sym (answered n req le) ∙ h) in (le, free.0 f, u),
          λ (_, f, u). answered n req le ∙ test.1 (free.1 f, u),
        )
  ]

  -- A vote that is granted is in the log, in the term of the request.
  pub handle_request_vote-records :
      (n : Node) (req : RequestVoteRequest)
      → IsReliable E
      → (handle_request_vote n req).1.vote_granted ≡ true
      → ((handle_request_vote n req).0.log.current_term ≡ req.term)
        × ((handle_request_vote n req).0.log.voted_for ≡ req.candidate_id)
        × ((handle_request_vote n req).0.election_reset ≡ true)
  unfolding handle_request_vote
  handle_request_vote-records n req r h = elim (dec_lt req.term (current_term n)) [
    | yes p ↦ absurd (refused n req p h)
    | no p ↦
        let le : current_term n ≤ req.term = omega arith in
        let e = sym (answered n req le) ∙ h in
        let settled : ℕ = if ltb (current_term n) req.term then req.term else current_term n in
        let same : settled ≡ req.term = ground arith in
        let (t, v) =
          set_term_and_vote-ok (observe_term n req.term).log settled req.candidate_id r in
        rw (le→ltb req.term (current_term n) le, e) (t ∙ same, v, refl)
  ]

  -- HandleRequestVote with a term below 2^64 keeps a well-formed log well formed.
  pub handle_request_vote-IsValid :
      (n : Node) (req : RequestVoteRequest)
      → req.term < u64_mod
      → IsValid n.log
      → IsValid (handle_request_vote n req).0.log
  handle_request_vote-IsValid n req h v = elim (dec_lt req.term (current_term n)) [
    | yes p ↦ rw (handle_request_vote-stale n req p) v
    | no p ↦ settled (omega arith)
  ]
    where
      observed : IsValid (observe_term n req.term).log
      observed =
          unfold observe_term fail_stale_writers in
          elim (Bool-cases (ltb (current_term n) req.term)) [
            | inl e ↦ elim (Bool-cases (is_leader n)) [
              | inl l ↦ rw (e, l) (set_term_and_vote-IsValid n.log req.term [] h v)
              | inr l ↦ rw (e, l) (set_term_and_vote-IsValid n.log req.term [] h v)
            ]
            | inr e ↦ rw e v
          ]

      settled : current_term n ≤ req.term → IsValid (handle_request_vote n req).0.log
      settled le =
          unfold handle_request_vote in
          elim (Bool-cases (free_and_up_to_date (observe_term n req.term) req)) [
            | inl e ↦
                rw (le→ltb req.term (current_term n) le, e)
                  (set_term_and_vote-IsValid (observe_term n req.term).log
                    (if ltb (current_term n) req.term then req.term else current_term n)
                    req.candidate_id (ground arith) observed)
            | inr e ↦ rw (le→ltb req.term (current_term n) le, e) observed
          ]

  -- If the engine's commits and reads do not fail, the log is well formed and the term of the
  -- request is below 2^64, then after HandleRequestVote has granted a vote OpenPersistentLog on
  -- the engine succeeds, with the term of the request and the candidate as the vote.
  pub vote_survives_restart :
      (n : Node) (req : RequestVoteRequest)
      → IsReliable E
      → IsValid n.log
      → req.term < u64_mod
      → (handle_request_vote n req).1.vote_granted ≡ true
      → (pl : PersistentLog) × (open_persistent_log (handle_request_vote n req).0.log.engine
          ≡ ok pl)
        × (pl.current_term ≡ req.term)
        × (pl.voted_for ≡ req.candidate_id)
  vote_survives_restart n req r v h g =
      let n' = (handle_request_vote n req).0 in
      let (t, w, _) = handle_request_vote-records n req r g in
      (
        record n'.log { tail_cache = []; tail_cache_limit = 4096 },
        open-recovers n'.log (handle_request_vote-IsValid n req h v) (r.readable n'.log.engine),
        t,
        w,
      )
