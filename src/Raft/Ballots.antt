-- ===== src/Raft/Ballots.antt =====
-- The term and the vote of a node of internal/raft under concurrency. Handlers read them and write
-- them by SetTermAndVote, each under the lock of the log, and other handlers may run in between:
-- becomeCandidate and becomeFollower (node_lifecycle.go), HandleRequestVote (election.go),
-- HandleAppendEntries (replication.go), HandleInstallSnapshot (snapshot.go).
pub mod Keeps
pub mod Handlers
pub mod Races
use distributed_kv.Common.{ℕ, ◌<◌, ◌≡◌, ◌≢◌, ◌⊎◌, List, [], ◌∷◌, ◌++◌, Bytes, u64_mod, add64, ok}
use distributed_kv.Storage.{Engine, Codec}
use distributed_kv.Raft.Entry.{Entry}
use distributed_kv.Raft.Log.{PersistentLog, open_persistent_log}
use distributed_kv.Raft.Log.Writes.{set_term_and_vote}
use distributed_kv.Raft.Log.Runs.{Write, appends, truncates, compacts, rebases, votes, restarts}

-- A call of SetTermAndVote that a handler is about to make, from what it has read: its new term as
-- a candidate, a later term that it was told of, or a vote.
pub data Pending : Type 0 where
  candidacy discovery : ℕ → Pending
  ballot : ℕ → Bytes → Pending

-- The arguments of the call.
abbrev pub term_of : Pending → ℕ
term_of (candidacy term) = term
term_of (discovery term) = term
term_of (ballot term candidate) = term

abbrev pub vote_of : Bytes → Pending → Bytes
vote_of id (candidacy term) = id
vote_of id (discovery term) = []
vote_of id (ballot term candidate) = candidate

module _ ⦃E : Engine⦄ ⦃C : Codec Entry⦄ where
  -- A node's id, its log, and the calls that its handlers are about to make.
  pub record Voter : Type 0 where
    pub id : Bytes
    pub log : PersistentLog
    pub pending : List Pending

  abbrev pub write_pending : Bytes → PersistentLog → Pending → PersistentLog
  write_pending id log p = (set_term_and_vote log (term_of p) (vote_of id p)).1

  -- The writing methods of the log that leave the term and the vote.
  abbrev pub LeavesVote : {a b : PersistentLog} → Write a b → Type 0
  LeavesVote (appends pl e es sync cont lo hi fits) = Unit
  LeavesVote (truncates pl from lo) = Unit
  LeavesVote (compacts pl index term hi ht) = Unit
  LeavesVote (rebases pl index term hi ht) = Unit
  LeavesVote (votes pl term voted_for ht) = ⊥
  LeavesVote (restarts pl h) = ⊥

  -- One read or one write of the log, by any of the handlers that run at the time, or a restart,
  -- which forgets what they were about to do. Between a read and the write that follows from it,
  -- any number of these may happen.
  pub data Part : Voter → Voter → Type 0 where
    reads_term :
        (u : Voter)
        → Part u (record u { pending = candidacy (add64 u.log.current_term 1) ∷ u.pending })
    finds_later :
        (u : Voter) (term : ℕ)
        → u.log.current_term < term
        → term < u64_mod
        → Part u (record u { pending = discovery term ∷ u.pending })
    finds_free :
        (u : Voter) (term : ℕ) (candidate : Bytes)
        → (u.log.voted_for ≡ []) ⊎ (u.log.voted_for ≡ candidate)
        → term < u64_mod
        → Part u (record u { pending = ballot term candidate ∷ u.pending })
    writes :
        (u : Voter) (before : List Pending) (p : Pending) (after : List Pending)
        → u.pending ≡ before ++ p ∷ after
        → term_of p < u64_mod
        → Part u (record u { log = write_pending u.id u.log p; pending = before ++ after })
    changes_log :
        (u : Voter) {pl : PersistentLog} (w : Write u.log pl)
        → LeavesVote w
        → Part u (record u { log = pl })
    crashes :
        (u : Voter) {pl : PersistentLog}
        → open_persistent_log u.log.engine ≡ ok pl
        → Part u (record u { log = pl; pending = [] })

  pub data Parts : Voter → Voter → Type 0 where
    none_yet : (u : Voter) → Parts u u
    then_part : {u v w : Voter} → Parts u v → Part v w → Parts u w

  -- What was read still holds when the call is made: no other handler has moved the term on, or
  -- given the vote.
  abbrev pub Current : PersistentLog → Pending → Type 0
  Current log (candidacy term) = log.current_term < term
  Current log (discovery term) = log.current_term < term
  Current log (ballot term candidate) =
      (term ≡ log.current_term) × ((log.voted_for ≡ []) ⊎ (log.voted_for ≡ candidate))

  -- A part that meets no such race.
  abbrev pub Undisturbed : {u v : Voter} → Part u v → Type 0
  Undisturbed (writes u before p after e fits) = Current u.log p
  Undisturbed (reads_term u) = Unit
  Undisturbed (finds_later u term lt fits) = Unit
  Undisturbed (finds_free u term candidate free fits) = Unit
  Undisturbed (changes_log u w l) = Unit
  Undisturbed (crashes u h) = Unit

  abbrev pub AllUndisturbed : {u v : Voter} → Parts u v → Type 0
  AllUndisturbed (none_yet u) = Unit
  AllUndisturbed (then_part ps p) = AllUndisturbed ps × Undisturbed p
