-- ===== src/Raft/Log/Votes.antt =====
-- The term and the vote in the log of internal/raft/log.go: what each writing method does to them.
use distributed_kv.Common.{ℕ, ◌≤◌, ◌<◌, ◌≡◌, ◌≢◌, refl, ◌∙◌, ◌⊎◌, Bool, List, [], ◌∷◌, Bytes, arith}
use distributed_kv.Storage.{Engine, Codec}
use distributed_kv.Raft.Entry.{Entry}
use distributed_kv.Raft.Log.{PersistentLog}
use distributed_kv.Raft.Log.Writes.{
  set_term_and_vote, append_entries, truncate_suffix, compact_prefix, restore_snapshot_boundary,
}

module _ ⦃E : Engine⦄ ⦃C : Codec Entry⦄ where
  -- The term never falls, and within a term a vote that was given stays.
  pub record KeepsVote (a b : PersistentLog) : Type 0 where
    pub term_le : a.current_term ≤ b.current_term
    pub vote_kept : b.current_term ≡ a.current_term → a.voted_for ≢ [] → b.voted_for ≡ a.voted_for

  pub KeepsVote-same :
      (a b : PersistentLog)
      → b.current_term ≡ a.current_term
      → b.voted_for ≡ a.voted_for
      → KeepsVote a b
  KeepsVote-same a b t v = record { term_le = omega arith; vote_kept = λ _ _. v }

  pub KeepsVote-refl : (a : PersistentLog) → KeepsVote a a
  KeepsVote-refl a = KeepsVote-same a a refl refl

  pub KeepsVote-trans : (a b c : PersistentLog) → KeepsVote a b → KeepsVote b c → KeepsVote a c
  KeepsVote-trans a b c p q = record {
    term_le = omega (arith, p.term_le, q.term_le);
    vote_kept = λ t v.
        let tb : b.current_term ≡ a.current_term = omega (arith, p.term_le, q.term_le) in
        let vb = p.vote_kept tb v in q.vote_kept (omega arith) (λ e. v (cc)) ∙ vb;
  }

  -- A new term, or the same term with a vote that does not take one back.
  pub set_term_and_vote-KeepsVote :
      (pl : PersistentLog) (term : ℕ) (voted_for : Bytes)
      → (pl.current_term < term)
        ⊎ ((term ≡ pl.current_term) × ((pl.voted_for ≡ []) ⊎ (pl.voted_for ≡ voted_for)))
      → KeepsVote pl (set_term_and_vote pl term voted_for).1
  unfolding set_term_and_vote
  set_term_and_vote-KeepsVote pl term voted_for h = ground arith

  pub append_entries-KeepsVote :
      (pl : PersistentLog) (es : List Entry) (sync : Bool)
      → KeepsVote pl (append_entries pl es sync).1
  unfolding append_entries
  append_entries-KeepsVote pl [] sync = KeepsVote-refl pl
  append_entries-KeepsVote pl (e ∷ es) sync = ground arith

  pub truncate_suffix-KeepsVote :
      (pl : PersistentLog) (from : ℕ) → KeepsVote pl (truncate_suffix pl from).1
  unfolding truncate_suffix
  truncate_suffix-KeepsVote pl from = ground arith

  pub compact_prefix-KeepsVote :
      (pl : PersistentLog) (index term : ℕ) → KeepsVote pl (compact_prefix pl index term).1
  unfolding compact_prefix
  compact_prefix-KeepsVote pl index term = ground arith

  pub restore_snapshot_boundary-KeepsVote :
      (pl : PersistentLog) (index term : ℕ)
      → KeepsVote pl (restore_snapshot_boundary pl index term).1
  unfolding restore_snapshot_boundary
  restore_snapshot_boundary-KeepsVote pl index term = ground arith
