-- ===== src/Raft/Follower/Accept.antt =====
-- What HandleAppendEntries of internal/raft/replication.go answers, and what it commits.
use distributed_kv.Common.{
  ℕ, ◌≤◌, ◌<◌, ◌≡◌, refl, sym, ap, ◌∙◌, ◌⊎◌, inl, inr, Bool, true, false, Option, none, some, arith,
  ltb, lt→ltb, le→ltb, if◌then◌else◌, Error, dec_lt,
}
use Prim.Native.Nat.{min, max}
use mathlib.Core.Bool.{false≢true}
use distributed_kv.Raft.Log.{PersistentLog, term_at}
use distributed_kv.Raft.Log.Writes.{append_entries}
use distributed_kv.Raft.Types.{AppendEntriesRequest, AppendEntriesResponse}
use distributed_kv.Raft.State.{Node, current_term, with_log}
use distributed_kv.Raft.Follower.{
  Check, consistent, missing, conflict, check_prev, compare_prev, follow_commit, accept_leader,
  on_check, reply, handle_append_entries,
}
use distributed_kv.Storage.{Engine, Codec}
use distributed_kv.Kv.StateMachine.{Pairs}
use distributed_kv.Raft.Entry.{Entry}
use distributed_kv.Raft.SnapshotStore.{FileSystem, SnapshotMeta}

module _ ⦃E : Engine⦄ ⦃C : Codec Entry⦄ ⦃P : Codec Pairs⦄ ⦃M : Codec SnapshotMeta⦄
    ⦃F : FileSystem⦄ where
  -- A request of an older term is refused, and changes nothing.
  pub handle_append_entries-stale :
      (n : Node) (req : AppendEntriesRequest)
      → req.term < current_term n
      → handle_append_entries n req ≡ (n, reply (current_term n) false 0 0)
  unfolding handle_append_entries
  handle_append_entries-stale n req h = rw (lt→ltb _ _ h)

  -- A follower's commit index goes up to the leader's, as far as its own log reaches, and never down.
  pub commit_index-follow_commit :
      (n : Node) (leader_commit : ℕ)
      → (follow_commit n leader_commit).commit_index
        ≡ max n.commit_index (min leader_commit n.log.last_index)
  unfolding follow_commit
  commit_index-follow_commit n c = ground arith

  pub log-follow_commit : (n : Node) (c : ℕ) → (follow_commit n c).log ≡ n.log
  unfolding follow_commit
  log-follow_commit n c = ground arith

  -- The log before the request holds the entry that the request builds on.
  abbrev pub PrevMatches : PersistentLog → AppendEntriesRequest → Type 0
  PrevMatches log req =
      (req.prev_log_index ≡ 0) ⊎ (term_at log req.prev_log_index ≡ some req.prev_log_term)

  check_prev-consistent :
      (log : PersistentLog) (req : AppendEntriesRequest)
      → check_prev log req ≡ consistent
      → PrevMatches log req
  unfolding check_prev
  check_prev-consistent log req h = elim (dec_lt 0 req.prev_log_index) [
    | no p ↦ inl (omega arith)
    | yes p ↦ inr (same (term_at log req.prev_log_index) (rw (lt→ltb _ _ p) at h))
  ]
    where
      same : (o : Option ℕ) → compare_prev log req o ≡ consistent → o ≡ some req.prev_log_term
      same none e = cc
      same (some t) e = ground arith

  -- What a successful answer means.
  pub record Accepted (n : Node) (req : AppendEntriesRequest) : Type 0 where
    pub not_older : current_term n ≤ req.term
    pub prev_matches : PrevMatches (accept_leader n req).log req
    pub appended :
        (append_entries
          (accept_leader n req).log
          req.entries
          (accept_leader n req).opts.fsync_on_append).0
        ≡ none
    pub log_after :
        (handle_append_entries n req).0.log
        ≡ (append_entries
            (accept_leader n req).log
            req.entries
            (accept_leader n req).opts.fsync_on_append).1
    pub commit_after :
        (handle_append_entries n req).0.commit_index
        ≡ max
            (accept_leader n req).commit_index
            (min req.leader_commit (handle_append_entries n req).0.log.last_index)

  -- If HandleAppendEntries answers with success, then the request is not of an older term, its
  -- previous index is 0 or the log has an entry of the given previous term there, appending the
  -- entries returned no error, the log afterwards is the one so appended, and the commit index is
  -- the larger of the old one and the smaller of the leader's and the last local index.
  pub handle_append_entries-Accepted :
      (n : Node) (req : AppendEntriesRequest)
      → (handle_append_entries n req).1.success ≡ true
      → Accepted n req
  handle_append_entries-Accepted n req h = elim (dec_lt req.term (current_term n)) [
    | yes p ↦ absurd (refused p)
    | no p ↦
        let e = handled (omega arith) in
        build (check_prev n1.log req) refl
          (append_entries n1.log req.entries n1.opts.fsync_on_append) refl (omega arith) e
          (sym (ap answer e) ∙ h)
  ]
    where
      n1 : Node
      n1 = accept_leader n req

      settled : ℕ
      settled = if ltb (current_term n) req.term then req.term else current_term n

      answer : Node × AppendEntriesResponse → Bool
      answer o = o.1.success

      refused : req.term < current_term n → ⊥
      refused p = false≢true (sym (ap answer (handle_append_entries-stale n req p)) ∙ h)

      handled :
          current_term n ≤ req.term
          → handle_append_entries n req ≡ on_check n1 req settled (check_prev n1.log req)
      handled le = unfold handle_append_entries in rw (le→ltb req.term (current_term n) le)

      build :
          (c : Check)
          → check_prev n1.log req ≡ c
          → (r : Option Error × PersistentLog)
          → append_entries n1.log req.entries n1.opts.fsync_on_append ≡ r
          → current_term n ≤ req.term
          → handle_append_entries n req ≡ on_check n1 req settled (check_prev n1.log req)
          → answer (on_check n1 req settled (check_prev n1.log req)) ≡ true
          → Accepted n req
      build missing ec r er le e s = absurd (false≢true (rw ec at s))
      build (conflict t i) ec r er le e s = absurd (false≢true (rw ec at s))
      build consistent ec (some x, log) er le e s = absurd (false≢true (rw (ec, er) at s))
      build consistent ec (none, log) er le e s =
          let e' : handle_append_entries n req
              ≡ (follow_commit (with_log n1 log) req.leader_commit, reply settled true 0 0) =
            e ∙ rw (ec, er) in
          record {
            not_older = le;
            prev_matches = check_prev-consistent n1.log req ec;
            appended = ap (λ (o : Option Error × PersistentLog). o.0) er;
            log_after = rw (e', log-follow_commit (with_log n1 log) req.leader_commit, er);
            commit_after = rw (
              e',
              log-follow_commit (with_log n1 log) req.leader_commit,
              commit_index-follow_commit (with_log n1 log) req.leader_commit,
            );
          }
