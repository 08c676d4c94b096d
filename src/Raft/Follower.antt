-- ===== src/Raft/Follower.antt =====
-- HandleAppendEntries of internal/raft/replication.go.
pub mod Hint
pub mod Accept
pub mod Divergence
use distributed_kv.Common.{
  ℕ, zero, suc, Bool, true, false, List, [], ◌∷◌, Bytes, Option, none, some, Error, add64, ltb,
  ◌==◌, if◌then◌else◌,
}
use distributed_kv.Raft.Log.{PersistentLog, term_at}
use distributed_kv.Raft.Log.Writes.{append_entries}
use distributed_kv.Raft.Types.{
  Role, follower, candidate, leader, AppendEntriesRequest, AppendEntriesResponse,
}
use distributed_kv.Raft.State.{Node, current_term, is_leader, is_role, with_log}
use distributed_kv.Raft.Waiters.{fail_stale_writers}
use distributed_kv.Raft.Lifecycle.{reset_election_timer, signal_commit_advanced, persist_vote}
use distributed_kv.Storage.{Engine, Codec}
use distributed_kv.Kv.StateMachine.{Pairs}
use distributed_kv.Raft.Entry.{Entry}
use distributed_kv.Raft.SnapshotStore.{FileSystem, SnapshotMeta}

-- What the consistency check of HandleAppendEntries finds.
pub data Check : Type 0 where
  consistent missing : Check
  conflict : ℕ → ℕ → Check

module _ ⦃E : Engine⦄ ⦃C : Codec Entry⦄ ⦃P : Codec Pairs⦄ ⦃M : Codec SnapshotMeta⦄
    ⦃F : FileSystem⦄ where
  -- HandleAppendEntries up to the consistency check: the term, the role, the leader, the timer.
  unfoldable pub accept_leader : Node → AppendEntriesRequest → Node
  accept_leader n req =
      let n1 =
        if ltb (current_term n) req.term
        then (let n' = if is_leader n then fail_stale_writers n else n in
            persist_vote (record n' { role = follower }) req.term [])
        else if is_role n.role candidate
        then record n { role = follower }
        else n in
      reset_election_timer
        (record n1 { leader_id = req.leader_id; leader_client_addr = req.leader_client_addr })

  -- The loop that finds the first index of the conflicting term.
  unfoldable pub first_of_term : PersistentLog → ℕ → ℕ → ℕ
  first_of_term log conflict_term zero = zero
  first_of_term log conflict_term (suc i) =
      let rest = first_of_term log conflict_term i in
      let at_term = λ (t : ℕ). if t == conflict_term then rest else suc i in
      if ltb log.first_index (suc i)
      then elim (term_at log i) [ none ↦ suc i | some t ↦ at_term t ]
      else suc i

  abbrev pub compare_prev : PersistentLog → AppendEntriesRequest → Option ℕ → Check
  compare_prev log req none = missing
  compare_prev log req (some my_term) =
      if my_term == req.prev_log_term
      then consistent
      else conflict my_term (first_of_term log my_term req.prev_log_index)

  unfoldable pub check_prev : PersistentLog → AppendEntriesRequest → Check
  check_prev log req =
      if ltb 0 req.prev_log_index
      then compare_prev log req (term_at log req.prev_log_index)
      else consistent

  -- The commit index of a follower.
  unfoldable pub follow_commit : Node → ℕ → Node
  follow_commit n leader_commit =
      if ltb n.commit_index leader_commit
      then (let new_commit =
            if ltb n.log.last_index leader_commit then n.log.last_index else leader_commit in
          if ltb n.commit_index new_commit
          then signal_commit_advanced (record n { commit_index = new_commit })
          else n)
      else n

  abbrev pub reply : ℕ → Bool → ℕ → ℕ → AppendEntriesResponse
  reply term success conflict_term conflict_index = record {
    term = term;
    success = success;
    conflict_term = conflict_term;
    conflict_index = conflict_index;
  }

  abbrev pub after_append :
      Option Error × PersistentLog → Node → ℕ → ℕ → Node × AppendEntriesResponse
  after_append (some _, log) n term leader_commit = (with_log n log, reply term false 0 0)
  after_append (none, log) n term leader_commit =
      (follow_commit (with_log n log) leader_commit, reply term true 0 0)

  abbrev pub on_check : Node → AppendEntriesRequest → ℕ → Check → Node × AppendEntriesResponse
  on_check n req term missing = (n, reply term false 0 (add64 n.log.last_index 1))
  on_check n req term (conflict t i) = (n, reply term false t i)
  on_check n req term consistent =
      after_append (append_entries n.log req.entries n.opts.fsync_on_append) n term
        req.leader_commit

  unfoldable pub handle_append_entries : Node → AppendEntriesRequest → Node × AppendEntriesResponse
  unfolding accept_leader check_prev follow_commit
  handle_append_entries n req =
      if ltb req.term (current_term n)
      then (n, reply (current_term n) false 0 0)
      else let n1 = accept_leader n req in
        let settled = if ltb (current_term n) req.term then req.term else current_term n in
        on_check n1 req settled (check_prev n1.log req)
