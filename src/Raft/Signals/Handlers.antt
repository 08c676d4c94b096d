-- ===== src/Raft/Signals/Handlers.antt =====
-- The commit index and the token through each handler of internal/raft.
use distributed_kv.Common.{
  ℕ, ◌≡◌, refl, sym, ◌∙◌, subst, Option, none, some, List, [], ◌∷◌, Bytes, Error, Result, ok, err,
  arith, Bool-cases, inl, inr, ltb,
}
use distributed_kv.Storage.{Engine, Codec}
use distributed_kv.Kv.StateMachine.{Pairs}
use distributed_kv.Raft.Entry.{Entry, EntryType}
use distributed_kv.Raft.SnapshotStore.{FileSystem, SnapshotMeta, load_latest}
use distributed_kv.Raft.Log.{PersistentLog}
use distributed_kv.Raft.Log.Writes.{append_entries}
use distributed_kv.Raft.Types.{
  Transport, PeerInfo, candidate, RequestVoteRequest, AppendEntriesRequest, AppendEntriesResponse,
  InstallSnapshotRequest, InstallSnapshotResponse,
}
use distributed_kv.Raft.State.{Node, current_term, is_leader, is_role, with_log}
use distributed_kv.Raft.Waiters.{fail_stale_writers}
use distributed_kv.Raft.Lifecycle.{become_follower, become_candidate}
use distributed_kv.Raft.Leader.{become_leader, take_leadership, noop_entry}
use distributed_kv.Raft.Propose.{begin_propose, proposed_entry, register, after_append as appended}
use distributed_kv.Raft.Election.{handle_request_vote, observe_term}
use distributed_kv.Raft.Replication.{
  Outgoing, stay, snapshot, request, deliver, replicate_to_peer, replicate_to_all, on_success,
  on_append_response, back_up, try_advance_commit_index, broadcast_append_entries, append_local,
}
use distributed_kv.Raft.Follower.{
  Check, missing, conflict, consistent, accept_leader, follow_commit, after_append, on_check,
  check_prev, handle_append_entries,
}
use distributed_kv.Raft.Snapshot.{
  send_install_snapshot, install_request, deliver_install, on_install_response,
}
use distributed_kv.Raft.Signals.{marks, IsAwake, IsAwake-committed}

module _ ⦃E : Engine⦄ ⦃C : Codec Entry⦄ ⦃P : Codec Pairs⦄ ⦃M : Codec SnapshotMeta⦄
    ⦃F : FileSystem⦄ where
  pub marks-become_follower :
      (n : Node) (term : ℕ) (id addr : Bytes) → marks (become_follower n term id addr) ≡ marks n
  unfolding become_follower fail_stale_writers
  marks-become_follower n term id addr = ground arith

  pub marks-become_candidate : (n : Node) → marks (become_candidate n).1 ≡ marks n
  unfolding become_candidate
  marks-become_candidate n = refl

  marks-observe_term : (n : Node) (term : ℕ) → marks (observe_term n term) ≡ marks n
  unfolding observe_term fail_stale_writers
  marks-observe_term n term = ground arith

  pub marks-handle_request_vote :
      (n : Node) (req : RequestVoteRequest) → marks (handle_request_vote n req).0 ≡ marks n
  unfolding handle_request_vote
  marks-handle_request_vote n req = ground (arith, marks-observe_term n req.term)

  marks-accept_leader :
      (n : Node) (req : AppendEntriesRequest) → marks (accept_leader n req) ≡ marks n
  unfolding accept_leader fail_stale_writers
  marks-accept_leader n req = ground arith

  -- A follower that commits puts a token.
  follow_commit-IsAwake :
      (n : Node) (c : ℕ) → IsAwake (marks n) → IsAwake (marks (follow_commit n c))
  unfolding follow_commit
  follow_commit-IsAwake n c a = ground (arith, a, λ (i : ℕ). IsAwake-committed (marks n) i)

  on_check-IsAwake :
      (n : Node) (req : AppendEntriesRequest) (term : ℕ) (c : Check)
      → IsAwake (marks n)
      → IsAwake (marks (on_check n req term c).0)
  on_check-IsAwake n req term missing a = a
  on_check-IsAwake n req term (conflict t i) a = a
  on_check-IsAwake n req term consistent a =
      ended (append_entries n.log req.entries n.opts.fsync_on_append)
    where
      ended :
          (r : Option Error × PersistentLog)
          → IsAwake (marks (after_append r n term req.leader_commit).0)
      ended (some x, log) = a
      ended (none, log) = follow_commit-IsAwake (with_log n log) req.leader_commit a

  pub handle_append_entries-IsAwake :
      (n : Node) (req : AppendEntriesRequest)
      → IsAwake (marks n)
      → IsAwake (marks (handle_append_entries n req).0)
  unfolding handle_append_entries
  handle_append_entries-IsAwake n req a = elim (Bool-cases (ltb req.term (current_term n))) [
    | inl old ↦ rw old a
    | inr new ↦ rw new (
        on_check-IsAwake (accept_leader n req) req _ (check_prev (accept_leader n req).log req)
          (subst IsAwake (sym (marks-accept_leader n req)) a))
  ]

  marks-on_success :
      (n : Node) (peer : Bytes) (es : List Entry) → marks (on_success n peer es) ≡ marks n
  marks-on_success n peer [] = refl
  marks-on_success n peer (e ∷ es) = refl

  pub marks-on_append_response :
      (n : Node) (peer : Bytes) (term : ℕ) (es : List Entry) (r : Result AppendEntriesResponse)
      → marks (on_append_response n peer term es r) ≡ marks n
  unfolding on_append_response back_up
  marks-on_append_response n peer term es (err x) = refl
  marks-on_append_response n peer term es (ok r) =
      ground (arith, marks-become_follower n r.term [] [], marks-on_success n peer es)

  marks-on_install_response :
      (n : Node) (peer : Bytes) (term i : ℕ) (r : Result InstallSnapshotResponse)
      → marks (on_install_response n peer term i r) ≡ marks n
  unfolding on_install_response
  marks-on_install_response n peer term i (err _) = refl
  marks-on_install_response n peer term i (ok r) =
      ground (arith, marks-become_follower n r.term [] [])

  marks-deliver :
      (T : Transport) (n : Node) (peer : Bytes) (term : ℕ) (o : Outgoing)
      → marks (deliver T n peer term o) ≡ marks n
  unfolding send_install_snapshot
  marks-deliver T n peer term stay = refl
  marks-deliver T n peer term snapshot =
      installs (install_request n term (load_latest n.snap_store))
    where
      installs :
          (o : Option InstallSnapshotRequest) → marks (deliver_install T n peer term o) ≡ marks n
      installs none = refl
      installs (some req) = marks-on_install_response n peer term _ (T.install_snapshot peer req)
  marks-deliver T n peer term (request req) =
      marks-on_append_response n peer term req.entries (T.append_entries peer req)

  marks-replicate_to_all :
      (T : Transport) (n : Node) (ps : List PeerInfo) (term : ℕ)
      → marks (replicate_to_all T n ps term) ≡ marks n
  unfolding replicate_to_all
  marks-replicate_to_all T n [] term = refl
  marks-replicate_to_all T n (p ∷ ps) term =
      marks-replicate_to_all T (replicate_to_peer T n p.id term) ps term
      ∙ (unfold replicate_to_peer in marks-deliver T n p.id term _)

  -- A leader that commits puts a token.
  pub try_advance_commit_index-IsAwake :
      (n : Node) (term : ℕ) → IsAwake (marks n) → IsAwake (marks (try_advance_commit_index n term))
  unfolding try_advance_commit_index
  try_advance_commit_index-IsAwake n term a =
      ground (arith, a, λ (i : ℕ). IsAwake-committed (marks n) i)

  pub broadcast_append_entries-IsAwake :
      (T : Transport) (n : Node)
      → IsAwake (marks n)
      → IsAwake (marks (broadcast_append_entries T n))
  unfolding broadcast_append_entries
  broadcast_append_entries-IsAwake T n a = elim (Bool-cases (is_leader n)) [
    | inl e ↦ rw e (
        try_advance_commit_index-IsAwake _ _
          (subst IsAwake (sym (marks-replicate_to_all T n n.peers (current_term n))) a))
    | inr e ↦ rw e a
  ]

  pub become_leader-IsAwake :
      (T : Transport) (n : Node) → IsAwake (marks n) → IsAwake (marks (become_leader T n))
  unfolding become_leader append_local take_leadership
  become_leader-IsAwake T n a = elim (Bool-cases (is_role n.role candidate)) [
    | inl e ↦
        rw e (broadcast_append_entries-IsAwake T (append_local (take_leadership n) noop_entry).1 a)
    | inr e ↦ rw e a
  ]

  pub marks-begin_propose :
      (n : Node) (type : EntryType) (key value id : Bytes)
      → marks (begin_propose n type key value id).1 ≡ marks n
  unfolding begin_propose
  marks-begin_propose n type key value id = elim (Bool-cases (is_leader n)) [
    | inl e ↦ rw e (ended (append_entries n.log _ _))
    | inr e ↦ rw e refl
  ]
    where
      ended :
          (r : Option Error × PersistentLog)
          → marks
              (appended r
                (register n (proposed_entry n type key value id).index)
                (proposed_entry n type key value id)).1
            ≡ marks n
      ended (some x, log) = refl
      ended (none, log) = refl
