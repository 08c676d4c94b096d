-- ===== src/Raft/Follower/Divergence.antt =====
-- Where HandleAppendEntries of internal/raft/replication.go leaves the Raft paper: it truncates a
-- suffix that does not conflict, and it commits entries that the request did not check.
use distributed_kv.Common.{
  ◌+◌, ◌≤◌, ◌<◌, ◌≡◌, sym, ap, ◌∙◌, true, List, ◌∷◌, arith, length, u64_mod,
}
use distributed_kv.Raft.Log.{PersistentLog}
use distributed_kv.Raft.Log.Writes.{append_entries}
use distributed_kv.Raft.Log.Keys.{IsContiguous}
use distributed_kv.Raft.Log.Valid.{IsValid}
use distributed_kv.Raft.Log.Append.{append_entries-held}
use distributed_kv.Raft.Types.{AppendEntriesRequest}
use distributed_kv.Raft.State.{Node}
use distributed_kv.Raft.Waiters.{fail_stale_writers}
use distributed_kv.Raft.Follower.{accept_leader, handle_append_entries}
use distributed_kv.Raft.Follower.Accept.{handle_append_entries-Accepted}
use distributed_kv.Storage.{Engine, Codec}
use distributed_kv.Kv.StateMachine.{Pairs}
use distributed_kv.Raft.Entry.{Entry}
use distributed_kv.Raft.SnapshotStore.{FileSystem, SnapshotMeta}

module _ ⦃E : Engine⦄ ⦃C : Codec Entry⦄ ⦃P : Codec Pairs⦄ ⦃M : Codec SnapshotMeta⦄
    ⦃F : FileSystem⦄ where
  commit_index-accept_leader :
      (n : Node) (req : AppendEntriesRequest) → (accept_leader n req).commit_index ≡ n.commit_index
  unfolding accept_leader fail_stale_writers
  commit_index-accept_leader n req = ground arith

  -- A successful HandleAppendEntries, on a well-formed log, whose consecutive entries start behind
  -- the boundary and at most one past the end and end below the node's commit index, leaves a last
  -- index below the commit index, also if all its entries were there before.
  pub handle_append_entries-truncates :
      (n : Node) (req : AppendEntriesRequest) (e : Entry) (es : List Entry)
      → req.entries ≡ e ∷ es
      → IsValid (accept_leader n req).log
      → IsContiguous e.index (e ∷ es)
      → (accept_leader n req).log.last_included_index < e.index
      → e.index ≤ (accept_leader n req).log.last_index + 1
      → e.index + length es < n.commit_index
      → n.commit_index < u64_mod
      → (handle_append_entries n req).1.success ≡ true
      → (handle_append_entries n req).0.log.last_index
        < (handle_append_entries n req).0.commit_index
  handle_append_entries-truncates n req e es q v cont lo hi below small s =
      let a = handle_append_entries-Accepted n req s in
      let n1 = accept_leader n req in
      let ok_append =
        sym (ap (λ (l : List Entry). (append_entries n1.log l n1.opts.fsync_on_append).0) q)
        ∙ a.appended in
      let (_, l) =
        append_entries-held n1.log e es v cont lo hi (omega arith) n1.opts.fsync_on_append 0
          ok_append (omega arith) in
      let same : (handle_append_entries n req).0.log.last_index ≡ e.index + length es =
        ap (λ (pl : PersistentLog). pl.last_index) a.log_after
        ∙ ap (λ (l : List Entry). (append_entries n1.log l n1.opts.fsync_on_append).1.last_index) q
        ∙ l in
      omega (arith, a.commit_after, commit_index-accept_leader n req)
