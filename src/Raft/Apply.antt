-- ===== src/Raft/Apply.antt =====
-- applyCommitted of internal/raft/node_lifecycle.go.
pub mod Progress
pub mod Ready
pub mod Refines
use distributed_kv.Common.{
  ℕ, zero, suc, ◌-◌, ◌%◌, Bool, true, false, Option, none, some, Error, Result, ok, err, ltb, ◌==◌,
  ◌&&◌, if◌then◌else◌,
}
use distributed_kv.Kv.StateMachine.{StateMachine, apply_put, apply_delete, apply_noop}
use distributed_kv.Raft.Entry.{EntryType, noop, put, delete, unrecognized}
use distributed_kv.Raft.Log.{get_entry}
use distributed_kv.Raft.State.{Node}
use distributed_kv.Raft.Waiters.{notify_writers, satisfy_pending_reads}
use distributed_kv.Raft.Snapshot.{maybe_snapshot}
use distributed_kv.Storage.{Engine, Codec}
use distributed_kv.Kv.StateMachine.{Pairs}
use distributed_kv.Raft.Entry.{Entry}
use distributed_kv.Raft.SnapshotStore.{FileSystem, SnapshotMeta}

module _ ⦃E : Engine⦄ ⦃C : Codec Entry⦄ ⦃P : Codec Pairs⦄ ⦃M : Codec SnapshotMeta⦄
    ⦃F : FileSystem⦄ where
  abbrev pub apply_typed : EntryType → StateMachine → Entry → Option Error × StateMachine
  apply_typed put sm e = apply_put sm e.index e.key e.value
  apply_typed delete sm e = apply_delete sm e.index e.key
  apply_typed noop sm e = (none, apply_noop sm e.index)
  apply_typed (unrecognized _) sm e = (none, sm)

  -- The switch over the entry's type, which has no default.
  unfoldable pub apply_entry : StateMachine → Entry → Option Error × StateMachine
  apply_entry sm e = apply_typed e.entry_type sm e

  -- What follows an entry that was applied.
  unfoldable pub mark_applied : Node → ℕ → Node
  mark_applied n applied =
      let n1 =
        satisfy_pending_reads (notify_writers (record n { last_applied = applied }) applied) in
      if ltb 0 n1.opts.snapshot_threshold && (applied % n1.opts.snapshot_threshold == 0)
      then maybe_snapshot n1 applied
      else n1

  abbrev pub after_apply : Option Error × StateMachine → Node → ℕ → Bool × Node
  after_apply (some _, sm) n applied = (false, record n { sm = sm })
  after_apply (none, sm) n applied = (true, mark_applied (record n { sm = sm }) applied)

  abbrev pub apply_read : Result Entry → Node → ℕ → Bool × Node
  apply_read (err _) n applied = (false, n)
  apply_read (ok entry) n applied = after_apply (apply_entry n.sm entry) n applied

  -- One round of the loop at index `applied`; false is its return.
  unfoldable pub apply_one : Node → ℕ → Bool × Node
  unfolding apply_entry mark_applied
  apply_one n applied = apply_read (get_entry n.log applied) n applied

  unfoldable pub apply_rounds : ℕ → Node → ℕ → Node
  unfolding apply_one
  apply_rounds zero n applied = n
  apply_rounds (suc rounds) n applied =
      let (go_on, n') = apply_one n (suc applied) in
      elim go_on [ true ↦ apply_rounds rounds n' (suc applied) | false ↦ n' ]

  unfoldable pub apply_committed : Node → Node
  unfolding apply_rounds
  apply_committed n = apply_rounds (n.commit_index - n.last_applied) n n.last_applied
