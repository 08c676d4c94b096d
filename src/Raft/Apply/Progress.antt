-- ===== src/Raft/Apply/Progress.antt =====
-- How far applyCommitted of internal/raft/node_lifecycle.go gets.
use distributed_kv.Common.{
  ℕ, zero, suc, ◌+◌, ◌-◌, ◌≤◌, ◌≡◌, refl, ◌∙◌, Option, none, some, Error, Bool, true, false, arith,
  Result, ok, err, if◌then◌else◌,
}
use distributed_kv.Raft.Log.{get_entry}
use distributed_kv.Raft.State.{Node}
use distributed_kv.Raft.Waiters.{notify_writers, satisfy_pending_reads}
use distributed_kv.Raft.Snapshot.{maybe_snapshot}
use distributed_kv.Raft.Apply.{
  mark_applied, after_apply, apply_read, apply_entry, apply_one, apply_rounds, apply_committed,
}
use distributed_kv.Storage.{Engine, Codec}
use distributed_kv.Kv.StateMachine.{Pairs, StateMachine}
use distributed_kv.Raft.Entry.{Entry}
use distributed_kv.Raft.SnapshotStore.{FileSystem, SnapshotMeta}

module _ ⦃E : Engine⦄ ⦃C : Codec Entry⦄ ⦃P : Codec Pairs⦄ ⦃M : Codec SnapshotMeta⦄
    ⦃F : FileSystem⦄ where
  maybe_snapshot-indices :
      (n : Node) (i : ℕ)
      → ((maybe_snapshot n i).last_applied ≡ n.last_applied)
        × ((maybe_snapshot n i).commit_index ≡ n.commit_index)
  unfolding maybe_snapshot
  maybe_snapshot-indices n i = ground arith

  pub mark_applied-indices :
      (n : Node) (i : ℕ)
      → ((mark_applied n i).last_applied ≡ i) × ((mark_applied n i).commit_index ≡ n.commit_index)
  unfolding mark_applied notify_writers satisfy_pending_reads
  mark_applied-indices n i = ground (
    arith,
    maybe_snapshot-indices
        (satisfy_pending_reads (notify_writers (record n { last_applied = i }) i)) i,
  )

  apply_one-indices :
      (n : Node) (i : ℕ)
      → ((apply_one n i).1.last_applied ≡ (if (apply_one n i).0 then i else n.last_applied))
        × ((apply_one n i).1.commit_index ≡ n.commit_index)
  unfolding apply_one
  apply_one-indices n i = read (get_entry n.log i)
    where
      applied :
          (o : Option Error × StateMachine)
          → ((after_apply o n i).1.last_applied
              ≡ (if (after_apply o n i).0 then i else n.last_applied))
            × ((after_apply o n i).1.commit_index ≡ n.commit_index)
      applied (none, sm) = mark_applied-indices (record n { sm = sm }) i
      applied (some e, sm) = (refl, refl)

      read :
          (o : Result Entry)
          → ((apply_read o n i).1.last_applied
              ≡ (if (apply_read o n i).0 then i else n.last_applied))
            × ((apply_read o n i).1.commit_index ≡ n.commit_index)
      read (err e) = (refl, refl)
      read (ok e) = applied (apply_entry n.sm e)

  apply_rounds-indices :
      (rounds : ℕ) (n : Node) (applied : ℕ)
      → n.last_applied ≡ applied
      → (applied ≤ (apply_rounds rounds n applied).last_applied)
        × ((apply_rounds rounds n applied).last_applied ≤ applied + rounds)
        × ((apply_rounds rounds n applied).commit_index ≡ n.commit_index)
  unfolding apply_rounds
  apply_rounds-indices zero n applied h = (omega (arith, h), omega (arith, h), refl)
  apply_rounds-indices (suc rounds) n applied h =
      go (λ m. apply_rounds-indices rounds m (suc applied)) (apply_one n (suc applied))
        (apply_one-indices n (suc applied))
    where
      go :
          ((m : Node)
            → m.last_applied ≡ suc applied
            → (suc applied ≤ (apply_rounds rounds m (suc applied)).last_applied)
              × ((apply_rounds rounds m (suc applied)).last_applied ≤ suc applied + rounds)
              × ((apply_rounds rounds m (suc applied)).commit_index ≡ m.commit_index))
          → (o : Bool × Node)
          → (o.1.last_applied ≡ (if o.0 then suc applied else n.last_applied))
            × (o.1.commit_index ≡ n.commit_index)
          → let n' : Node = elim o.0 [
            | true ↦ apply_rounds rounds o.1 (suc applied)
            | false ↦ o.1
          ] in
            (applied ≤ n'.last_applied)
            × (n'.last_applied ≤ applied + suc rounds)
            × (n'.commit_index ≡ n.commit_index)
      go ih (false, n') (p, q) = (omega arith, omega arith, q)
      go ih (true, n') (p, q) = let (a, b, c) = ih n' p in (omega arith, omega arith, c ∙ q)

  -- Where lastApplied is not beyond the commit index, applyCommitted never moves it down, never
  -- beyond the commit index, and leaves the commit index.
  pub apply_committed-bounds :
      (n : Node)
      → n.last_applied ≤ n.commit_index
      → (n.last_applied ≤ (apply_committed n).last_applied)
        × ((apply_committed n).last_applied ≤ n.commit_index)
        × ((apply_committed n).commit_index ≡ n.commit_index)
  unfolding apply_committed
  apply_committed-bounds n h =
      let (a, b, c) =
        apply_rounds-indices (n.commit_index - n.last_applied) n n.last_applied refl in
      (a, omega arith, c)
