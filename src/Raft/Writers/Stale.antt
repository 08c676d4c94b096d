-- ===== src/Raft/Writers/Stale.antt =====
-- A writer that HandleInstallSnapshot of internal/raft/snapshot.go leaves waiting.
use distributed_kv.Common.{
  ℕ, ◌≤◌, ◌≡◌, refl, ap, ◌∙◌, false, ℕ_discrete, Option, none, some, ◌∷◌, arith, Error, ok,
}
use distributed_kv.Common.Map
use distributed_kv.Storage.{Engine, Codec}
use distributed_kv.Kv.StateMachine.{Pairs, StateMachine}
use distributed_kv.Raft.Entry.{Entry}
use distributed_kv.Raft.SnapshotStore.{FileSystem, SnapshotMeta}
use distributed_kv.Raft.Log.{get_entry}
use distributed_kv.Raft.Types.{InstallSnapshotRequest, leader}
use distributed_kv.Raft.State.{Node, current_term, is_leader, is_role}
use distributed_kv.Raft.Waiters.{notify_writers, satisfy_pending_reads}
use distributed_kv.Raft.Snapshot.{handle_install_snapshot}
use distributed_kv.Raft.Apply.{apply_entry, apply_one, after_apply, mark_applied}
use distributed_kv.Raft.Writers.{Books}
use distributed_kv.Raft.Writers.Local.{books-satisfy_pending_reads}
use distributed_kv.Raft.Writers.Loops.{books-maybe_snapshot}
use distributed_kv.Raft.Writers.Installs.{books-handle_install_snapshot}

module _ ⦃E : Engine⦄ ⦃C : Codec Entry⦄ ⦃P : Codec Pairs⦄ ⦃M : Codec SnapshotMeta⦄
    ⦃F : FileSystem⦄ where
  sent-mark_applied :
      (n : Node) (i ch : ℕ)
      → Map.lookup ℕ_discrete i n.write_waiters ≡ some ch
      → (mark_applied n i).delivered ≡ (ch, none) ∷ n.delivered
  unfolding mark_applied notify_writers
  sent-mark_applied n i ch h =
      let n1 = notify_writers (record n { last_applied = i }) i in
      let told_here : n1.delivered ≡ (ch, none) ∷ n.delivered = rw h refl in
      let a = ap (λ (b : Books). b.sent) (books-satisfy_pending_reads n1) in
      let b = ap (λ (b : Books). b.sent) (books-maybe_snapshot (satisfy_pending_reads n1) i) in
      ground (arith, told_here, a, b)

  apply_one-tells :
      (n : Node) (i ch : ℕ) (e : Entry)
      → Map.lookup ℕ_discrete i n.write_waiters ≡ some ch
      → get_entry n.log i ≡ ok e
      → (apply_entry n.sm e).0 ≡ none
      → (apply_one n i).1.delivered ≡ (ch, none) ∷ n.delivered
  unfolding apply_one
  apply_one-tells n i ch e h g a = rw g (applied (apply_entry n.sm e) a)
    where
      applied :
          (r : Option Error × StateMachine)
          → r.0 ≡ none
          → (after_apply r n i).1.delivered ≡ (ch, none) ∷ n.delivered
      applied (some x, sm) q = cc
      applied (none, sm) q = sent-mark_applied (record n { sm = sm }) i ch h

  -- If a writer waits at an index, and HandleInstallSnapshot meets a request that is not of an
  -- older term, then the node is not the leader afterwards, and at any later moment at which the
  -- waiters are those that the handler left and the log holds an entry at that index, whoever made
  -- it, that is applied without an error, the round of the apply loop for that index sends the
  -- writer a message without an error.
  pub stale_writer_told :
      (n later : Node) (req : InstallSnapshotRequest) (i ch : ℕ) (e : Entry)
      → current_term n ≤ req.term
      → Map.lookup ℕ_discrete i n.write_waiters ≡ some ch
      → later.write_waiters ≡ (handle_install_snapshot n req).0.write_waiters
      → get_entry later.log i ≡ ok e
      → (apply_entry later.sm e).0 ≡ none
      → (is_leader (handle_install_snapshot n req).0 ≡ false)
        × ((apply_one later i).1.delivered ≡ (ch, none) ∷ later.delivered)
  stale_writer_told n later req i ch e le h same g a =
      let b = books-handle_install_snapshot n req le in
      (
        ap (λ (x : Books). is_role x.role leader) b,
        apply_one-tells later i ch e
            (ap (λ m. Map.lookup ℕ_discrete i m) (same ∙ ap (λ (x : Books). x.waiters) b) ∙ h) g a,
      )
