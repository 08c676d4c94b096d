-- ===== src/Raft/Writers/Installs.antt =====
-- The writers that wait on a node of internal/raft through HandleInstallSnapshot and a candidacy.
use distributed_kv.Common.{
  inl, inr, lt→ltb, ℕ, ◌≤◌, ◌<◌, ◌≡◌, refl, ◌∙◌, Option, none, some, arith, Error, Result, ok, err,
  Bool-cases, le→ltb,
}
use distributed_kv.Storage.{Engine, Codec}
use distributed_kv.Kv.StateMachine.{Pairs, StateMachine, Snapshot, restore, unmarshal_snapshot}
use distributed_kv.Raft.Entry.{Entry}
use distributed_kv.Raft.SnapshotStore.{FileSystem, SnapshotMeta, save, load_latest}
use distributed_kv.Raft.Log.{PersistentLog}
use distributed_kv.Raft.Log.Writes.{restore_snapshot_boundary}
use distributed_kv.Raft.Types.{InstallSnapshotRequest, candidate, follower}
use distributed_kv.Raft.State.{Node, current_term}
use distributed_kv.Raft.Lifecycle.{become_candidate}
use distributed_kv.Raft.Snapshot.{
  handle_install_snapshot, follow_installer, install, after_save, after_restore, set_boundary,
  covers,
}
use distributed_kv.Raft.Writers.{books}

module _ ⦃E : Engine⦄ ⦃C : Codec Entry⦄ ⦃P : Codec Pairs⦄ ⦃M : Codec SnapshotMeta⦄
    ⦃F : FileSystem⦄ where
  books-set_boundary :
      (r : Option Error × PersistentLog) (n : Node) (i : ℕ) → books (set_boundary r n i) ≡ books n
  books-set_boundary (some x, log) n i = refl
  books-set_boundary (none, log) n i = refl

  books-after_restore :
      (r : Option Error × StateMachine) (n : Node) (req : InstallSnapshotRequest)
      → books (after_restore r n req) ≡ books n
  books-after_restore (some x, sm) n req = refl
  books-after_restore (none, sm) n req =
      books-set_boundary
        (restore_snapshot_boundary n.log req.last_included_index req.last_included_term)
        (record n { sm = sm }) req.last_included_index

  books-install :
      (r : Result Snapshot) (n : Node) (req : InstallSnapshotRequest)
      → books (install n req r) ≡ books n
  books-install (err x) n req = refl
  books-install (ok snap) n req = saved (save n.snap_store snap _)
    where
      saved : (o : Option Error × FileSystem.Disk F) → books (after_save o n snap req) ≡ books n
      saved (some x, disk) = refl
      saved (none, disk) =
          books-after_restore (restore n.sm snap req.last_included_index)
            (record n { snap_store = disk }) req

  books-follow_installer :
      (n : Node) (req : InstallSnapshotRequest)
      → books (follow_installer n req) ≡ record (books n) { role = follower }
  books-follow_installer n req = ground arith

  -- HandleInstallSnapshot makes the node a follower and leaves its writers waiting.
  pub books-handle_install_snapshot :
      (n : Node) (req : InstallSnapshotRequest)
      → current_term n ≤ req.term
      → books (handle_install_snapshot n req).0 ≡ record (books n) { role = follower }
  unfolding handle_install_snapshot
  books-handle_install_snapshot n req le =
      elim (Bool-cases
        (covers (load_latest (follow_installer n req).snap_store) req.last_included_index)) [
          | inl c ↦ rw (le→ltb _ _ le, c) (books-follow_installer n req)
          | inr c ↦
              rw (le→ltb _ _ le, c)
                (books-install (unmarshal_snapshot req.snapshot_bytes) (follow_installer n req) req
                  ∙ books-follow_installer n req)
        ]

  pub books-stale_install :
      (n : Node) (req : InstallSnapshotRequest)
      → req.term < current_term n
      → books (handle_install_snapshot n req).0 ≡ books n
  unfolding handle_install_snapshot
  books-stale_install n req lt = rw (lt→ltb _ _ lt) refl

  pub books-become_candidate :
      (n : Node) → books (become_candidate n).1 ≡ record (books n) { role = candidate }
  unfolding become_candidate
  books-become_candidate n = refl
