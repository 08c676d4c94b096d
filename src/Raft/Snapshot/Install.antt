-- ===== src/Raft/Snapshot/Install.antt =====
-- What HandleInstallSnapshot of internal/raft/snapshot.go leaves when every step succeeds.
use distributed_kv.Common.{ℕ, ◌≤◌, ◌≡◌, refl, none, Option, some, ok, Error, arith, le→ltb, false}
use distributed_kv.Storage.{Engine, Codec}
use distributed_kv.Kv.StateMachine.{Pairs, Snapshot, StateMachine, restore, unmarshal_snapshot}
use distributed_kv.Raft.Entry.{Entry}
use distributed_kv.Raft.Log.{PersistentLog}
use distributed_kv.Raft.Log.Writes.{restore_snapshot_boundary}
use distributed_kv.Raft.SnapshotStore.{FileSystem, SnapshotMeta, save, load_latest}
use distributed_kv.Raft.Types.{InstallSnapshotRequest}
use distributed_kv.Raft.State.{Node, current_term}
use distributed_kv.Raft.Snapshot.{
  covers, set_boundary, after_restore, after_save, install, follow_installer,
  handle_install_snapshot,
}

module _ ⦃E : Engine⦄ ⦃C : Codec Entry⦄ ⦃P : Codec Pairs⦄ ⦃M : Codec SnapshotMeta⦄
    ⦃F : FileSystem⦄ where
  restore_snapshot_boundary-last_index :
      (pl : PersistentLog) (index term : ℕ)
      → (restore_snapshot_boundary pl index term).0 ≡ none
      → (restore_snapshot_boundary pl index term).1.last_index ≡ index
  unfolding restore_snapshot_boundary
  restore_snapshot_boundary-last_index pl index term h = ground arith

  pub follow_installer-stores :
      (n : Node) (req : InstallSnapshotRequest) → (follow_installer n req).snap_store ≡ n.snap_store
  follow_installer-stores n req = ground arith

  pub follow_installer-sm :
      (n : Node) (req : InstallSnapshotRequest) → (follow_installer n req).sm ≡ n.sm
  follow_installer-sm n req = ground arith

  -- Past its early returns the handler installs the snapshot.
  pub handle_install_snapshot-installs :
      (n : Node) (req : InstallSnapshotRequest) (snap : Snapshot)
      → current_term n ≤ req.term
      → covers (load_latest n.snap_store) req.last_included_index ≡ false
      → unmarshal_snapshot req.snapshot_bytes ≡ ok snap
      → (handle_install_snapshot n req).0 ≡ install (follow_installer n req) req (ok snap)
  unfolding handle_install_snapshot
  handle_install_snapshot-installs n req snap le new dec =
      rw (le→ltb req.term (current_term n) le, follow_installer-stores n req, new, dec) refl

  -- The node follows, stands at the snapshot, and its log ends there.
  pub record StandsAt (n : Node) (index : ℕ) : Type 0 where
    pub applied_at : n.last_applied ≡ index
    pub committed_at : n.commit_index ≡ index
    pub log_ends_at : n.log.last_index ≡ index

  -- If the request is not of an older term, no stored snapshot covers its index, and its snapshot
  -- is decoded, saved, restored and made the log's boundary without an error, then
  -- HandleInstallSnapshot sets lastApplied, the commit index and the last index of the log to the
  -- snapshot's index, whether the node was ahead of it or not.
  pub handle_install_snapshot-StandsAt :
      (n : Node) (req : InstallSnapshotRequest) (snap : Snapshot)
      → current_term n ≤ req.term
      → covers (load_latest n.snap_store) req.last_included_index ≡ false
      → unmarshal_snapshot req.snapshot_bytes ≡ ok snap
      → (save n.snap_store snap (record {
        last_included_index = req.last_included_index;
        last_included_term = req.last_included_term;
      })).0
        ≡ none
      → (restore n.sm snap req.last_included_index).0 ≡ none
      → (restore_snapshot_boundary
          (follow_installer n req).log
          req.last_included_index
          req.last_included_term).0
        ≡ none
      → StandsAt (handle_install_snapshot n req).0 req.last_included_index
  handle_install_snapshot-StandsAt n req snap le new dec sv rs bd =
      rw (handle_install_snapshot-installs n req snap le new dec) (
        installed (follow_installer n req) (rw (follow_installer-stores n req) sv)
          (rw (follow_installer-sm n req) rs) bd)
    where
      meta : SnapshotMeta
      meta = record {
        last_included_index = req.last_included_index;
        last_included_term = req.last_included_term;
      }

      bounded :
          (o : Option Error × PersistentLog) (m : Node)
          → o.0 ≡ none
          → o.1.last_index ≡ req.last_included_index
          → StandsAt (set_boundary o m req.last_included_index) req.last_included_index
      bounded (none, log) m h l = record { applied_at = refl; committed_at = refl; log_ends_at = l }
      bounded (some e, log) m h l = cc

      machine_restored :
          (o : Option Error × StateMachine) (m : Node)
          → o.0 ≡ none
          → (restore_snapshot_boundary m.log req.last_included_index req.last_included_term).0
            ≡ none
          → StandsAt (after_restore o m req) req.last_included_index
      machine_restored (none, sm) m h b =
          bounded (restore_snapshot_boundary m.log req.last_included_index req.last_included_term)
            (record m { sm = sm }) b
            (restore_snapshot_boundary-last_index m.log req.last_included_index
              req.last_included_term b)
      machine_restored (some e, sm) m h b = cc

      saved :
          (o : Option Error × FileSystem.Disk F) (m : Node)
          → o.0 ≡ none
          → (restore m.sm snap req.last_included_index).0 ≡ none
          → (restore_snapshot_boundary m.log req.last_included_index req.last_included_term).0
            ≡ none
          → StandsAt (after_save o m snap req) req.last_included_index
      saved (none, disk) m h r b =
          machine_restored (restore m.sm snap req.last_included_index)
            (record m { snap_store = disk }) r b
      saved (some e, disk) m h r b = cc

      installed :
          (m : Node)
          → (save m.snap_store snap meta).0 ≡ none
          → (restore m.sm snap req.last_included_index).0 ≡ none
          → (restore_snapshot_boundary m.log req.last_included_index req.last_included_term).0
            ≡ none
          → StandsAt (install m req (ok snap)) req.last_included_index
      installed m s r b = saved (save m.snap_store snap meta) m s r b
