-- ===== src/Raft/Signals/Installs.antt =====
-- The commit index and the token through HandleInstallSnapshot of internal/raft/snapshot.go.
use distributed_kv.Common.{
  ◌≡◌, subst, Option, none, some, Error, Result, ok, err, arith, Bool-cases, inl, inr, ltb,
}
use distributed_kv.Storage.{Engine, Codec}
use distributed_kv.Kv.StateMachine.{Pairs, StateMachine, Snapshot, restore, unmarshal_snapshot}
use distributed_kv.Raft.Entry.{Entry}
use distributed_kv.Raft.SnapshotStore.{FileSystem, SnapshotMeta, save, load_latest}
use distributed_kv.Raft.Log.{PersistentLog}
use distributed_kv.Raft.Log.Writes.{restore_snapshot_boundary}
use distributed_kv.Raft.Types.{InstallSnapshotRequest}
use distributed_kv.Raft.State.{Node, current_term}
use distributed_kv.Raft.Snapshot.{
  handle_install_snapshot, follow_installer, install, after_save, after_restore, set_boundary,
  covers,
}
use distributed_kv.Raft.Signals.{marks, IsAwake, IsAwake-even}

module _ ⦃E : Engine⦄ ⦃C : Codec Entry⦄ ⦃P : Codec Pairs⦄ ⦃M : Codec SnapshotMeta⦄
    ⦃F : FileSystem⦄ where
  -- A snapshot that is installed is applied and committed at once.
  pub handle_install_snapshot-IsAwake :
      (n : Node) (req : InstallSnapshotRequest)
      → IsAwake (marks n)
      → IsAwake (marks (handle_install_snapshot n req).0)
  unfolding handle_install_snapshot
  handle_install_snapshot-IsAwake n req a = elim (Bool-cases (ltb req.term (current_term n))) [
    | inl old ↦ rw old a
    | inr new ↦ elim (Bool-cases (covers (load_latest n1.snap_store) req.last_included_index)) [
      | inl c ↦ rw (new, c) followed
      | inr c ↦ rw (new, c) (installed (unmarshal_snapshot req.snapshot_bytes))
    ]
  ]
    where
      n1 : Node
      n1 = follow_installer n req

      followed : IsAwake (marks n1)
      followed =
          subst IsAwake (let q : marks n ≡ marks (follow_installer n req) = ground arith in q) a

      bounded :
          (r : Option Error × PersistentLog) (m : Node)
          → IsAwake (marks m)
          → IsAwake (marks (set_boundary r m req.last_included_index))
      bounded (some x, log) m b = b
      bounded (none, log) m b = IsAwake-even req.last_included_index m.commit_advanced

      restored :
          (r : Option Error × StateMachine) (m : Node)
          → IsAwake (marks m)
          → IsAwake (marks (after_restore r m req))
      restored (some x, sm) m b = b
      restored (none, sm) m b =
          bounded (restore_snapshot_boundary m.log req.last_included_index req.last_included_term)
            (record m { sm = sm }) b

      saved :
          (r : Option Error × FileSystem.Disk F) (snap : Snapshot)
          → IsAwake (marks (after_save r n1 snap req))
      saved (some x, disk) snap = followed
      saved (none, disk) snap =
          restored (restore n1.sm snap req.last_included_index) (record n1 { snap_store = disk })
            followed

      installed : (r : Result Snapshot) → IsAwake (marks (install n1 req r))
      installed (err x) = followed
      installed (ok snap) = saved (save n1.snap_store snap _) snap
