-- ===== src/Raft/Snapshot/Transfer.antt =====
-- A snapshot of internal/raft/snapshot.go from the leader's maybeSnapshot to a follower's store.
use distributed_kv.Common.{
  ℕ, ◌≤◌, ◌≡◌, refl, sym, ap, ◌∙◌, subst, Option, none, some, Bytes, Error, Result, ok, err, false,
}
use distributed_kv.Storage.{Engine, Codec}
use distributed_kv.Kv.StateMachine.{
  Pairs, Snapshot, StateMachine, dump, restore, marshal, unmarshal_snapshot,
}
use distributed_kv.Kv.StateMachine.View.{view}
use distributed_kv.Kv.StateMachine.Backup.{view-restore-dump}
use distributed_kv.Raft.Entry.{Entry}
use distributed_kv.Raft.Log.{PersistentLog, term_at}
use distributed_kv.Raft.Log.Writes.{restore_snapshot_boundary}
use distributed_kv.Raft.SnapshotStore.{FileSystem, SnapshotMeta, save, load_latest}
use distributed_kv.Raft.SnapshotStore.Saved.{load_latest-save, unmarshal-marshal}
use distributed_kv.Raft.Types.{InstallSnapshotRequest}
use distributed_kv.Raft.State.{Node, current_term}
use distributed_kv.Raft.Snapshot.{
  covers, set_boundary, after_restore, after_save, install, follow_installer, install_request,
  maybe_snapshot, compact_after, handle_install_snapshot,
}
use distributed_kv.Raft.Snapshot.Install.{
  StandsAt, handle_install_snapshot-StandsAt, handle_install_snapshot-installs,
  follow_installer-stores, follow_installer-sm,
}

module _ ⦃E : Engine⦄ ⦃C : Codec Entry⦄ ⦃P : Codec Pairs⦄ ⦃M : Codec SnapshotMeta⦄
    ⦃F : FileSystem⦄ where
  -- The request carries the stored snapshot.
  install_request-holds :
      (n : Node) (term : ℕ) (snap : Snapshot) (meta : SnapshotMeta) (req : InstallSnapshotRequest)
      → install_request n term (ok (some (snap, meta))) ≡ some req
      → (unmarshal_snapshot req.snapshot_bytes ≡ ok snap)
        × (req.last_included_index ≡ meta.last_included_index)
        × (req.last_included_term ≡ meta.last_included_term)
  install_request-holds n term snap meta req h = carried (marshal snap) refl
    where
      carried :
          (o : Result Bytes)
          → marshal snap ≡ o
          → (unmarshal_snapshot req.snapshot_bytes ≡ ok snap)
            × (req.last_included_index ≡ meta.last_included_index)
            × (req.last_included_term ≡ meta.last_included_term)
      carried (err x) e = absurd (let q : none ≡ some req = rw e at h in cc)
      carried (ok b) e =
          let q : some (record {
            term = term;
            leader_id = n.id;
            last_included_index = meta.last_included_index;
            last_included_term = meta.last_included_term;
            snapshot_bytes = b;
          })
              ≡ some req =
            rw e at h in
          let made : record {
            term = term;
            leader_id = n.id;
            last_included_index = meta.last_included_index;
            last_included_term = meta.last_included_term;
            snapshot_bytes = b;
          }
              ≡ req =
            cc in
          (
            ap unmarshal_snapshot (sym (ap (λ (x : InstallSnapshotRequest). x.snapshot_bytes) made))
                ∙ unmarshal-marshal snap b e,
            sym (ap (λ (x : InstallSnapshotRequest). x.last_included_index) made),
            sym (ap (λ (x : InstallSnapshotRequest). x.last_included_term) made),
          )

  sm-install :
      (n : Node) (req : InstallSnapshotRequest) (snap : Snapshot)
      → (save n.snap_store snap (record {
        last_included_index = req.last_included_index;
        last_included_term = req.last_included_term;
      })).0
        ≡ none
      → (restore n.sm snap req.last_included_index).0 ≡ none
      → (install n req (ok snap)).sm ≡ (restore n.sm snap req.last_included_index).1
  sm-install n req snap s r = saved (save n.snap_store snap _) s
    where
      bounded :
          (o : Option Error × PersistentLog) (m : Node)
          → (set_boundary o m req.last_included_index).sm ≡ m.sm
      bounded (none, log) m = refl
      bounded (some e, log) m = refl

      restored :
          (o : Option Error × StateMachine) (m : Node)
          → o.0 ≡ none
          → (after_restore o m req).sm ≡ o.1
      restored (none, sm) m h = bounded (restore_snapshot_boundary m.log _ _) (record m { sm = sm })
      restored (some e, sm) m h = cc

      saved :
          (o : Option Error × FileSystem.Disk F)
          → o.0 ≡ none
          → (after_save o n snap req).sm ≡ (restore n.sm snap req.last_included_index).1
      saved (none, disk) h =
          restored (restore n.sm snap req.last_included_index) (record n { snap_store = disk }) r
      saved (some e, disk) h = cc

  -- What maybeSnapshot stores.
  maybe_snapshot-saves :
      (n : Node) (i t : ℕ) (snap : Snapshot)
      → covers (load_latest n.snap_store) i ≡ false
      → term_at n.log i ≡ some t
      → dump n.sm ≡ ok snap
      → (save n.snap_store snap (record { last_included_index = i; last_included_term = t })).0
        ≡ none
      → save n.snap_store snap (record { last_included_index = i; last_included_term = t })
        ≡ (none, (maybe_snapshot n i).snap_store)
  unfolding maybe_snapshot
  maybe_snapshot-saves n i t snap c e d s = rw (c, e, d) (stored (save n.snap_store snap _) s)
    where
      stored :
          (o : Option Error × FileSystem.Disk F)
          → o.0 ≡ none
          → o ≡ (none, (compact_after o n i t).snap_store)
      stored (none, disk) h = refl
      stored (some x, disk) h = cc

  -- The follower stands at the snapshot, and has the store that was dumped.
  pub record Took (n : Node) (index : ℕ) (s : StateMachine) : Type 0 where
    pub stands : StandsAt n index
    pub same_store : view n.sm ≡ view s

  -- If a node on which no stored snapshot covers an index takes a snapshot there, where the log
  -- knows the term and Dump and Save return no error, and a node with the directory that this left
  -- builds a request for InstallSnapshot, and a follower, which no later term and no stored
  -- snapshot of that index keeps from it, saves, restores and makes it the log's boundary without
  -- an error, then the follower's key-value store holds at every key what the first node's held
  -- when the snapshot was taken, and lastApplied, the commit index and the last index of its log
  -- are that index.
  pub snapshot-transfer :
      (taken sender n : Node) (i t term : ℕ) (snap : Snapshot) (req : InstallSnapshotRequest)
      → covers (load_latest taken.snap_store) i ≡ false
      → term_at taken.log i ≡ some t
      → dump taken.sm ≡ ok snap
      → (save taken.snap_store snap (record { last_included_index = i; last_included_term = t })).0
        ≡ none
      → sender.snap_store ≡ (maybe_snapshot taken i).snap_store
      → install_request sender term (load_latest sender.snap_store) ≡ some req
      → current_term n ≤ req.term
      → covers (load_latest n.snap_store) i ≡ false
      → (save n.snap_store snap (record { last_included_index = i; last_included_term = t })).0
        ≡ none
      → (restore n.sm snap i).0 ≡ none
      → (restore_snapshot_boundary (follow_installer n req).log i t).0 ≡ none
      → Took (handle_install_snapshot n req).0 i taken.sm
  snapshot-transfer taken sender n i t term snap req c e d s kept sent le new sv rs bd =
      loaded (load_latest sender.snap_store) refl sent
    where
      kept_meta : SnapshotMeta
      kept_meta = record { last_included_index = i; last_included_term = t }

      loaded :
          (o : Result (Option (Snapshot × SnapshotMeta)))
          → load_latest sender.snap_store ≡ o
          → install_request sender term o ≡ some req
          → Took (handle_install_snapshot n req).0 i taken.sm
      loaded (err x) l h = cc
      loaded (ok none) l h = cc
      loaded (ok (some (snap', meta))) l h =
          let n1 = follow_installer n req in
          let stored : save taken.snap_store snap kept_meta ≡ (none, sender.snap_store) =
            maybe_snapshot-saves taken i t snap c e d s
            ∙ ap (λ (x : FileSystem.Disk F). (none, x)) (sym kept) in
          let same = load_latest-save taken.snap_store snap kept_meta stored l in
          let (dec, qi, qt) = install_request-holds sender term snap kept_meta req (
            sym (
              ap (λ (x : Option (Snapshot × SnapshotMeta)). install_request sender term (ok x))
                same)
            ∙ h) in
          record {
            stands =
                subst (λ (x : ℕ). StandsAt (handle_install_snapshot n req).0 x) qi
                  (handle_install_snapshot-StandsAt n req snap le (rw qi new) dec (rw (qi, qt) sv)
                    (rw qi rs) (rw (qi, qt) bd));
            same_store =
                ap (λ (m : Node). view m.sm)
                  (handle_install_snapshot-installs n req snap le (rw qi new) dec)
                ∙ ap view (
                    sm-install n1 req snap (rw (follow_installer-stores n req, qi, qt) sv)
                      (rw (follow_installer-sm n req, qi) rs))
                ∙ view-restore-dump taken.sm n1.sm snap req.last_included_index d
                    (rw (follow_installer-sm n req, qi) rs);
          }
