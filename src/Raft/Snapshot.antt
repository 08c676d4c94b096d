-- ===== src/Raft/Snapshot.antt =====
-- Taking, sending and installing snapshots: the Node methods of internal/raft/snapshot.go.
pub mod Install
pub mod Transfer
use distributed_kv.Common.{
  ℕ, Bool, false, [], Bytes, bytes_discrete, Option, none, some, Error, Result, ok, err, add64, ltb,
  leb, ◌==◌, if◌then◌else◌, ◌&&◌,
}
use distributed_kv.Common.Map
use distributed_kv.Raft.Log.{PersistentLog, term_at}
use distributed_kv.Raft.Log.Writes.{compact_prefix, restore_snapshot_boundary}
use distributed_kv.Kv.StateMachine.{
  StateMachine, Snapshot, marshal, unmarshal_snapshot, dump, restore,
}
use distributed_kv.Raft.SnapshotStore.{save, load_latest}
use distributed_kv.Raft.Types.{follower, Transport, InstallSnapshotRequest, InstallSnapshotResponse}
use distributed_kv.Raft.State.{Node, current_term, is_leader, with_log}
use distributed_kv.Raft.Lifecycle.{reset_election_timer, become_follower, persist_vote}
use distributed_kv.Storage.{Engine, Codec}
use distributed_kv.Kv.StateMachine.{Pairs}
use distributed_kv.Raft.Entry.{Entry}
use distributed_kv.Raft.SnapshotStore.{FileSystem, SnapshotMeta}

-- `ok && existingMeta.LastIncludedIndex >= index`, where a failed load counts as not ok.
abbrev pub covers : Result (Option (Snapshot × SnapshotMeta)) → ℕ → Bool
covers (ok (some (_, meta))) index = leb index meta.last_included_index
covers _ index = false

module _ ⦃E : Engine⦄ ⦃C : Codec Entry⦄ ⦃P : Codec Pairs⦄ ⦃M : Codec SnapshotMeta⦄
    ⦃F : FileSystem⦄ where
  abbrev pub compact_after : Option Error × FileSystem.Disk F → Node → ℕ → ℕ → Node
  compact_after (some _, disk) n index term = record n { snap_store = disk }
  compact_after (none, disk) n index term = record n {
    snap_store = disk;
    log = (compact_prefix n.log index term).1;
  }

  abbrev pub save_dump : Result Snapshot → Node → ℕ → ℕ → Node
  save_dump (err _) n index term = n
  save_dump (ok snap) n index term =
      compact_after
        (save n.snap_store snap (record { last_included_index = index; last_included_term = term }))
        n index term

  abbrev pub snapshot_at : Option ℕ → Node → ℕ → Node
  snapshot_at none n index = n
  snapshot_at (some term) n index = save_dump (dump n.sm) n index term

  unfoldable pub maybe_snapshot : Node → ℕ → Node
  maybe_snapshot n applied_index =
      if covers (load_latest n.snap_store) applied_index
      then n
      else snapshot_at (term_at n.log applied_index) n applied_index

  -- The request that sendInstallSnapshot sends, if there is a snapshot to send.
  abbrev pub install_request :
      Node → ℕ → Result (Option (Snapshot × SnapshotMeta)) → Option InstallSnapshotRequest
  install_request n term (err _) = none
  install_request n term (ok none) = none
  install_request n term (ok (some (snap, meta))) = with_bytes (marshal snap)
    where
      with_bytes : Result Bytes → Option InstallSnapshotRequest
      with_bytes (err _) = none
      with_bytes (ok bytes) = some (record {
        term = term;
        leader_id = n.id;
        last_included_index = meta.last_included_index;
        last_included_term = meta.last_included_term;
        snapshot_bytes = bytes;
      })

  -- sendInstallSnapshot from the answer on.
  unfoldable pub on_install_response : Node → Bytes → ℕ → ℕ → Result InstallSnapshotResponse → Node
  on_install_response n peer term index (err _) = n
  on_install_response n peer term index (ok resp) =
      if ltb term resp.term
      then become_follower n resp.term [] []
      else if is_leader n && (current_term n == term)
      then record n {
        next_index = Map.insert bytes_discrete peer (add64 index 1) n.next_index;
        match_index = Map.insert bytes_discrete peer index n.match_index;
      }
      else n

  abbrev pub deliver_install : Transport → Node → Bytes → ℕ → Option InstallSnapshotRequest → Node
  deliver_install T n peer term none = n
  deliver_install T n peer term (some req) =
      on_install_response n peer term req.last_included_index (T.install_snapshot peer req)

  unfoldable pub send_install_snapshot : Transport → Node → Bytes → ℕ → Node
  unfolding on_install_response
  send_install_snapshot T n peer term =
      deliver_install T n peer term (install_request n term (load_latest n.snap_store))

  -- The last steps of HandleInstallSnapshot; each early return leaves the node so far.
  abbrev pub set_boundary : Option Error × PersistentLog → Node → ℕ → Node
  set_boundary (some _, log) n index = with_log n log
  set_boundary (none, log) n index = record n {
    log = log;
    last_applied = index;
    commit_index = index;
  }

  abbrev pub after_restore : Option Error × StateMachine → Node → InstallSnapshotRequest → Node
  after_restore (some _, sm) n req = record n { sm = sm }
  after_restore (none, sm) n req =
      set_boundary (restore_snapshot_boundary n.log req.last_included_index req.last_included_term)
        (record n { sm = sm }) req.last_included_index

  abbrev pub after_save :
      Option Error × FileSystem.Disk F → Node → Snapshot → InstallSnapshotRequest → Node
  after_save (some _, disk) n snap req = record n { snap_store = disk }
  after_save (none, disk) n snap req =
      after_restore (restore n.sm snap req.last_included_index) (record n { snap_store = disk }) req

  abbrev pub install : Node → InstallSnapshotRequest → Result Snapshot → Node
  install n req (err _) = n
  install n req (ok snap) =
      after_save
        (save n.snap_store snap (record {
          last_included_index = req.last_included_index;
          last_included_term = req.last_included_term;
        }))
        n snap req

  -- HandleInstallSnapshot once the term is settled: the node follows, and its timer is reset.
  abbrev pub follow_installer : Node → InstallSnapshotRequest → Node
  follow_installer n req =
      let n1 = if ltb (current_term n) req.term then persist_vote n req.term [] else n in
      reset_election_timer (record n1 { role = follower; leader_id = req.leader_id })

  unfoldable pub handle_install_snapshot :
      Node → InstallSnapshotRequest → Node × InstallSnapshotResponse
  handle_install_snapshot n req =
      if ltb req.term (current_term n)
      then (n, record { term = current_term n })
      else let n1 = follow_installer n req in
        let settled = if ltb (current_term n) req.term then req.term else current_term n in
        let resp : InstallSnapshotResponse = record { term = settled } in
        if covers (load_latest n1.snap_store) req.last_included_index
        then (n1, resp)
        else (install n1 req (unmarshal_snapshot req.snapshot_bytes), resp)
