-- ===== src/Raft/Writers/Loops.antt =====
-- The writers that wait on a node under the handlers of internal/raft that loop or reach their peers.
use distributed_kv.Common.{
  inl, inr, ℕ, zero, suc, ◌-◌, ◌≡◌, refl, Option, none, some, List, [], ◌∷◌, Bytes, arith, Error,
  Result, ok, err, Bool-cases,
}
use distributed_kv.Storage.{Engine, Codec}
use distributed_kv.Kv.StateMachine.{Pairs, StateMachine, Snapshot, dump}
use distributed_kv.Raft.Entry.{Entry}
use distributed_kv.Raft.SnapshotStore.{FileSystem, SnapshotMeta, save, load_latest}
use distributed_kv.Raft.Log.{term_at, get_entry}
use distributed_kv.Raft.Types.{
  Transport, PeerInfo, InstallSnapshotRequest, InstallSnapshotResponse, candidate, leader,
}
use distributed_kv.Raft.State.{Node, current_term, is_leader, is_role}
use distributed_kv.Raft.Waiters.{notify_writers, satisfy_pending_reads}
use distributed_kv.Raft.Snapshot.{
  maybe_snapshot, covers, snapshot_at, save_dump, compact_after, send_install_snapshot,
  deliver_install, install_request, on_install_response,
}
use distributed_kv.Raft.Replication.{
  Outgoing, stay, snapshot, request, deliver, replicate_to_peer, replicate_to_all,
  try_advance_commit_index, broadcast_append_entries, append_local,
}
use distributed_kv.Raft.Leader.{take_leadership, become_leader, noop_entry}
use distributed_kv.Raft.Apply.{
  apply_committed, apply_one, apply_read, after_apply, apply_entry, mark_applied, apply_rounds,
}
use distributed_kv.Raft.Writers.{Books, books, TellsOnce-role, Keeps, Keeps-refl, Keeps-trans}
use distributed_kv.Raft.Writers.Local.{
  become_follower-Keeps, on_append_response-Keeps, notify_writers-Keeps,
  books-satisfy_pending_reads,
}

module _ ⦃E : Engine⦄ ⦃C : Codec Entry⦄ ⦃P : Codec Pairs⦄ ⦃M : Codec SnapshotMeta⦄
    ⦃F : FileSystem⦄ where
  books-save_dump : (o : Result Snapshot) (n : Node) (i t : ℕ) → books (save_dump o n i t) ≡ books n
  books-save_dump (err _) n i t = refl
  books-save_dump (ok snap) n i t = compacted (save n.snap_store snap _)
    where
      compacted : (r : Option Error × FileSystem.Disk F) → books (compact_after r n i t) ≡ books n
      compacted (some _, disk) = refl
      compacted (none, disk) = refl

  books-snapshot_at : (o : Option ℕ) (n : Node) (i : ℕ) → books (snapshot_at o n i) ≡ books n
  books-snapshot_at none n i = refl
  books-snapshot_at (some t) n i = books-save_dump (dump n.sm) n i t

  pub books-maybe_snapshot : (n : Node) (i : ℕ) → books (maybe_snapshot n i) ≡ books n
  unfolding maybe_snapshot
  books-maybe_snapshot n i = elim (Bool-cases (covers (load_latest n.snap_store) i)) [
    | inl e ↦ rw e refl
    | inr e ↦ rw e (books-snapshot_at (term_at n.log i) n i)
  ]

  mark_applied-Keeps : (n : Node) (i : ℕ) → Keeps (books n) (books (mark_applied n i))
  unfolding mark_applied
  mark_applied-Keeps n i =
      let n1 = notify_writers (record n { last_applied = i }) i in
      let k = notify_writers-Keeps (record n { last_applied = i }) i in
      ground (
        arith,
        k,
        books-satisfy_pending_reads n1,
        books-maybe_snapshot (satisfy_pending_reads n1) i,
      )

  after_apply-Keeps :
      (r : Option Error × StateMachine) (n : Node) (i : ℕ)
      → Keeps (books n) (books (after_apply r n i).1)
  after_apply-Keeps (some _, sm) n i = Keeps-refl (books n)
  after_apply-Keeps (none, sm) n i = mark_applied-Keeps (record n { sm = sm }) i

  apply_read-Keeps :
      (r : Result Entry) (n : Node) (i : ℕ) → Keeps (books n) (books (apply_read r n i).1)
  apply_read-Keeps (err _) n i = Keeps-refl (books n)
  apply_read-Keeps (ok e) n i = after_apply-Keeps (apply_entry n.sm e) n i

  apply_rounds-Keeps : (k : ℕ) (n : Node) (i : ℕ) → Keeps (books n) (books (apply_rounds k n i))
  unfolding apply_rounds
  apply_rounds-Keeps zero n i = Keeps-refl (books n)
  apply_rounds-Keeps (suc k) n i =
      let first = apply_read-Keeps (get_entry n.log (suc i)) n (suc i) in
      elim (Bool-cases (apply_one n (suc i)).0) [
        | inl e ↦
            rw (e, apply_rounds)
              (Keeps-trans first (apply_rounds-Keeps k (apply_one n (suc i)).1 (suc i)))
        | inr e ↦ rw (e, apply_rounds) first
      ]

  pub apply_committed-Keeps : (n : Node) → Keeps (books n) (books (apply_committed n))
  unfolding apply_committed
  apply_committed-Keeps n = apply_rounds-Keeps (n.commit_index - n.last_applied) n n.last_applied

  pub books-try_advance_commit_index :
      (n : Node) (term : ℕ) → books (try_advance_commit_index n term) ≡ books n
  unfolding try_advance_commit_index
  books-try_advance_commit_index n term = ground arith

  on_install_response-Keeps :
      (n : Node) (peer : Bytes) (term i : ℕ) (r : Result InstallSnapshotResponse)
      → Keeps (books n) (books (on_install_response n peer term i r))
  unfolding on_install_response
  on_install_response-Keeps n peer term i (err _) = Keeps-refl (books n)
  on_install_response-Keeps n peer term i (ok r) =
      ground (arith, Keeps-refl (books n), become_follower-Keeps n r.term [] [])

  deliver-Keeps :
      (T : Transport) (n : Node) (peer : Bytes) (term : ℕ) (o : Outgoing)
      → Keeps (books n) (books (deliver T n peer term o))
  unfolding send_install_snapshot
  deliver-Keeps T n peer term stay = Keeps-refl (books n)
  deliver-Keeps T n peer term snapshot =
      installs (install_request n term (load_latest n.snap_store))
    where
      installs :
          (o : Option InstallSnapshotRequest)
          → Keeps (books n) (books (deliver_install T n peer term o))
      installs none = Keeps-refl (books n)
      installs (some req) = on_install_response-Keeps n peer term _ (T.install_snapshot peer req)
  deliver-Keeps T n peer term (request req) =
      on_append_response-Keeps n peer term req.entries (T.append_entries peer req)

  replicate_to_all-Keeps :
      (T : Transport) (n : Node) (ps : List PeerInfo) (term : ℕ)
      → Keeps (books n) (books (replicate_to_all T n ps term))
  unfolding replicate_to_all
  replicate_to_all-Keeps T n [] term = Keeps-refl (books n)
  replicate_to_all-Keeps T n (p ∷ ps) term =
      Keeps-trans (unfold replicate_to_peer in deliver-Keeps T n p.id term _)
        (replicate_to_all-Keeps T (replicate_to_peer T n p.id term) ps term)

  pub broadcast_append_entries-Keeps :
      (T : Transport) (n : Node) → Keeps (books n) (books (broadcast_append_entries T n))
  unfolding broadcast_append_entries
  broadcast_append_entries-Keeps T n = elim (Bool-cases (is_leader n)) [
    | inl e ↦
        rw (e, books-try_advance_commit_index) (replicate_to_all-Keeps T n n.peers (current_term n))
    | inr e ↦ rw e (Keeps-refl (books n))
  ]

  -- A new leader has the writers that it had as a candidate: none.
  promote-Keeps : (b : Books) → Keeps b (record b { role = leader })
  promote-Keeps b = record { tells = TellsOnce-role b leader; waits = λ w h. absurd (cc) }

  pub become_leader-Keeps : (T : Transport) (n : Node) → Keeps (books n) (books (become_leader T n))
  unfolding become_leader append_local
  become_leader-Keeps T n = elim (Bool-cases (is_role n.role candidate)) [
    | inl e ↦ rw e (
        Keeps-trans (promote-Keeps (books n))
          (broadcast_append_entries-Keeps T (append_local (take_leadership n) noop_entry).1))
    | inr e ↦ rw e (Keeps-refl (books n))
  ]
