-- ===== src/Raft/Sound/First.antt =====
-- The log of a node of internal/raft that NewNode makes on an empty engine.
use distributed_kv.Common.{
  ◌≡◌, sym, ◌∙◌, subst, Option, none, some, List, Bytes, arith, Result, ok, err, >>=-eq-ok, ap,
}
use distributed_kv.Storage.{Engine, Codec}
use distributed_kv.Kv.StateMachine.{Pairs, StateMachine, Snapshot}
use distributed_kv.Raft.Entry.{Entry}
use distributed_kv.Raft.SnapshotStore.{FileSystem, SnapshotMeta, load_latest}
use distributed_kv.Raft.Log.{PersistentLog, open_persistent_log}
use distributed_kv.Raft.Log.Recover.{IsReadable, open-recovers}
use distributed_kv.Raft.Log.Runs.{blank, blank-IsValid, reopened, reopened-IsValid}
use distributed_kv.Raft.Log.Sound.{IsSound}
use distributed_kv.Raft.Types.{PeerInfo, Options}
use distributed_kv.Raft.State.{Node, new_node, restored, fresh_node}

module _ ⦃E : Engine⦄ ⦃C : Codec Entry⦄ ⦃P : Codec Pairs⦄ ⦃M : Codec SnapshotMeta⦄
    ⦃F : FileSystem⦄ where
  restored-log :
      (n : Node) (o : Result (Option (Snapshot × SnapshotMeta))) {n' : Node}
      → restored n o ≡ ok n'
      → n'.log ≡ n.log
  restored-log n (err e) h = cc
  restored-log n (ok none) h = logs h
    where
      logs : {x y : Node} → ok x ≡ ok y → y.log ≡ x.log
      logs e = cc
  restored-log n (ok (some (snap, meta))) h = ground arith

  -- A new node has the log that its engine holds.
  new_node-log :
      (id : Bytes) (peers : List PeerInfo) (opts : Options) (db : Engine.Db E) (sm : StateMachine)
      (disk : FileSystem.Disk F) (addr : Bytes) {n : Node}
      → new_node id peers opts db sm disk addr ≡ ok n
      → open_persistent_log db ≡ ok n.log
  unfolding new_node
  new_node-log id peers opts db sm disk addr h =
      let (log, opened, rest) = >>=-eq-ok (open_persistent_log db) _ h in
      opened
      ∙ ap ok
          (sym (restored-log (fresh_node id peers opts log sm disk addr) (load_latest disk) rest))

  reopened-IsSound : (pl : PersistentLog) → IsSound pl → IsSound (reopened pl)
  reopened-IsSound pl s = record { valid = reopened-IsValid pl s.valid; terms_fit = s.terms_fit }

  blank-IsSound :
      (db : Engine.Db E) → ((k : Bytes) → Engine.contents E db k ≡ none) → IsSound (blank db)
  blank-IsSound db empty = record {
    valid = blank-IsValid db empty;
    terms_fit = (record { fits = λ i e p q h. absurd (omega arith) }, omega arith);
  }

  module _ (r : (d : Engine.Db E) → IsReadable d) where
    opened-IsSound :
        (pl : PersistentLog) {pl' : PersistentLog}
        → IsSound pl
        → open_persistent_log pl.engine ≡ ok pl'
        → IsSound pl'
    opened-IsSound pl s h =
        subst IsSound (same (sym (open-recovers pl s.valid (r pl.engine)) ∙ h))
          (reopened-IsSound pl s)
      where
        same : {x y : PersistentLog} → ok x ≡ ok y → x ≡ y
        same e = cc

    -- The log of a node that starts on an empty engine.
    pub first-IsSound :
        (id : Bytes) (peers : List PeerInfo) (opts : Options) (db : Engine.Db E) (sm : StateMachine)
        (disk : FileSystem.Disk F) (addr : Bytes) {a : Node}
        → ((k : Bytes) → Engine.contents E db k ≡ none)
        → new_node id peers opts db sm disk addr ≡ ok a
        → IsSound a.log
    first-IsSound id peers opts db sm disk addr empty made =
        opened-IsSound (blank db) (blank-IsSound db empty)
          (new_node-log id peers opts db sm disk addr made)
