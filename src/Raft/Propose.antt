-- ===== src/Raft/Propose.antt =====
-- Propose of internal/raft/propose.go.
use distributed_kv.Common.{
  ℕ, suc, [], ◌∷◌, Bytes, Option, none, some, Error, not_leader, node_stopping, Result, ok, err,
  add64, ℕ_discrete, if◌then◌else◌,
}
use distributed_kv.Common.Map
use distributed_kv.Raft.Entry.{EntryType}
use distributed_kv.Raft.Log.{PersistentLog}
use distributed_kv.Raft.Log.Writes.{append_entries}
use distributed_kv.Raft.Types.{Transport}
use distributed_kv.Raft.State.{Node, current_term, is_leader, with_log}
use distributed_kv.Raft.Replication.{broadcast_append_entries}
use distributed_kv.Storage.{Engine, Codec}
use distributed_kv.Kv.StateMachine.{Pairs}
use distributed_kv.Raft.Entry.{Entry}
use distributed_kv.Raft.SnapshotStore.{FileSystem, SnapshotMeta}

-- What ends the select of Propose: a message on the waiter's channel, the context, or the stop.
pub data WriteWakeup : Type 0 where
  sent : Option Error → WriteWakeup
  context_done : Error → WriteWakeup
  stopped : WriteWakeup

module _ ⦃E : Engine⦄ ⦃C : Codec Entry⦄ ⦃P : Codec Pairs⦄ ⦃M : Codec SnapshotMeta⦄
    ⦃F : FileSystem⦄ where
  abbrev pub proposed_entry : Node → EntryType → Bytes → Bytes → Bytes → Entry
  proposed_entry n entry_type key value client_request_id = record {
    index = add64 n.log.last_index 1;
    term = current_term n;
    entry_type = entry_type;
    key = key;
    value = value;
    client_request_id = client_request_id;
  }

  abbrev pub register : Node → ℕ → Node
  register n index = record n {
    write_waiters = Map.insert ℕ_discrete index n.next_channel n.write_waiters;
    next_channel = suc n.next_channel;
  }

  abbrev pub unregister : Node → ℕ → Node
  unregister n index = record n { write_waiters = Map.delete ℕ_discrete index n.write_waiters }

  abbrev pub after_append : Option Error × PersistentLog → Node → Entry → Result Entry × Node
  after_append (some e, log) n entry = (err e, unregister (with_log n log) entry.index)
  after_append (none, log) n entry = (ok entry, with_log n log)

  -- Propose under its first lock: the entry that was appended, or the error that it returns.
  unfoldable pub begin_propose : Node → EntryType → Bytes → Bytes → Bytes → Result Entry × Node
  begin_propose n entry_type key value client_request_id =
      let entry = proposed_entry n entry_type key value client_request_id in
      let n1 = register n entry.index in
      if is_leader n
      then after_append (append_entries n1.log (entry ∷ []) n1.opts.fsync_on_append) n1 entry
      else (err not_leader, n)

  -- The select of Propose.
  unfoldable pub end_propose : Node → ℕ → WriteWakeup → Option Error × Node
  end_propose n index (sent e) = (e, n)
  end_propose n index (context_done e) = (some e, unregister n index)
  end_propose n index stopped = (some node_stopping, unregister n index)

  abbrev pub replicate_and_wait :
      Transport → (Node → Node) → WriteWakeup → Result Entry × Node → Option Error × Node
  replicate_and_wait T meanwhile wakeup (err e, n) = (some e, n)
  replicate_and_wait T meanwhile wakeup (ok entry, n) =
      end_propose (meanwhile (broadcast_append_entries T n)) entry.index wakeup

  -- `meanwhile` is what other handlers do until the select ends by `wakeup`.
  unfoldable pub propose :
      Transport
      → Node
      → (Node → Node)
      → WriteWakeup
      → EntryType
      → Bytes
      → Bytes
      → Bytes
      → Option Error × Node
  unfolding begin_propose end_propose
  propose T n meanwhile wakeup entry_type key value client_request_id =
      replicate_and_wait T meanwhile wakeup (begin_propose n entry_type key value client_request_id)
