-- ===== src/Raft/Waiters.antt =====
-- Who waits on a node, and how it is woken: the writers of internal/raft/propose.go and the reads of
-- internal/raft/readindex.go.
use distributed_kv.Common.{
  ℕ, suc, Option, none, some, List, [], ◌∷◌, ◌++◌, ℕ_discrete, Error, proposal_dropped,
  read_index_timeout, node_stopping, leb, ◌==◌, if◌then◌else◌, length,
}
use distributed_kv.Common.Map
use distributed_kv.Common.Map.{Map}
use distributed_kv.Raft.State.{Node, PendingRead}
use distributed_kv.Storage.{Engine, Codec}
use distributed_kv.Kv.StateMachine.{Pairs}
use distributed_kv.Raft.Entry.{Entry}
use distributed_kv.Raft.SnapshotStore.{FileSystem, SnapshotMeta}

-- Each channel in the map is sent ErrProposalDropped.
unfoldable pub drop_all : Map ℕ ℕ → List (ℕ × Option Error) → List (ℕ × Option Error)
drop_all [] sent = sent
drop_all ((_, ch) ∷ waiters) sent = drop_all waiters ((ch, some proposal_dropped) ∷ sent)

-- The channels of the reads whose index is applied, and the reads that stay.
unfoldable pub satisfied : ℕ → List PendingRead → List ℕ
satisfied applied [] = []
satisfied applied (pr ∷ prs) =
    let rest = satisfied applied prs in if leb pr.read_index applied then pr.done ∷ rest else rest

unfoldable pub remaining : ℕ → List PendingRead → List PendingRead
remaining applied [] = []
remaining applied (pr ∷ prs) =
    let rest = remaining applied prs in if leb pr.read_index applied then rest else pr ∷ rest

-- The loop of removePending: the first read with the channel goes.
unfoldable pub remove_pending : ℕ → List PendingRead → List PendingRead
remove_pending done [] = []
remove_pending done (pr ∷ prs) =
    let rest = pr ∷ remove_pending done prs in if pr.done == done then prs else rest

-- What ends the select of waitForApplied.
pub data ReadWakeup : Type 0 where
  applied timed_out stopped : ReadWakeup
  context_done : Error → ReadWakeup

module _ ⦃E : Engine⦄ ⦃C : Codec Entry⦄ ⦃P : Codec Pairs⦄ ⦃M : Codec SnapshotMeta⦄
    ⦃F : FileSystem⦄ where
  abbrev pub notify : Node → ℕ → Option ℕ → Node
  notify n index none = n
  notify n index (some ch) = record n {
    delivered = (ch, none) ∷ n.delivered;
    write_waiters = Map.delete ℕ_discrete index n.write_waiters;
  }

  unfoldable pub notify_writers : Node → ℕ → Node
  notify_writers n applied_index =
      notify n applied_index (Map.lookup ℕ_discrete applied_index n.write_waiters)

  unfoldable pub fail_stale_writers : Node → Node
  unfolding drop_all
  fail_stale_writers n = record n {
    delivered = drop_all n.write_waiters n.delivered;
    write_waiters = [];
  }

  unfoldable pub satisfy_pending_reads : Node → Node
  unfolding satisfied remaining
  satisfy_pending_reads n = if length n.pending_reads == 0 then n else record n {
    closed = satisfied n.last_applied n.pending_reads ++ n.closed;
    pending_reads = remaining n.last_applied n.pending_reads;
  }

  -- waitForApplied up to its select: the channel to wait on, or none if there is no wait.
  unfoldable pub begin_wait : Node → ℕ → Option ℕ × Node
  begin_wait n index = if leb index n.last_applied then (none, n) else (
    some n.next_channel,
    record n {
      pending_reads = n.pending_reads ++ record { read_index = index; done = n.next_channel } ∷ [];
      next_channel = suc n.next_channel;
    },
  )

  abbrev pub without_read : Node → ℕ → Node
  without_read n done = record n { pending_reads = remove_pending done n.pending_reads }

  -- waitForApplied from its select on.
  unfoldable pub end_wait : Node → ℕ → ReadWakeup → Option Error × Node
  unfolding remove_pending
  end_wait n done applied = (none, n)
  end_wait n done (context_done e) = (some e, without_read n done)
  end_wait n done stopped = (some node_stopping, without_read n done)
  end_wait n done timed_out = (some read_index_timeout, without_read n done)
