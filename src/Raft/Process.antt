-- ===== src/Raft/Process.antt =====
-- The goroutines of a node of internal/raft/node_lifecycle.go: Start, Stop, and the loops' selects.
pub mod Wakes
use distributed_kv.Common.{◌≡◌, Bool, true, false, Option, none, some, if◌then◌else◌}
use distributed_kv.Storage.{Engine, Codec}
use distributed_kv.Kv.StateMachine.{Pairs}
use distributed_kv.Raft.Entry.{Entry}
use distributed_kv.Raft.SnapshotStore.{FileSystem, SnapshotMeta}
use distributed_kv.Raft.State.{Node}
use distributed_kv.Raft.Apply.{apply_committed}
use distributed_kv.Raft.Steps.{Step}

-- close(ch): a closed channel makes it panic.
unfoldable pub close_channel : Bool → Option Bool
close_channel true = none
close_channel false = some true

module _ ⦃E : Engine⦄ ⦃C : Codec Entry⦄ ⦃P : Codec Pairs⦄ ⦃M : Codec SnapshotMeta⦄
    ⦃F : FileSystem⦄ where
  -- A node with its two goroutines, its stopCh and its stopOnce.
  pub record Process : Type 0 where
    pub node : Node
    pub timer_runs : Bool
    pub apply_runs : Bool
    pub stop_closed : Bool
    pub stop_done : Bool

  -- What NewNode returns.
  abbrev pub new_process : Node → Process
  new_process n = record {
    node = n;
    timer_runs = false;
    apply_runs = false;
    stop_closed = false;
    stop_done = false;
  }

  abbrev pub start : Process → Process
  start p = record p { timer_runs = true; apply_runs = true }

  abbrev pub closing : Process → Option Bool → Option Process
  closing p none = none
  closing p (some closed) = some (record p { stop_closed = closed; stop_done = true })

  -- Stop up to its wait; none is a panic.
  unfoldable pub stop : Process → Option Process
  unfolding close_channel
  stop p = if p.stop_done then some p else closing p (close_channel p.stop_closed)

  -- The apply loop takes the token, or its ticker fires.
  abbrev pub apply_signalled : Process → Process
  apply_signalled p = record p {
    node = apply_committed (record p.node { commit_advanced = false });
  }

  abbrev pub apply_ticked : Process → Process
  apply_ticked p = record p { node = apply_committed p.node }

  -- What happens to a process next: a handler runs, which elections and heartbeats of the timer
  -- loop and the calls of clients and peers are made of, a loop takes a case of its select that is
  -- ready, or Stop is called.
  pub data Round : Process → Process → Type 0 where
    handled : (p : Process) {n : Node} → Step p.node n → Round p (record p { node = n })
    signalled :
        (p : Process)
        → p.apply_runs ≡ true
        → p.node.commit_advanced ≡ true
        → Round p (apply_signalled p)
    ticked : (p : Process) → p.apply_runs ≡ true → Round p (apply_ticked p)
    timer_reset :
        (p : Process)
        → p.timer_runs ≡ true
        → p.node.election_reset ≡ true
        → Round p (record p { node = record p.node { election_reset = false } })
    apply_ends :
        (p : Process)
        → p.apply_runs ≡ true
        → p.stop_closed ≡ true
        → Round p (record p { apply_runs = false })
    timer_ends :
        (p : Process)
        → p.timer_runs ≡ true
        → p.stop_closed ≡ true
        → Round p (record p { timer_runs = false })
    stop_called : (p : Process) {q : Process} → stop p ≡ some q → Round p q

  -- Any number of rounds.
  pub data Rounds : Process → Process → Type 0 where
    at_start : (p : Process) → Rounds p p
    next : {p q s : Process} → Rounds p q → Round q s → Rounds p s
