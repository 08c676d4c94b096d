-- ===== src/Raft/Timer.antt =====
-- The timer loop of internal/raft/node_lifecycle.go and the timeouts of internal/raft/rand.go.
pub mod InRange
use distributed_kv.Common.{
  ℕ, ◌^◌, Bool, true, false, List, [], ◌∷◌, add64, sub64, ltb, if◌then◌else◌, not,
}
use distributed_kv.Config.{signed_lt}
use distributed_kv.Storage.{Engine, Codec}
use distributed_kv.Kv.StateMachine.{Pairs}
use distributed_kv.Raft.Entry.{Entry}
use distributed_kv.Raft.SnapshotStore.{FileSystem, SnapshotMeta}
use distributed_kv.Raft.Types.{Transport, leader, Options}
use distributed_kv.Raft.State.{Node, is_leader}
use distributed_kv.Raft.Replication.{broadcast_append_entries}
use distributed_kv.Raft.Election.{Arrival, start_election}

-- electionTimeout(min, max); `draw` is rand.Int63n.
unfoldable pub election_timeout : (ℕ → ℕ) → ℕ → ℕ → ℕ
election_timeout draw min max =
    if not (signed_lt min max) then min else add64 min (draw (sub64 max min))

-- A timeout that the loop arms.
unfoldable pub next_timeout : Options → (ℕ → ℕ) → ℕ
unfolding election_timeout
next_timeout opts draw =
    add64 opts.election_timeout_min
      (election_timeout draw 0 (sub64 opts.election_timeout_max opts.election_timeout_min))

module _ ⦃E : Engine⦄ ⦃C : Codec Entry⦄ ⦃P : Codec Pairs⦄ ⦃M : Codec SnapshotMeta⦄
    ⦃F : FileSystem⦄ where
  -- What the select of the loop meets, with the next random number where the timer is armed again, or
  -- a handler that runs in between.
  pub data TimerEvent : Type 0 where
    stopped heartbeat : TimerEvent
    reset : (ℕ → ℕ) → TimerEvent
    elapsed : (ℕ → ℕ) → List (Arrival Node) → (Node → Node) → TimerEvent
    meanwhile : (Node → Node) → TimerEvent

  -- The loop: the node it leaves, beside the timeouts armed.
  unfoldable pub timer_loop : Transport → Node → List TimerEvent → Node × List ℕ
  unfolding next_timeout
  timer_loop T n [] = (n, [])
  timer_loop T n (stopped ∷ events) = (n, [])
  timer_loop T n (heartbeat ∷ events) =
      timer_loop T (if is_leader n then broadcast_append_entries T n else n) events
  timer_loop T n (meanwhile f ∷ events) = timer_loop T (f n) events
  timer_loop T n (reset draw ∷ events) =
      let (n', armed) = timer_loop T (record n { election_reset = false }) events in
      (n', next_timeout n.opts draw ∷ armed)
  timer_loop T n (elapsed draw arrivals settle ∷ events) =
      let (n', armed) =
        timer_loop T (if is_leader n then n else start_election T n arrivals settle) events in
      (n', next_timeout n.opts draw ∷ armed)

  -- runTimerLoop: the timer is armed, and then the loop.
  unfoldable pub run_timer_loop : Transport → Node → (ℕ → ℕ) → List TimerEvent → Node × List ℕ
  unfolding timer_loop
  run_timer_loop T n draw events =
      let (n', armed) = timer_loop T n events in (n', next_timeout n.opts draw ∷ armed)
