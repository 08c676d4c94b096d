-- ===== src/Raft/Signals.antt =====
-- What the apply loop of internal/raft/node_lifecycle.go goes by: the index it applied, the commit
-- index, and the token of signalCommitAdvanced.
pub mod Handlers
pub mod Installs
use distributed_kv.Common.{ℕ, ◌≤◌, ◌<◌, ◌≡◌, Bool, true, arith, refl}
use distributed_kv.Storage.{Engine, Codec}
use distributed_kv.Kv.StateMachine.{Pairs}
use distributed_kv.Raft.Entry.{Entry}
use distributed_kv.Raft.SnapshotStore.{FileSystem, SnapshotMeta}
use distributed_kv.Raft.State.{Node}

pub record Marks : Type 0 where
  pub applied : ℕ
  pub committed : ℕ
  pub pending : Bool

module _ ⦃E : Engine⦄ ⦃C : Codec Entry⦄ ⦃P : Codec Pairs⦄ ⦃M : Codec SnapshotMeta⦄
    ⦃F : FileSystem⦄ where
  abbrev pub marks : Node → Marks
  marks n = record {
    applied = n.last_applied;
    committed = n.commit_index;
    pending = n.commit_advanced;
  }

-- Nothing is applied before it is committed, and where something is left to apply, a token is in
-- the channel.
pub record IsAwake (m : Marks) : Type 0 where
  pub ordered : m.applied ≤ m.committed
  pub awake : m.applied < m.committed → m.pending ≡ true

pub IsAwake-committed :
    (m : Marks) (i : ℕ)
    → m.committed < i
    → IsAwake m
    → IsAwake (record { applied = m.applied; committed = i; pending = true })
IsAwake-committed m i lt a = record { ordered = omega (arith, a.ordered); awake = λ h. refl }

-- Everything is applied.
pub IsAwake-even : (i : ℕ) (b : Bool) → IsAwake (record { applied = i; committed = i; pending = b })
IsAwake-even i b = record { ordered = omega arith; awake = λ h. absurd (omega arith) }
