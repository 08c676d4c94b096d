-- ===== src/Raft/Writers.antt =====
-- The writers that wait on a node of internal/raft/propose.go: which channels are open and which were
-- told.
pub mod Local
pub mod Loops
pub mod Installs
pub mod Told
pub mod Stale
pub mod Applied
use distributed_kv.Common.{
  ℕ, suc, ◌+◌, ◌≤◌, ◌≡◌, refl, false, Option, none, some, List, [], ◌∷◌, ℕ_discrete, Error, arith,
  ◌==◌, if◌then◌else◌,
}
use distributed_kv.Common.Map
use distributed_kv.Common.Map.{Map}
use distributed_kv.Storage.{Engine, Codec}
use distributed_kv.Kv.StateMachine.{Pairs}
use distributed_kv.Raft.Entry.{Entry}
use distributed_kv.Raft.SnapshotStore.{FileSystem, SnapshotMeta}
use distributed_kv.Raft.Types.{Role, leader}
use distributed_kv.Raft.State.{Node, is_role}
use distributed_kv.Raft.Waiters.{drop_all}

-- How many writers wait on a channel.
unfoldable pub waiting : ℕ → Map ℕ ℕ → ℕ
waiting ch [] = 0
waiting ch ((_, c) ∷ m) = (if c == ch then 1 else 0) + waiting ch m

-- How many messages were sent on a channel.
unfoldable pub told : ℕ → List (ℕ × Option Error) → ℕ
told ch [] = 0
told ch ((c, _) ∷ sent) = (if c == ch then 1 else 0) + told ch sent

-- What a node knows of its writers.
pub record Books : Type 0 where
  pub waiters : Map ℕ ℕ
  pub sent : List (ℕ × Option Error)
  pub next : ℕ
  pub role : Role

module _ ⦃E : Engine⦄ ⦃C : Codec Entry⦄ ⦃P : Codec Pairs⦄ ⦃M : Codec SnapshotMeta⦄
    ⦃F : FileSystem⦄ where
  abbrev pub books : Node → Books
  books n = record {
    waiters = n.write_waiters;
    sent = n.delivered;
    next = n.next_channel;
    role = n.role;
  }

-- Every channel is open for one writer, was told once, or neither; the next channel is new.
pub record TellsOnce (b : Books) : Type 0 where
  pub once : (ch : ℕ) → waiting ch b.waiters + told ch b.sent ≤ 1
  pub fresh : (ch : ℕ) → b.next ≤ ch → waiting ch b.waiters + told ch b.sent ≡ 0

-- Writers wait on a leader only.
abbrev pub LeaderWaits : Books → Type 0
LeaderWaits b = is_role b.role leader ≡ false → b.waiters ≡ []

-- What a handler keeps of both.
pub record Keeps (a b : Books) : Type 0 where
  pub tells : TellsOnce a → TellsOnce b
  pub waits : LeaderWaits a → LeaderWaits b

pub Keeps-refl : (a : Books) → Keeps a a
Keeps-refl a = record { tells = λ h. h; waits = λ h. h }

pub Keeps-trans : {a b c : Books} → Keeps a b → Keeps b c → Keeps a c
Keeps-trans p q = record { tells = λ h. q.tells (p.tells h); waits = λ h. q.waits (p.waits h) }

pub told-drop_all :
    (ch : ℕ) (m : Map ℕ ℕ) (sent : List (ℕ × Option Error))
    → told ch (drop_all m sent) ≡ waiting ch m + told ch sent
unfolding told drop_all waiting
told-drop_all ch [] sent = omega arith
told-drop_all ch ((_, c) ∷ m) sent =
    omega (arith, told-drop_all ch m ((c, some distributed_kv.Common.proposal_dropped) ∷ sent))

pub waiting-delete-le :
    (ch k : ℕ) (m : Map ℕ ℕ) → waiting ch (Map.delete ℕ_discrete k m) ≤ waiting ch m
unfolding waiting Map.delete
waiting-delete-le ch k [] = omega arith
waiting-delete-le ch k ((j, c) ∷ m) = ground (arith, waiting-delete-le ch k m)

-- The channel that was found is gone with its key.
pub waiting-delete :
    (ch k c : ℕ) (m : Map ℕ ℕ)
    → Map.lookup ℕ_discrete k m ≡ some c
    → waiting ch (Map.delete ℕ_discrete k m) + (if c == ch then 1 else 0) ≤ waiting ch m
unfolding waiting Map.delete Map.lookup
waiting-delete ch k c [] h = cc
waiting-delete ch k c ((j, d) ∷ m) h =
    ground (arith, waiting-delete-le ch k m, waiting-delete ch k c m)

-- Dropping all writers tells each of them.
pub TellsOnce-drop :
    (b : Books) (r : Role)
    → TellsOnce b
    → TellsOnce (record { waiters = []; sent = drop_all b.waiters b.sent; next = b.next; role = r })
unfolding waiting
TellsOnce-drop b r t = record {
  once = λ ch. omega (arith, told-drop_all ch b.waiters b.sent, t.once ch);
  fresh = λ ch h. omega (arith, told-drop_all ch b.waiters b.sent, t.fresh ch h);
}

pub TellsOnce-role : (b : Books) (r : Role) → TellsOnce b → TellsOnce (record b { role = r })
TellsOnce-role b r t = record { once = t.once; fresh = t.fresh }
