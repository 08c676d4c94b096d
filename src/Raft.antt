-- ===== src/Raft.antt =====
-- internal/raft: the consensus core.
pub mod Entry
pub mod Log
pub mod Types
pub mod SnapshotStore
pub mod State
pub mod Waiters
pub mod Lifecycle
pub mod Snapshot
pub mod Replication
pub mod Follower
pub mod Leader
pub mod Apply
pub mod Election
pub mod Propose
pub mod ReadIndex
pub mod Steps
pub mod Cluster
pub mod Timer
pub mod Sound
pub mod Writers
pub mod Alone
pub mod Signals
pub mod Process
pub mod Matching
pub mod Ballots
