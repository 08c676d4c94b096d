-- ===== src/Examples.antt =====
-- Concrete engines, codecs and files, and the theorems at concrete inputs.
pub mod Memory
pub mod Codecs
pub mod Files
pub mod Nodes
pub mod LogRuns
pub mod NodeRuns
pub mod MoreRuns
pub mod ClusterRuns
pub mod ServerRuns
pub mod PebbleRuns
pub mod SnapshotRuns
pub mod LifeRuns
pub mod WriterRuns
pub mod AloneRuns
pub mod MatchRuns
pub mod TransferRuns
pub mod BallotRuns
