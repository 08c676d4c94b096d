-- ===== src/Server.antt =====
-- internal/server: the gRPC boundary of a node.
pub mod Wire
pub mod RaftServer
pub mod Transport
pub mod ClientServer
pub mod Loopback
pub mod Reads
