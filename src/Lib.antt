-- ===== src/Lib.antt =====
-- A replicated key-value store: a Raft cluster whose nodes apply committed operations to an
-- embedded key-value engine. Clients call the leader over gRPC, and the nodes call each other.
--
-- The parts and their files. Paths are from the root of the repository.
-- Storage: the engine contract of internal/storage/storage.go. `Engine` is a record of the
--   operations and the laws that the interface documents. A write returns its error beside the
--   engine. Storage.Pebble: internal/storage/pebble.go over a record `Pebble` of what it uses of the
--   package pebble; Storage.Pebble.Contract makes an `Engine` of it. `Codec` stands for encoding/gob
--   and encoding/json.
-- Kv.StateMachine: internal/kv/state_machine.go, one function per method. Kv.StateMachine.View is
--   its abstract view: a function from keys to values, and the effect of an entry on it.
-- Raft.Entry, Raft.Log, Raft.Log.Writes: internal/raft/log.go. `PersistentLog` has the fields of
--   the struct; each method is a function that returns the log it leaves. Raft.Log.Valid says when a
--   log is well formed: the indices agree, the engine holds one decodable entry at each index
--   between the boundary and the end and no other key of the log, a restart would read the same
--   metadata, and the cache agrees with the engine. The other children of Raft.Log hold the proofs.
--   Raft.Log.Runs: a log over its life, with restarts.
-- Raft.Types, Raft.State: internal/raft/state.go. Raft.Lifecycle, Raft.Leader, Raft.Apply and
--   Raft.Timer: internal/raft/node_lifecycle.go, the last one with the timeouts of
--   internal/raft/rand.go. Raft.Election: election.go. Raft.Replication and Raft.Follower:
--   replication.go. Raft.SnapshotStore and Raft.Snapshot: snapshot.go. Raft.Propose and
--   Raft.Waiters: propose.go. Raft.ReadIndex and Raft.Waiters: readindex.go.
-- Raft.Steps: the handlers of a node as steps, each run to its end; what is proved over them
--   concerns what only n.mu guards. Raft.Ballots: the term and the vote of a node by single reads
--   and calls of SetTermAndVote, as the handlers of a node interleave; Raft.Ballots.Handlers ties
--   them to the handlers. Raft.Cluster: any number of such nodes, with the votes given so far.
--   Raft.Process: the goroutines of internal/raft/node_lifecycle.go as a step
--   relation, with Start and Stop; Raft.Signals: the tokens that wake its apply loop. Raft.Writers:
--   who waits in Propose and what it was sent, through each handler. Raft.Matching: the request that
--   a leader builds, through the handler of a follower. Raft.Alone: a cluster of one node.
-- Server.Wire: the messages of proto/raft.proto, with their conversions. Server.RaftServer,
--   Server.Transport and Server.ClientServer: internal/server/raft_server.go, transport.go and
--   client_server.go. Server.Loopback connects the transport with the server of a node.
-- Raft.Sound: the log of a node that stands or accepts a leader.
-- Config: internal/config/config.go. Config.Text: what it uses of strings and strconv.
-- Main: cmd/node/main.go, up to the start of the node; Main.Serve: its servers and the shutdown.
-- Examples: an engine, codecs and files in memory, concrete nodes, and the theorems applied to
-- them.
-- Common: lists, words, errors and maps that the parts share.
--
-- State and concurrency. A handler of `Node` is a sequential function that returns the node it
-- leaves, run to its end. The mutex of the node guards the role, the waiters, the progress of the
-- peers and the commit index, and the mutex of the log each method of it; but becomeCandidate,
-- becomeFollower, HandleInstallSnapshot and HandleAppendEntries read the term or the log and write
-- it afterwards without the mutex of the node, so other handlers may come in between. Therefore
-- Raft.Ballots takes each read and each call of SetTermAndVote for a step of its own, and its
-- theorems say where a race is excluded; Raft.Log.Runs has single methods of the log as its steps.
-- Where the code waits, the model takes what arrives as an argument: the votes of an election and
-- the beats of a leadership check as a list in the order of arrival, which may contain other
-- handlers in between, and the end of a select as a value. The peers' goroutines of a broadcast run
-- one after the other. Channels are numbers; a node keeps the closed ones and the messages that
-- were sent. Log output, metrics and the passing of time are left out.
--
-- Numbers are natural numbers, reduced modulo 2^64 where the code adds or subtracts on uint64; an
-- int64, a duration included, is the number of its two's complement. Byte strings are lists of
-- codes; Go strings are byte strings. Loops recurse on the list or the number that they run over:
-- the scans for a conflicting term on the index, and the apply loop on the number of indices from
-- the last applied one to the commit index, which is the number of its rounds. A walk over an
-- iterator of Pebble recurses on a number of rounds and is run for as many as items are left.
--
-- Parameters: the engine, below it the package pebble, the codecs, the file system, the transport
-- of a node, the gRPC library (`Grpc`), the environment with json.Unmarshal (`Sources`), the
-- directories of the host (`Host`), its listeners, the text of an error and the random numbers.
-- Their laws are documented behaviour; that writes or reads succeed is a named hypothesis of the
-- theorems that need it (`IsReliable`, `IsReadable`, `IsWritable`, `IsEncoder`), and `IsBroken` is
-- the case where every commit fails. White space that strings.TrimSpace removes is that of ASCII.
--
-- Not modelled: the generated protobuf code; the listeners of the node command; the benchmark
-- command; the seed of the random source.
pub mod Common
pub mod Storage
pub mod Kv
pub mod Config
pub mod Raft
pub mod Server
pub mod Main
pub mod Examples
