-- ===== src/Main/Serve.antt =====
-- cmd/node/main.go from the start of the node on: its servers, and the shutdown.
use distributed_kv.Common.{
  Bytes, codes, ◌++◌, Bool, true, false, Option, none, some, Error, Result, ok, ◌>>=◌, wrap_error,
  ◌≡◌, ◌≢◌, refl,
}
use distributed_kv.Storage.{Engine, Codec}
use distributed_kv.Kv.StateMachine.{Pairs}
use distributed_kv.Raft.Entry.{Entry}
use distributed_kv.Raft.SnapshotStore.{FileSystem, SnapshotMeta}
use distributed_kv.Raft.State.{Node}
use distributed_kv.Raft.Process.{Process, new_process, start, stop, Rounds}
use distributed_kv.Raft.Process.Wakes.{stop-panics_never}
use distributed_kv.Server.Transport.{Grpc, GrpcTransport, close_transport}
use distributed_kv.Config.{Config}
use distributed_kv.Main.{made}

module _ ⦃E : Engine⦄ ⦃C : Codec Entry⦄ ⦃P : Codec Pairs⦄ ⦃M : Codec SnapshotMeta⦄ ⦃F : FileSystem⦄
    ⦃G : Grpc⦄ where
  -- What the command holds while it serves.
  pub record Running : Type 0 where
    pub process : Process
    pub transport : GrpcTransport
    pub raft_serves : Bool
    pub client_serves : Bool
    pub raft_engine_open : Bool
    pub kv_engine_open : Bool

  -- From `node.Start()` until both servers serve; `listen` is net.Listen, without the listener.
  unfoldable pub serve : (Bytes → Option Error) → Config → Node → GrpcTransport → Result Running
  serve listen cfg n transport = do
    _ ← wrap_error (codes "listening on raft addr " ++ cfg.raft_addr) (made (listen cfg.raft_addr))
    _ ←
        wrap_error (codes "listening on client addr " ++ cfg.client_addr)
          (made (listen cfg.client_addr))
    ok (record {
      process = start (new_process n);
      transport = transport;
      raft_serves = true;
      client_serves = true;
      raft_engine_open = true;
      kv_engine_open = true;
    })

  abbrev pub after_stop : (Process → Process) → Running → Option Process → Option Running
  after_stop wait r none = none
  after_stop wait r (some p) = some (record {
    process = wait p;
    transport = (close_transport r.transport).1;
    raft_serves = false;
    client_serves = false;
    raft_engine_open = false;
    kv_engine_open = false;
  })

  -- After the signal: the servers stop, then the node, whose loops `wait` runs to their ends, then
  -- the engines are closed, and last the transport. The errors are dropped; none is a panic.
  unfoldable pub shutdown : (Process → Process) → Running → Option Running
  shutdown wait r = after_stop wait r (stop r.process)

  shutdown-panics_never :
      {n : Node} (wait : Process → Process) (r : Running)
      → Rounds (start (new_process n)) r.process
      → shutdown wait r ≢ none
  unfolding shutdown
  shutdown-panics_never wait r rs h = stop-panics_never rs (stopped (stop r.process) h)
    where
      stopped : (o : Option Process) → after_stop wait r o ≡ none → o ≡ none
      stopped none q = refl
      stopped (some p) q = cc
