-- ===== src/Server/ClientServer.antt =====
-- internal/server/client_server.go: the client-facing service.
use distributed_kv.Common.{
  Bool, Option, none, some, List, [], Bytes, Error, not_leader, deadline_exceeded,
  read_index_timeout, proposal_dropped, wrapped, Result, ok, err, if◌then◌else◌,
}
use distributed_kv.Storage.{Engine, Codec}
use distributed_kv.Kv.StateMachine.{Pairs, get_value}
use distributed_kv.Raft.Entry.{Entry, EntryType}
use distributed_kv.Raft.SnapshotStore.{FileSystem, SnapshotMeta}
use distributed_kv.Raft.Types.{Transport}
use distributed_kv.Raft.State.{Node, leader_hint}
use distributed_kv.Raft.Waiters.{ReadWakeup}
use distributed_kv.Raft.Propose.{WriteWakeup, propose}
use distributed_kv.Raft.ReadIndex.{Beat, linearizable_read}

-- kvpb.StatusCode
pub data StatusCode : Type 0 where
  status_ok status_not_leader status_timeout status_not_found status_internal_error : StatusCode

pub record PutRequest : Type 0 where
  pub key : Bytes
  pub value : Bytes
  pub client_request_id : Bytes

pub record DeleteRequest : Type 0 where
  pub key : Bytes
  pub client_request_id : Bytes

pub record GetRequest : Type 0 where
  pub key : Bytes
  pub linearizable : Bool

-- PutResponse and DeleteResponse have the same fields.
pub record WriteResponse : Type 0 where
  pub status : StatusCode
  pub leader_hint : Bytes
  pub error : Bytes

pub record GetResponse : Type 0 where
  pub status : StatusCode
  pub value : Bytes
  pub leader_hint : Bytes
  pub error : Bytes

-- errors.Is looks through what fmt.Errorf wrapped.
unfoldable pub status_of : Error → StatusCode
status_of not_leader = status_not_leader
status_of deadline_exceeded = status_timeout
status_of read_index_timeout = status_timeout
status_of proposal_dropped = status_not_leader
status_of (wrapped text e) = status_of e
status_of Error.not_found = status_internal_error
status_of Error.canceled = status_internal_error
status_of Error.node_stopping = status_internal_error
status_of Error.panicked = status_internal_error
status_of (Error.compacted i j) = status_internal_error
status_of (Error.other text) = status_internal_error

unfoldable pub status_for : Option Error → StatusCode
unfolding status_of
status_for none = status_ok
status_for (some e) = status_of e

-- `error_text` is the method Error of the error's type.
module _ (error_text : Error → Bytes) where
  abbrev pub err_string : Option Error → Bytes
  err_string none = []
  err_string (some e) = error_text e

  module _ ⦃E : Engine⦄ ⦃C : Codec Entry⦄ ⦃P : Codec Pairs⦄ ⦃M : Codec SnapshotMeta⦄
      ⦃F : FileSystem⦄ where
    abbrev pub write_response : Option Error × Node → WriteResponse × Node
    write_response (e, n) =
        (record { status = status_for e; leader_hint = leader_hint n; error = err_string e }, n)

    -- `meanwhile` and `wakeup` end the wait of Propose.
    unfoldable pub put :
        Transport → Node → (Node → Node) → WriteWakeup → PutRequest → WriteResponse × Node
    unfolding status_for
    put T n meanwhile wakeup req =
        write_response
          (propose T n meanwhile wakeup EntryType.put req.key req.value req.client_request_id)

    unfoldable pub delete :
        Transport → Node → (Node → Node) → WriteWakeup → DeleteRequest → WriteResponse × Node
    unfolding status_for
    delete T n meanwhile wakeup req =
        write_response
          (propose T n meanwhile wakeup EntryType.delete req.key [] req.client_request_id)

    abbrev pub found_response : Result (Option Bytes) → GetResponse
    found_response (err e) = record {
      status = status_internal_error;
      value = [];
      leader_hint = [];
      error = error_text e;
    }
    found_response (ok none) = record {
      status = status_not_found;
      value = [];
      leader_hint = [];
      error = [];
    }
    found_response (ok (some v)) = record {
      status = status_ok;
      value = v;
      leader_hint = [];
      error = [];
    }

    abbrev pub after_read : Bytes → Option Error × Node → GetResponse × Node
    after_read key (some e, n) = (
      record {
        status = status_for (some e);
        value = [];
        leader_hint = leader_hint n;
        error = error_text e;
      },
      n,
    )
    after_read key (none, n) = (found_response (get_value n.sm key), n)

    -- `beats`, `others` and `wakeup` are what LinearizableRead meets.
    unfoldable pub get :
        Node → List (Beat Node) → (Node → Node) → ReadWakeup → GetRequest → GetResponse × Node
    unfolding status_for
    get n beats others wakeup req =
        if req.linearizable
        then after_read req.key (linearizable_read n beats others wakeup)
        else (found_response (get_value n.sm req.key), n)
