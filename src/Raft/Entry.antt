-- ===== src/Raft/Entry.antt =====
-- The log entry of internal/raft/log.go.
use distributed_kv.Common.{ℕ, Bytes}

-- An int32 with three named values; any other may arrive from the wire.
pub data EntryType : Type 0 where
  noop put delete : EntryType
  unrecognized : ℕ → EntryType

pub record Entry : Type 0 where
  pub index : ℕ
  pub term : ℕ
  pub entry_type : EntryType
  pub key : Bytes
  pub value : Bytes
  pub client_request_id : Bytes
