-- ===== src/Server/Wire.antt =====
-- The messages of proto/raft.proto, and their conversion in internal/server/transport.go.
use distributed_kv.Common.{ℕ, Bool, Bytes, List, [], ◌∷◌, ◌≡◌, refl}
use distributed_kv.Raft.Entry.{Entry, EntryType}

-- An open enum: any other number may arrive.
pub data PbEntryType : Type 0 where
  pb_noop pb_put pb_delete : PbEntryType
  pb_unrecognized : ℕ → PbEntryType

pub record PbLogEntry : Type 0 where
  pub index : ℕ
  pub term : ℕ
  pub entry_type : PbEntryType
  pub key : Bytes
  pub value : Bytes
  pub client_request_id : Bytes

pub record PbRequestVoteRequest : Type 0 where
  pub term : ℕ
  pub candidate_id : Bytes
  pub last_log_index : ℕ
  pub last_log_term : ℕ

pub record PbRequestVoteResponse : Type 0 where
  pub term : ℕ
  pub vote_granted : Bool

pub record PbAppendEntriesRequest : Type 0 where
  pub term : ℕ
  pub leader_id : Bytes
  pub prev_log_index : ℕ
  pub prev_log_term : ℕ
  pub entries : List PbLogEntry
  pub leader_commit : ℕ
  pub leader_client_addr : Bytes

pub record PbAppendEntriesResponse : Type 0 where
  pub term : ℕ
  pub success : Bool
  pub conflict_term : ℕ
  pub conflict_index : ℕ

pub record PbInstallSnapshotRequest : Type 0 where
  pub term : ℕ
  pub leader_id : Bytes
  pub last_included_index : ℕ
  pub last_included_term : ℕ
  pub snapshot_bytes : Bytes

pub record PbInstallSnapshotResponse : Type 0 where
  pub term : ℕ

-- raftpb.EntryType(t), a conversion between int32 types
abbrev pub to_pb_type : EntryType → PbEntryType
to_pb_type EntryType.noop = pb_noop
to_pb_type EntryType.put = pb_put
to_pb_type EntryType.delete = pb_delete
to_pb_type (EntryType.unrecognized n) = pb_unrecognized n

-- raft.EntryType(t)
abbrev pub from_pb_type : PbEntryType → EntryType
from_pb_type pb_noop = EntryType.noop
from_pb_type pb_put = EntryType.put
from_pb_type pb_delete = EntryType.delete
from_pb_type (pb_unrecognized n) = EntryType.unrecognized n

abbrev pub to_pb_entry : Entry → PbLogEntry
to_pb_entry e = record {
  index = e.index;
  term = e.term;
  entry_type = to_pb_type e.entry_type;
  key = e.key;
  value = e.value;
  client_request_id = e.client_request_id;
}

abbrev pub from_pb_entry : PbLogEntry → Entry
from_pb_entry e = record {
  index = e.index;
  term = e.term;
  entry_type = from_pb_type e.entry_type;
  key = e.key;
  value = e.value;
  client_request_id = e.client_request_id;
}

unfoldable pub to_pb_entries : List Entry → List PbLogEntry
to_pb_entries [] = []
to_pb_entries (e ∷ es) = to_pb_entry e ∷ to_pb_entries es

unfoldable pub from_pb_entries : List PbLogEntry → List Entry
from_pb_entries [] = []
from_pb_entries (e ∷ es) = from_pb_entry e ∷ from_pb_entries es

from_pb_type-to_pb_type : (t : EntryType) → from_pb_type (to_pb_type t) ≡ t
from_pb_type-to_pb_type EntryType.noop = refl
from_pb_type-to_pb_type EntryType.put = refl
from_pb_type-to_pb_type EntryType.delete = refl
from_pb_type-to_pb_type (EntryType.unrecognized n) = refl

-- Entries arrive as they were sent.
pub from_pb_entries-to_pb_entries : (es : List Entry) → from_pb_entries (to_pb_entries es) ≡ es
unfolding from_pb_entries to_pb_entries
from_pb_entries-to_pb_entries [] = refl
from_pb_entries-to_pb_entries (e ∷ es) =
    rw (from_pb_type-to_pb_type e.entry_type, from_pb_entries-to_pb_entries es) refl
