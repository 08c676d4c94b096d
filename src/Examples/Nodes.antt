-- ===== src/Examples/Nodes.antt =====
-- Concrete logs, nodes and requests, over engines in memory.
use distributed_kv.Common.{
  ◌≡◌, refl, Bool, true, false, Option, none, some, [], ◌∷◌, Bytes, codes, arith, other,
}
use distributed_kv.Common.Map
use distributed_kv.Storage.{Engine}
use distributed_kv.Raft.Entry.{Entry, noop, put}
use distributed_kv.Raft.Log.{PersistentLog}
use distributed_kv.Raft.Log.Valid.{IsValid}
use distributed_kv.Raft.Log.Recover.{IsReadable}
use distributed_kv.Raft.Log.Append.{append_entries-IsValid}
use distributed_kv.Raft.Log.Writes.{append_entries}
use distributed_kv.Raft.Types.{Options, RequestVoteRequest}
use distributed_kv.Raft.State.{Node, fresh_node}
use distributed_kv.Raft.Election.Grants.{IsReliable, IsBroken}
use distributed_kv.Kv.StateMachine.{new_state_machine}
use distributed_kv.Examples.Memory.{Store, memory_engine, memory_commit, answer_of}
use distributed_kv.Examples.Codecs.{entry_codec, pairs_codec, meta_codec}
use distributed_kv.Examples.Files.{memory_files, no_files}

instance abbrev pub engine : Engine
engine = memory_engine false

abbrev pub broken_engine : Engine
broken_engine = memory_engine true

pub engine-IsReadable : (broken : Bool) (m : Store) → IsReadable ⦃E = memory_engine broken⦄ m
engine-IsReadable broken m = record {
  reads = λ k. unfold answer_of in refl;
  scans = λ lower upper. (_, refl);
}

pub engine-IsReliable : IsReliable engine
engine-IsReliable = record {
  commits = λ d b o. unfold memory_commit in refl;
  readable = engine-IsReadable false;
}

pub broken_engine-IsBroken : IsBroken broken_engine
broken_engine-IsBroken = record { commits_fail = λ d b o. (other [], unfold memory_commit in refl) }

-- What OpenPersistentLog finds in an empty engine.
abbrev pub empty_log : (broken : Bool) → PersistentLog ⦃E = memory_engine broken⦄
empty_log broken = record {
  engine = [];
  first_index = 1;
  last_index = 0;
  last_included_index = 0;
  last_included_term = 0;
  current_term = 0;
  voted_for = [];
  tail_cache = [];
  tail_cache_limit = 4096;
}

pub empty_log-IsValid : (broken : Bool) → IsValid ⦃E = memory_engine broken⦄ (empty_log broken)
empty_log-IsValid broken =
    unfold Map.lookup in
    record {
      first = refl;
      ordered = omega arith;
      bounded = omega arith;
      retains = record {
        inside = λ i p q. absurd (omega arith);
        keys = λ k v f r. absurd (none-some f);
      };
      saved = record {
        term_saved = refl;
        vote_saved = refl;
        index_saved = refl;
        index_term_saved = refl;
      };
      coherent = λ i e h. absurd (none-some h);
    }
  where
    none-some : {A : Type 0} {x : A} → ◌≡◌ {A = Option A} none (some x) → ⊥
    none-some e = cc

abbrev pub first_entry : Entry
first_entry = record {
  index = 1;
  term = 1;
  entry_type = noop;
  key = [];
  value = [];
  client_request_id = [];
}

abbrev pub second_entry : Entry
second_entry = record {
  index = 2;
  term = 1;
  entry_type = put;
  key = codes "a";
  value = codes "b";
  client_request_id = [];
}

abbrev pub two_entries : PersistentLog
two_entries = (append_entries (empty_log false) (first_entry ∷ second_entry ∷ []) false).1

pub two_entries-IsValid : IsValid two_entries
two_entries-IsValid =
    append_entries-IsValid (empty_log false) first_entry (second_entry ∷ [])
      (empty_log-IsValid false) (refl, (refl, tt)) (omega arith) (omega arith) (omega arith) false

abbrev pub settings : Options
settings = record {
  election_timeout_min = 150;
  election_timeout_max = 300;
  heartbeat_interval = 50;
  snapshot_threshold = 1000;
  replication_batch_max_entries = 64;
  fsync_on_append = false;
}

-- A follower in a cluster of three with that log.
abbrev pub node_with :
    (broken : Bool) → PersistentLog ⦃E = memory_engine broken⦄ → Node ⦃E = memory_engine broken⦄
node_with broken log =
    fresh_node ⦃E = memory_engine broken⦄ (codes "n1")
      (record { id = codes "n2" } ∷ record { id = codes "n3" } ∷ []) settings log
      (new_state_machine ⦃E = memory_engine broken⦄ []) no_files (codes "addr")

abbrev pub vote_request : Bytes → RequestVoteRequest
vote_request id = record { term = 2; candidate_id = id; last_log_index = 2; last_log_term = 1 }
