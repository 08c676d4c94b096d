-- ===== src/Examples/ClusterRuns.antt =====
-- The theorems on the apply loop and on dumps at concrete inputs.
use distributed_kv.Common.{
  ℕ, ◌-◌, ◌≤◌, ◌≡◌, ◌≢◌, refl, false, some, [], ◌∷◌, codes, arith, bytes_discrete, u64_mod, zero,
  suc, get_elem?, ◌<◌,
}
use distributed_kv.Common.Map
use distributed_kv.Storage.{in_range, prefix_upper_bound}
use distributed_kv.Kv.StateMachine.{
  StateMachine, new_state_machine, apply_put, dump, dump_pairs, restore,
}
use distributed_kv.Kv.StateMachine.View.{view, IsWritable}
use distributed_kv.Kv.StateMachine.Backup.{view-restore-dump}
use distributed_kv.Raft.Entry.{Entry}
use distributed_kv.Raft.Log.Valid.{held}
use distributed_kv.Raft.Log.Append.{append_entries-held}
use distributed_kv.Raft.Log.Writes.{append_entries, encode_sets}
use distributed_kv.Raft.Types.{RequestVoteRequest}
use distributed_kv.Raft.State.{Node}
use distributed_kv.Raft.Apply.{apply_committed}
use distributed_kv.Raft.Apply.Ready.{IsReady}
use distributed_kv.Raft.Apply.Refines.{Replays, apply_committed-Replays}
use distributed_kv.Examples.Memory.{memory_commit, items_of, run_ops}
use distributed_kv.Examples.Codecs.{entry_codec, pairs_codec, meta_codec}
use distributed_kv.Examples.Files.{memory_files}
use distributed_kv.Examples.Nodes.{
  engine, engine-IsReadable, empty_log, empty_log-IsValid, two_entries, two_entries-IsValid,
  node_with, first_entry, second_entry,
}

abbrev pub first_request : RequestVoteRequest
first_request = record {
  term = 1;
  candidate_id = codes "n1";
  last_log_index = 0;
  last_log_term = 0;
}

pub n1_named : codes "n1" ≢ []
n1_named e = ground arith

pub engine-IsWritable : IsWritable engine
engine-IsWritable = record {
  sets = λ d k v o. unfold memory_commit in refl;
  deletes = λ d k o. unfold memory_commit in refl;
}

-- A follower with both entries committed and none applied.
abbrev pub behind : Node
behind = record (node_with false two_entries) { commit_index = 2 }

pub two_entries-IsReady : IsReady two_entries 0 2
two_entries-IsReady = record {
  valid = two_entries-IsValid;
  not_compacted = unfold append_entries encode_sets memory_commit in omega arith;
  reached = unfold append_entries encode_sets memory_commit in omega arith;
  terms_fit = λ i e lo hi h. small i e lo (unfold append_entries encode_sets memory_commit in hi) h;
}
  where
    listed :
        (k : ℕ) (e : Entry)
        → get_elem? (first_entry ∷ second_entry ∷ []) k ≡ some e
        → e.term < u64_mod
    listed zero e h = ground arith
    listed (suc zero) e h = ground arith
    listed (suc (suc k)) e h = cc

    small : (i : ℕ) (e : Entry) → 0 < i → i ≤ 2 → held two_entries i ≡ some e → e.term < u64_mod
    small i e lo hi h =
        let (q, _) =
          append_entries-held (empty_log false) first_entry (second_entry ∷ [])
            (empty_log-IsValid false) (refl, (refl, tt)) (omega arith) (omega arith) (omega arith)
            false i (unfold append_entries encode_sets memory_commit in refl) (omega arith) in
        listed (i - 1) e (ground (arith, q))

apply_committed-Replays_example : Replays behind (apply_committed behind) 0 2
apply_committed-Replays_example =
    apply_committed-Replays engine-IsWritable (engine-IsReadable false) behind (omega arith)
      two_entries-IsReady

abbrev one_pair : StateMachine
one_pair = (apply_put (new_state_machine []) 1 (codes "a") (codes "b")).1

abbrev another_pair : StateMachine
another_pair = (apply_put (new_state_machine []) 1 (codes "c") (codes "d")).1

view-restore-dump_example :
    view (restore another_pair (record { pairs = (codes "a", codes "b") ∷ [] }) 1).1 ≡ view one_pair
unfolding apply_put memory_commit run_ops Map.insert Map.delete Map.lookup dump dump_pairs
    bytes_discrete restore items_of in_range prefix_upper_bound new_state_machine
view-restore-dump_example =
    view-restore-dump one_pair another_pair (record { pairs = (codes "a", codes "b") ∷ [] }) 1 refl
      refl
