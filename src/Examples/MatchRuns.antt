-- ===== src/Examples/MatchRuns.antt =====
-- A leader in memory that sends a follower an entry again.
use distributed_kv.Common.{
  ◌≡◌, refl, true, [], ◌∷◌, codes, arith, bytes_discrete, ℕ_discrete, false,
}
use distributed_kv.Common.Map
use distributed_kv.Raft.Log.{term_at, range}
use distributed_kv.Raft.Log.Sound.{IsSound, append_entries-IsSound}
use distributed_kv.Raft.Log.Writes.{
  append_entries, encode_sets, cache_all, evict_tail_cache, drop_cached,
}
use distributed_kv.Raft.Types.{AppendEntriesRequest, leader}
use distributed_kv.Raft.State.{Node}
use distributed_kv.Raft.Replication.{replicate_request, request}
use distributed_kv.Raft.Follower.{handle_append_entries}
use distributed_kv.Raft.Matching.Logs.{Agrees}
use distributed_kv.Raft.Matching.Agrees.{handle_append_entries-Agrees}
use distributed_kv.Examples.Memory.{memory_commit}
use distributed_kv.Examples.Codecs.{entry_codec, pairs_codec, meta_codec}
use distributed_kv.Examples.Files.{memory_files}
use distributed_kv.Examples.Nodes.{
  engine, engine-IsReadable, empty_log, empty_log-IsValid, two_entries, two_entries-IsValid,
  node_with, first_entry, second_entry,
}

two_entries-IsSound : IsSound two_entries
two_entries-IsSound =
    append_entries-IsSound (empty_log false) first_entry (second_entry ∷ [])
      (record {
        valid = empty_log-IsValid false;
        terms_fit = (record { fits = λ i e p q h. absurd (omega arith) }, omega arith);
      })
      (refl, (refl, tt)) (omega arith) (omega arith) (omega arith) (omega arith, (omega arith, tt))
      false

abbrev sender : Node
sender = record (node_with false two_entries) { role = leader; next_index = (codes "n1", 2) ∷ [] }

abbrev follower : Node
follower = node_with false two_entries

abbrev sent_again : AppendEntriesRequest
sent_again = record {
  term = 0;
  leader_id = codes "n1";
  prev_log_index = 1;
  prev_log_term = 1;
  entries = second_entry ∷ [];
  leader_commit = 0;
  leader_client_addr = codes "addr";
}

sent : replicate_request sender (codes "n1") 0 ≡ request sent_again
unfolding replicate_request append_entries encode_sets memory_commit Map.lookup bytes_discrete
    term_at evict_tail_cache cache_all Map.insert drop_cached range
sent = refl

answered : (handle_append_entries follower sent_again).1.success ≡ true
unfolding handle_append_entries append_entries encode_sets memory_commit term_at Map.lookup
    evict_tail_cache cache_all Map.insert ℕ_discrete drop_cached
answered = refl

handle_append_entries-Agrees_example :
    Agrees (handle_append_entries follower sent_again).0.log two_entries 2
handle_append_entries-Agrees_example =
    handle_append_entries-Agrees (engine-IsReadable false) sender follower 0 sent_again
      two_entries-IsValid two_entries-IsSound
      (record { same_up_to = λ i x y ha hb p q t j l k le. refl })
      (unfold Map.lookup bytes_discrete in omega arith) sent (omega arith)
      (λ z. absurd (omega arith)) answered
