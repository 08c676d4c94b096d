-- ===== src/Examples/NodeRuns.antt =====
-- The theorems on nodes at concrete nodes, requests and answers.
use distributed_kv.Common.{
  ℕ, ◌+◌, ◌≤◌, ◌<◌, ◌≡◌, ◌↔◌, refl, true, false, [], ◌∷◌, codes, arith, ok, inl, ◌⊎◌,
  bytes_discrete,
}
use distributed_kv.Raft.Log.{last_term}
use distributed_kv.Raft.Log.Writes.{append_entries, encode_sets, set_term_and_vote}
use distributed_kv.Raft.Log.Preserve.{set_term_and_vote-IsValid}
use distributed_kv.Raft.Types.{AppendEntriesRequest, leader, candidate}
use distributed_kv.Raft.State.{Node, current_term}
use distributed_kv.Raft.Waiters.{fail_stale_writers}
use distributed_kv.Raft.Election.{
  handle_request_vote, observe_term, candidate_log_up_to_date, collect_votes, still_candidate,
  answer,
}
use distributed_kv.Raft.Election.Grants.{FreeFor, UpToDate, handle_request_vote-grants_iff}
use distributed_kv.Raft.Election.Failures.{double_vote}
use distributed_kv.Raft.Election.Count.{collect_votes-won, granted_votes}
use distributed_kv.Raft.Replication.{try_advance_commit_index}
use distributed_kv.Raft.Replication.Commit.{Committable, try_advance_commit_index_lem}
use distributed_kv.Raft.Follower.{handle_append_entries, accept_leader}
use distributed_kv.Raft.Follower.Accept.{Accepted, handle_append_entries-Accepted}
use distributed_kv.Raft.Follower.Divergence.{handle_append_entries-truncates}
use distributed_kv.Examples.Memory.{memory_commit}
use distributed_kv.Examples.Codecs.{entry_codec, pairs_codec, meta_codec}
use distributed_kv.Examples.Files.{memory_files}
use distributed_kv.Examples.Nodes.{
  engine, broken_engine, engine-IsReliable, broken_engine-IsBroken, empty_log, two_entries,
  two_entries-IsValid, first_entry, node_with, vote_request,
}

-- A follower that holds two entries of term 1.
abbrev voter : Node
voter = node_with false two_entries

handle_request_vote-grants_iff_example :
    ((handle_request_vote voter (vote_request (codes "n2"))).1.vote_granted ≡ true) ↔ (
      (current_term voter ≤ 2)
      × (2 ≡ current_term voter → FreeFor voter.log (codes "n2"))
      × UpToDate (observe_term voter 2).log (vote_request (codes "n2")))
handle_request_vote-grants_iff_example =
    handle_request_vote-grants_iff voter (vote_request (codes "n2")) engine-IsReliable

double_vote_example :
    ((handle_request_vote ⦃E = broken_engine⦄
        (node_with true (empty_log true))
        (vote_request (codes "n2"))).1.vote_granted
      ≡ true)
    × ((handle_request_vote ⦃E = broken_engine⦄
          (handle_request_vote ⦃E = broken_engine⦄
            (node_with true (empty_log true))
            (vote_request (codes "n2"))).0
          (vote_request (codes "n3"))).1.vote_granted
        ≡ true)
unfolding handle_request_vote observe_term fail_stale_writers set_term_and_vote memory_commit
    candidate_log_up_to_date last_term bytes_discrete
double_vote_example =
    double_vote ⦃E = broken_engine⦄ (node_with true (empty_log true)) (vote_request (codes "n2"))
      (vote_request (codes "n3")) broken_engine-IsBroken refl (omega arith) refl (inl (omega arith))
      (inl (omega arith))

collect_votes-won_example :
    (2
      ≤ 1
        + granted_votes {N = Node} 0 2
            (answer (ok (record { term = 0; vote_granted = true })) ∷ []))
    × (still_candidate
          (collect_votes
            (record voter { role = candidate })
            0
            2
            1
            2
            (answer (ok (record { term = 0; vote_granted = true })) ∷ [])).1
          0
        ≡ true)
unfolding append_entries encode_sets memory_commit collect_votes
collect_votes-won_example =
    collect_votes-won (record voter { role = candidate }) 0 2 1 2
      (answer (ok (record { term = 0; vote_granted = true })) ∷ []) refl

abbrev leading : Node
leading = record voter { role = leader; match_index = (codes "n2", 2) ∷ [] }

try_advance_commit_index_lem_example :
    (try_advance_commit_index leading 0 ≡ leading)
    ⊎ ((index : ℕ) × Committable leading 0 index
        × (try_advance_commit_index leading 0
            ≡ record leading { commit_index = index; commit_advanced = true }))
try_advance_commit_index_lem_example = try_advance_commit_index_lem leading 0

-- The request that repeats the first entry, and the heartbeat of confirmLeadership.
abbrev repeated : AppendEntriesRequest
repeated = record {
  term = 1;
  leader_id = codes "n2";
  prev_log_index = 0;
  prev_log_term = 0;
  entries = first_entry ∷ [];
  leader_commit = 0;
  leader_client_addr = [];
}

abbrev heartbeat : AppendEntriesRequest
heartbeat = record repeated { entries = []; leader_commit = 2 }

handle_append_entries-Accepted_example : Accepted voter repeated
unfolding append_entries encode_sets memory_commit handle_append_entries accept_leader
    fail_stale_writers set_term_and_vote
handle_append_entries-Accepted_example = handle_append_entries-Accepted voter repeated refl

handle_append_entries-truncates_example :
    (handle_append_entries (record voter { commit_index = 2 }) repeated).0.log.last_index
    < (handle_append_entries (record voter { commit_index = 2 }) repeated).0.commit_index
unfolding append_entries encode_sets memory_commit handle_append_entries accept_leader
    fail_stale_writers set_term_and_vote
handle_append_entries-truncates_example =
    handle_append_entries-truncates (record voter { commit_index = 2 }) repeated first_entry [] refl
      (set_term_and_vote-IsValid two_entries 1 [] (omega arith) two_entries-IsValid) (refl, tt)
      (omega arith) (omega arith) (omega arith) (omega arith) refl
