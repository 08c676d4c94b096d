-- ===== src/Examples/BallotRuns.antt =====
-- Voters in memory that read and write the term and the vote in turn.
use distributed_kv.Common.{
  ◌≡◌, refl, inl, [], ◌∷◌, Bytes, codes, arith, false, bytes_discrete, add64,
}
use distributed_kv.Common.Map
use distributed_kv.Raft.Log.{PersistentLog, last_term}
use distributed_kv.Raft.Log.Valid.{IsValid}
use distributed_kv.Raft.Log.Runs.{blank}
use distributed_kv.Raft.Log.Writes.{set_term_and_vote, append_entries, encode_sets}
use distributed_kv.Raft.Log.Gap.{append_entries-gap}
use distributed_kv.Raft.Types.{RequestVoteRequest, AppendEntriesRequest, InstallSnapshotRequest}
use distributed_kv.Raft.State.{Node}
use distributed_kv.Raft.Election.{handle_request_vote, observe_term, candidate_log_up_to_date}
use distributed_kv.Raft.Waiters.{fail_stale_writers}
use distributed_kv.Raft.Ballots.{
  Pending, candidacy, discovery, ballot, Voter, write_pending, reads_term, finds_later, finds_free,
  writes, Parts, none_yet, then_part,
}
use distributed_kv.Raft.Ballots.Handlers.{quiet, voter_of}
use distributed_kv.Raft.Ballots.Races.{vote_overwritten, term_falls}
use distributed_kv.Raft.Cluster.{Grant, Cluster, with_voter, takes, Turns, at_start, later}
use distributed_kv.Examples.Memory.{memory_commit}
use distributed_kv.Examples.Codecs.{entry_codec, pairs_codec, meta_codec}
use distributed_kv.Examples.Files.{memory_files}
use distributed_kv.Examples.Nodes.{
  engine, engine-IsReliable, empty_log, empty_log-IsValid, node_with, second_entry,
}

abbrev asleep : Bytes → Voter
asleep id = record { id = id; log = blank []; pending = [] }

-- n1 after its candidacy of term 1.
abbrev stood : Voter
stood = record (asleep (codes "n1")) { log = write_pending (codes "n1") (blank []) (candidacy 1) }

-- A later term, which it was told of before it read its own vote.
abbrev told_later : Voter
told_later = record stood { log = write_pending (codes "n1") stood.log (discovery 3) }

abbrev moves_on : Parts stood told_later
moves_on =
    then_part
      (then_part (none_yet stood)
        (finds_later stood 3 (unfold set_term_and_vote memory_commit in omega arith) (omega arith)))
      (writes (record stood { pending = discovery 3 ∷ [] }) [] (discovery 3) [] refl (omega arith))

abbrev fresh : Node
fresh = node_with false (empty_log false)

abbrev beat : AppendEntriesRequest
beat = record {
  term = 4;
  leader_id = codes "n2";
  prev_log_index = 0;
  prev_log_term = 0;
  entries = [];
  leader_commit = 0;
  leader_client_addr = [];
}

abbrev snapshot : InstallSnapshotRequest
snapshot = record {
  term = 5;
  leader_id = codes "n2";
  last_included_index = 1;
  last_included_term = 1;
  snapshot_bytes = [];
}

-- A request of n2 for the term that n1 is about to stand in.
abbrev rival : RequestVoteRequest
rival = record { term = 1; candidate_id = codes "n2"; last_log_index = 0; last_log_term = 0 }

vote_overwritten_example :
    let voted = (handle_request_vote fresh rival).0.log in
    let late = write_pending fresh.id voted (candidacy (add64 0 1)) in
    Parts (voter_of [] fresh) (quiet [] fresh.id late)
    × (voted.voted_for ≡ codes "n2")
    × (late.current_term ≡ voted.current_term)
    × (late.voted_for ≡ codes "n1")
vote_overwritten_example = vote_overwritten fresh rival engine-IsReliable (omega arith) refl (
    unfold handle_request_vote observe_term fail_stale_writers set_term_and_vote memory_commit
      candidate_log_up_to_date last_term bytes_discrete in
    refl)

-- A request of n2 for term 4, while becomeFollower is about to write term 3.
abbrev ahead : RequestVoteRequest
ahead = record { term = 4; candidate_id = codes "n2"; last_log_index = 0; last_log_term = 0 }

term_falls_example :
    let now = (handle_request_vote fresh ahead).0.log in
    let behind = write_pending fresh.id now (discovery 3) in
    Parts (voter_of [] fresh) (quiet [] fresh.id behind)
    × (now.current_term ≡ 4)
    × (behind.current_term ≡ 3)
    × (behind.voted_for ≡ [])
term_falls_example =
    term_falls fresh ahead 3 engine-IsReliable (omega arith) (omega arith) (omega arith) (
      unfold handle_request_vote observe_term fail_stale_writers set_term_and_vote memory_commit
        candidate_log_up_to_date last_term bytes_discrete in
      refl)

append_entries-gap_example :
    ¬ IsValid (append_entries (empty_log false) (second_entry ∷ []) false).1
append_entries-gap_example =
    append_entries-gap (empty_log false) second_entry [] false (empty_log-IsValid false) (refl, tt)
      (omega arith) (omega arith) (unfold append_entries encode_sets memory_commit in refl)

-- n1 reads its term and stands; n2 hears of the term, writes it, and votes for n1.
abbrev about : Bytes → PersistentLog → Pending → Voter
about id log p = record { id = id; log = log; pending = p ∷ [] }

abbrev heard : PersistentLog
heard = write_pending (codes "n2") (blank []) (discovery 1)

abbrev done : Bytes → PersistentLog → Voter
done id log = record { id = id; log = log; pending = [] }

abbrev c0 : Cluster
c0 = record { voter = asleep; grants = [] }

abbrev c1 : Cluster
c1 = with_voter c0 (codes "n1") (about (codes "n1") (blank []) (candidacy 1)) []

abbrev c2 : Cluster
c2 = with_voter c1 (codes "n2") (about (codes "n2") (blank []) (discovery 1)) []

abbrev n1_own : Grant
n1_own = record { voter = codes "n1"; term = 1; candidate = codes "n1" }

abbrev n2_vote : Grant
n2_vote = record { voter = codes "n2"; term = 1; candidate = codes "n1" }

abbrev c3 : Cluster
c3 = with_voter c2 (codes "n1") stood (n1_own ∷ [])

abbrev c4 : Cluster
c4 = with_voter c3 (codes "n2") (done (codes "n2") heard) (n1_own ∷ [])

abbrev c5 : Cluster
c5 = with_voter c4 (codes "n2") (about (codes "n2") heard (ballot 1 (codes "n1"))) (n1_own ∷ [])

abbrev c6 : Cluster
c6 =
    with_voter c5 (codes "n2")
      (done (codes "n2") (write_pending (codes "n2") heard (ballot 1 (codes "n1"))))
      (n2_vote ∷ n1_own ∷ [])

first_half : Turns c0 c3
unfolding bytes_discrete
first_half =
    later
      (later (later (at_start c0) (takes c0 (codes "n1") (reads_term (asleep (codes "n1")))))
        (takes c1 (codes "n2") (finds_later (asleep (codes "n2")) 1 (omega arith) (omega arith))))
      (takes c2 (codes "n1") (
        writes (about (codes "n1") (blank []) (candidacy 1)) [] (candidacy 1) [] refl
          (omega arith)))

heard-voted_for : heard.voted_for ≡ []
heard-voted_for = unfold set_term_and_vote memory_commit in refl

turns : Turns c0 c6
unfolding bytes_discrete
turns =
    later
      (later
        (later first_half (
          takes c3 (codes "n2") (
            writes (about (codes "n2") (blank []) (discovery 1)) [] (discovery 1) [] refl
              (omega arith))))
        (takes c4 (codes "n2") (
          finds_free (done (codes "n2") heard) 1 (codes "n1") (inl heard-voted_for) (omega arith))))
      (takes c5 (codes "n2") (
        writes (about (codes "n2") heard (ballot 1 (codes "n1"))) [] (ballot 1 (codes "n1")) [] refl
          (omega arith)))
