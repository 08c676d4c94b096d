-- ===== src/Raft/Replication.antt =====
-- internal/raft/replication.go: what a leader sends, what it makes of the answers, and when it
-- commits.
pub mod Majority
pub mod Commit
use distributed_kv.Common.{
  ℕ, zero, suc, ◌+◌, ◌-◌, ◌/◌, Bool, true, false, List, [], ◌∷◌, map, Bytes, bytes_discrete, Option,
  none, some, Error, Result, ok, err, add64, sub64, ltb, leb, ◌==◌, if◌then◌else◌, ◌&&◌, length,
  last, get_or,
}
use distributed_kv.Common.Map
use distributed_kv.Raft.Log.{PersistentLog, term_at, range}
use distributed_kv.Raft.Log.Writes.{append_entries}
use distributed_kv.Raft.Types.{
  Role, follower, candidate, leader, Transport, PeerInfo, AppendEntriesRequest,
  AppendEntriesResponse,
}
use distributed_kv.Raft.State.{Node, current_term, is_leader, is_role, with_log, or_zero}
use distributed_kv.Raft.Waiters.{fail_stale_writers}
use distributed_kv.Raft.Lifecycle.{
  reset_election_timer, signal_commit_advanced, become_follower, persist_vote,
}
use distributed_kv.Raft.Snapshot.{send_install_snapshot}
use distributed_kv.Storage.{Engine, Codec}
use distributed_kv.Kv.StateMachine.{Pairs}
use distributed_kv.Raft.Entry.{Entry}
use distributed_kv.Raft.SnapshotStore.{FileSystem, SnapshotMeta}

-- What replicateToPeer sends: nothing, a snapshot, or one request.
pub data Outgoing : Type 0 where
  stay snapshot : Outgoing
  request : AppendEntriesRequest → Outgoing

-- `TermAt(prev)`, with `!ok && prev != 0` as none.
abbrev pub prev_term : Option ℕ → ℕ → Option ℕ
prev_term (some t) prev = some t
prev_term none prev = if prev == 0 then some 0 else none

-- The last index of a batch that starts at `next`.
abbrev pub batch_end : ℕ → ℕ → ℕ → ℕ
batch_end last_index next max_batch =
    if ltb 0 max_batch && ltb max_batch (add64 (sub64 last_index next) 1)
    then sub64 (add64 next max_batch) 1
    else last_index

-- sort.Slice by <
unfoldable pub insert_sorted : ℕ → List ℕ → List ℕ
insert_sorted x [] = x ∷ []
insert_sorted x (y ∷ ys) = let rest = y ∷ insert_sorted x ys in if leb x y then x ∷ y ∷ ys else rest

unfoldable pub sort : List ℕ → List ℕ
sort [] = []
sort (x ∷ xs) = insert_sorted x (sort xs)

-- matchIndexes[(len(matchIndexes)-1)/2] of the sorted list
unfoldable pub majority_index : List ℕ → ℕ
unfolding sort
majority_index matches = get_or (sort matches) ((length matches - 1) / 2) 0

module _ ⦃E : Engine⦄ ⦃C : Codec Entry⦄ ⦃P : Codec Pairs⦄ ⦃M : Codec SnapshotMeta⦄
    ⦃F : FileSystem⦄ where
  -- The entry as it was appended, beside the node.
  unfoldable pub append_local : Node → Entry → Entry × Node
  append_local n e =
      let entry = record e { term = current_term n; index = add64 n.log.last_index 1 } in
      (entry, with_log n (append_entries n.log (entry ∷ []) n.opts.fsync_on_append).1)

  abbrev pub missing_entries : PersistentLog → ℕ → ℕ → Result (List Entry)
  missing_entries log next max_batch =
      if leb next log.last_index
      then range log next (batch_end log.last_index next max_batch)
      else ok []

  abbrev pub with_entries : Node → ℕ → ℕ → ℕ → Result (List Entry) → Outgoing
  with_entries n term prev prev_log_term (err _) = snapshot
  with_entries n term prev prev_log_term (ok entries) = request (record {
    term = term;
    leader_id = n.id;
    prev_log_index = prev;
    prev_log_term = prev_log_term;
    entries = entries;
    leader_commit = n.commit_index;
    leader_client_addr = n.self_client_addr;
  })

  abbrev pub with_prev : Node → ℕ → ℕ → Option ℕ → Outgoing
  with_prev n term next none = snapshot
  with_prev n term next (some t) =
      with_entries n term (sub64 next 1) t
        (missing_entries n.log next n.opts.replication_batch_max_entries)

  -- replicateToPeer up to the call of the transport.
  unfoldable pub replicate_request : Node → Bytes → ℕ → Outgoing
  replicate_request n peer term =
      if is_leader n && (current_term n == term)
      then (let next = or_zero (Map.lookup bytes_discrete peer n.next_index) in
          if ltb next n.log.first_index
          then snapshot
          else with_prev n term next (prev_term (term_at n.log (sub64 next 1)) (sub64 next 1)))
      else stay

  -- The loop that looks for the last entry of the conflicting term, from index `idx` down.
  unfoldable pub scan_back : PersistentLog → ℕ → ℕ → ℕ → ℕ
  scan_back log conflict_term new_next zero = new_next
  scan_back log conflict_term new_next (suc i) =
      let rest = scan_back log conflict_term new_next i in
      let at_term = λ (t : ℕ).
        if t == conflict_term
        then add64 (suc i) 1
        else if ltb t conflict_term
        then new_next
        else rest in
      if leb log.first_index (suc i)
      then elim (term_at log (suc i)) [ none ↦ new_next | some t ↦ at_term t ]
      else new_next

  abbrev pub set_next : Node → Bytes → ℕ → Node
  set_next n peer next = record n { next_index = Map.insert bytes_discrete peer next n.next_index }

  -- The answer to a conflict: nextIndex goes back.
  unfoldable pub back_up : Node → Bytes → AppendEntriesResponse → Node
  unfolding scan_back
  back_up n peer resp =
      let next = or_zero (Map.lookup bytes_discrete peer n.next_index) in
      if resp.conflict_term == 0
      then if ltb 0 resp.conflict_index
        then set_next n peer resp.conflict_index
        else if ltb 1 next
        then set_next n peer (sub64 next 1)
        else n
      else let new_next = scan_back n.log resp.conflict_term resp.conflict_index n.log.last_index in
        set_next n peer (if ltb new_next 1 then 1 else new_next)

  abbrev pub on_success : Node → Bytes → List Entry → Node
  on_success n peer [] = n
  on_success n peer (e ∷ es) = record n {
    match_index = Map.insert bytes_discrete peer (last e es).index n.match_index;
    next_index = Map.insert bytes_discrete peer (add64 (last e es).index 1) n.next_index;
  }

  -- replicateToPeer from the answer on; `entries` are those of the request.
  unfoldable pub on_append_response :
      Node → Bytes → ℕ → List Entry → Result AppendEntriesResponse → Node
  on_append_response n peer term entries (err _) = n
  on_append_response n peer term entries (ok resp) =
      if ltb term resp.term
      then become_follower n resp.term [] []
      else if is_leader n && (current_term n == term)
      then if resp.success then on_success n peer entries else back_up n peer resp
      else n

  abbrev pub deliver : Transport → Node → Bytes → ℕ → Outgoing → Node
  deliver T n peer term stay = n
  deliver T n peer term snapshot = send_install_snapshot T n peer term
  deliver T n peer term (request req) =
      on_append_response n peer term req.entries (T.append_entries peer req)

  unfoldable pub replicate_to_peer : Transport → Node → Bytes → ℕ → Node
  unfolding replicate_request on_append_response
  replicate_to_peer T n peer term = deliver T n peer term (replicate_request n peer term)

  unfoldable pub replicate_to_all : Transport → Node → List PeerInfo → ℕ → Node
  unfolding replicate_to_peer
  replicate_to_all T n [] term = n
  replicate_to_all T n (p ∷ ps) term = replicate_to_all T (replicate_to_peer T n p.id term) ps term

  -- The indexes that tryAdvanceCommitIndex sorts: the leader's own, then one for each peer.
  abbrev pub match_indexes : Node → List ℕ
  match_indexes n =
      n.log.last_index
      ∷ map (λ (p : PeerInfo). or_zero (Map.lookup bytes_discrete p.id n.match_index)) n.peers

  abbrev pub is_term : Option ℕ → ℕ → Bool
  is_term none term = false
  is_term (some t) term = t == term

  unfoldable pub try_advance_commit_index : Node → ℕ → Node
  try_advance_commit_index n term =
      if is_leader n && (current_term n == term)
      then (let index = majority_index (match_indexes n) in
          if leb index n.commit_index
          then n
          else if is_term (term_at n.log index) term
          then signal_commit_advanced (record n { commit_index = index })
          else n)
      else n

  unfoldable pub broadcast_append_entries : Transport → Node → Node
  unfolding replicate_to_all
  broadcast_append_entries T n =
      if is_leader n
      then try_advance_commit_index (replicate_to_all T n n.peers (current_term n)) (current_term n)
      else n
