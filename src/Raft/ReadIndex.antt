-- ===== src/Raft/ReadIndex.antt =====
-- LinearizableRead and confirmLeadership of internal/raft/readindex.go.
pub mod Acks
use distributed_kv.Common.{
  ℕ, ◌+◌, ◌-◌, ◌/◌, Bool, true, false, List, [], ◌∷◌, Bytes, bytes_discrete, Option, none, some,
  Error, not_leader, node_stopping, read_index_timeout, Result, ok, err, sub64, ltb, leb, ◌==◌,
  if◌then◌else◌, length,
}
use distributed_kv.Common.Map
use distributed_kv.Raft.Log.{term_at}
use distributed_kv.Raft.Types.{AppendEntriesRequest, AppendEntriesResponse}
use distributed_kv.Raft.State.{Node, current_term, is_leader, or_zero}
use distributed_kv.Raft.Lifecycle.{become_follower}
use distributed_kv.Raft.Waiters.{ReadWakeup, begin_wait, end_wait}
use distributed_kv.Storage.{Engine, Codec}
use distributed_kv.Kv.StateMachine.{Pairs}
use distributed_kv.Raft.Entry.{Entry}
use distributed_kv.Raft.SnapshotStore.{FileSystem, SnapshotMeta}

-- What the select of confirmLeadership meets: the answer to a heartbeat, the end of the context,
-- the stop, or a handler that runs in between.
pub data Beat (N : Type 0) : Type 0 where
  answer : Result AppendEntriesResponse → Beat N
  context_done : Error → Beat N
  stopping : Beat N
  meanwhile : (N → N) → Beat N

-- (len(peers)+1)/2 + 1
abbrev pub needed_acks : ℕ → ℕ
needed_acks peers = (peers + 1) / 2 + 1

module _ ⦃E : Engine⦄ ⦃C : Codec Entry⦄ ⦃P : Codec Pairs⦄ ⦃M : Codec SnapshotMeta⦄
    ⦃F : FileSystem⦄ where
  unfoldable pub heartbeat_request : Node → Bytes → ℕ → AppendEntriesRequest
  heartbeat_request n peer term =
      let next = or_zero (Map.lookup bytes_discrete peer n.next_index) in
      let prev = if ltb 0 next then sub64 next 1 else 0 in
      record {
        term = term;
        leader_id = n.id;
        prev_log_index = prev;
        prev_log_term = or_zero (term_at n.log prev);
        entries = [];
        leader_commit = n.commit_index;
        leader_client_addr = [];
      }

  -- A heartbeat goroutine from the answer on: what it sends to `results`, beside the node.
  unfoldable pub on_heartbeat : Node → ℕ → Result AppendEntriesResponse → Bool × Node
  on_heartbeat n term (err _) = (false, n)
  on_heartbeat n term (ok resp) =
      if ltb term resp.term then (false, become_follower n resp.term [] []) else (true, n)

  abbrev pub verdict : ℕ → ℕ → Option Error
  verdict needed confirmed = if leb needed confirmed then none else some read_index_timeout

  -- The loop of confirmLeadership and its join. Once the loop has ended with `outcome`, the
  -- goroutines that still run have their effect on the node only.
  unfoldable pub drain : Node → ℕ → Option Error → List (Beat Node) → Option Error × Node
  unfolding on_heartbeat
  drain n term outcome [] = (outcome, n)
  drain n term outcome (answer resp ∷ rest) = drain (on_heartbeat n term resp).1 term outcome rest
  drain n term outcome (meanwhile f ∷ rest) = drain (f n) term outcome rest
  drain n term outcome (_ ∷ rest) = drain n term outcome rest

  unfoldable pub collect_acks : Node → ℕ → ℕ → ℕ → ℕ → List (Beat Node) → Option Error × Node
  unfolding drain
  collect_acks n term needed confirmed waiting [] = (verdict needed confirmed, n)
  collect_acks n term needed confirmed waiting (answer resp ∷ rest) =
      let (acked, n') = on_heartbeat n term resp in
      let more = collect_acks n' term needed (confirmed + 1) (waiting - 1) rest in
      let fewer = collect_acks n' term needed confirmed (waiting - 1) rest in
      let over = drain n term (verdict needed confirmed) (answer resp ∷ rest) in
      if waiting == 0
      then over
      else if leb needed confirmed
      then over
      else if acked
      then more
      else fewer
  collect_acks n term needed confirmed waiting (meanwhile f ∷ rest) =
      collect_acks (f n) term needed confirmed waiting rest
  collect_acks n term needed confirmed waiting (context_done e ∷ rest) =
      let over = drain n term (verdict needed confirmed) rest in
      let cut = drain n term (some e) rest in
      if waiting == 0 then over else if leb needed confirmed then over else cut
  collect_acks n term needed confirmed waiting (stopping ∷ rest) =
      let over = drain n term (verdict needed confirmed) rest in
      let cut = drain n term (some node_stopping) rest in
      if waiting == 0 then over else if leb needed confirmed then over else cut

  unfoldable pub confirm_leadership : Node → ℕ → List (Beat Node) → Option Error × Node
  unfolding collect_acks
  confirm_leadership n term beats =
      collect_acks n term (needed_acks (length n.peers)) 1 (length n.peers) beats

  abbrev pub wait_applied : ReadWakeup → (Node → Node) → Option ℕ × Node → Option Error × Node
  wait_applied wakeup others (none, n) = (none, n)
  wait_applied wakeup others (some ch, n) = end_wait (others n) ch wakeup

  abbrev pub after_confirm :
      ℕ → ReadWakeup → (Node → Node) → Option Error × Node → Option Error × Node
  after_confirm read_index wakeup others (some e, n) = (some e, n)
  after_confirm read_index wakeup others (none, n) =
      wait_applied wakeup others (begin_wait n read_index)

  -- `beats` are what confirmLeadership meets; `others` and `wakeup` end the wait that follows.
  unfoldable pub linearizable_read :
      Node → List (Beat Node) → (Node → Node) → ReadWakeup → Option Error × Node
  unfolding confirm_leadership
  linearizable_read n beats others wakeup =
      if is_leader n
      then after_confirm n.commit_index wakeup others (confirm_leadership n (current_term n) beats)
      else (some not_leader, n)
