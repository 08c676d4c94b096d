-- ===== src/Raft/Alone/Elected.antt =====
-- startElection of internal/raft/election.go on a cluster of one node, and what it serves then.
use distributed_kv.Common.{
  ℕ, ◌+◌, ◌≤◌, ◌<◌, ◌≡◌, refl, sym, ◌∙◌, ap, true, none, List, [], ◌∷◌, arith, u64_mod, Bytes,
  add64, length, ◌==◌,
}
use distributed_kv.Storage.{Engine, Codec}
use distributed_kv.Kv.StateMachine.{Pairs}
use distributed_kv.Kv.StateMachine.View.{IsWritable}
use distributed_kv.Raft.Entry.{Entry, put}
use distributed_kv.Raft.SnapshotStore.{FileSystem, SnapshotMeta}
use distributed_kv.Raft.Log.{PersistentLog}
use distributed_kv.Raft.Log.Valid.{held}
use distributed_kv.Raft.Log.Writes.{append_entries, set_term_and_vote}
use distributed_kv.Raft.Log.Sound.{IsSound}
use distributed_kv.Raft.Election.Grants.{IsReliable}
use distributed_kv.Raft.Types.{Transport, candidate}
use distributed_kv.Raft.State.{Node, is_role, current_term, is_leader, with_log}
use distributed_kv.Raft.Lifecycle.{become_candidate, reset_election_timer}
use distributed_kv.Raft.Replication.{broadcast_append_entries, append_local}
use distributed_kv.Raft.Leader.{become_leader, take_leadership, noop_entry}
use distributed_kv.Raft.Election.{Arrival, start_election, needed_votes}
use distributed_kv.Raft.Sound.{become_candidate-IsSound}
use distributed_kv.Raft.Propose.{propose, sent}
use distributed_kv.Raft.Apply.{apply_committed}
use distributed_kv.Raft.Alone.{IsEncoder, Extends, append_one-Extends, alone-commits}
use distributed_kv.Raft.Alone.Puts.{IsPut, propose-IsPut}

module _ ⦃E : Engine⦄ ⦃C : Codec Entry⦄ ⦃P : Codec Pairs⦄ ⦃M : Codec SnapshotMeta⦄
    ⦃F : FileSystem⦄ where
  -- A node without peers whose log is sound and agrees with its indices.
  pub record IsAlone (n : Node) : Type 0 where
    pub no_peers : n.peers ≡ []
    pub sound : IsSound n.log
    pub not_compacted : n.log.last_included_index ≤ n.last_applied
    pub applied_committed : n.last_applied ≤ n.commit_index
    pub commits_held : n.commit_index ≤ n.log.last_index

  -- The node after a won election: it leads in the next term, and its no-op is committed.
  pub record Leads (n m : Node) : Type 0 where
    pub leads : is_leader m ≡ true
    pub next_term : current_term m ≡ current_term n + 1
    pub alone : IsAlone m
    pub noop_last : m.log.last_index ≡ n.log.last_index + 1
    pub all_committed : m.commit_index ≡ m.log.last_index
    pub same_applied : m.last_applied ≡ n.last_applied

  module _ (r : IsReliable E) (c : IsEncoder C) where
    -- The candidate stands in the next term with the same log.
    pub record Stands (n m : Node) : Type 0 where
      pub stands_alone : IsAlone m
      pub same_end : m.log.last_index ≡ n.log.last_index
      pub stands_in : current_term m ≡ current_term n + 1
      pub stands_applied : m.last_applied ≡ n.last_applied

    set_term_and_vote-kept :
        (pl : PersistentLog) (term : ℕ) (vote : Bytes)
        → ((set_term_and_vote pl term vote).1.current_term ≡ term)
          × ((set_term_and_vote pl term vote).1.last_index ≡ pl.last_index)
          × ((set_term_and_vote pl term vote).1.last_included_index ≡ pl.last_included_index)
    unfolding set_term_and_vote
    set_term_and_vote-kept pl term vote = (rw r.commits refl, rw r.commits refl, rw r.commits refl)

    pub become_candidate-Stands :
        (n : Node) → IsAlone n → current_term n + 1 < u64_mod → Stands n (become_candidate n).1
    unfolding become_candidate
    become_candidate-Stands n a room =
        let s = become_candidate-IsSound n a.sound in
        let (term, end, boundary) = set_term_and_vote-kept n.log (add64 (current_term n) 1) n.id in
        record {
          stands_alone = record {
            no_peers = a.no_peers;
            sound = s;
            not_compacted = omega (arith, boundary, a.not_compacted);
            applied_committed = a.applied_committed;
            commits_held = omega (arith, end, a.commits_held);
          };
          same_end = end;
          stands_in = ground (arith, term);
          stands_applied = refl;
        }

    reset_election_timer-Stands : (n m : Node) → Stands n m → Stands n (reset_election_timer m)
    reset_election_timer-Stands n m s = record {
      stands_alone = record {
        no_peers = s.stands_alone.no_peers;
        sound = s.stands_alone.sound;
        not_compacted = s.stands_alone.not_compacted;
        applied_committed = s.stands_alone.applied_committed;
        commits_held = s.stands_alone.commits_held;
      };
      same_end = s.same_end;
      stands_in = s.stands_in;
      stands_applied = s.stands_applied;
    }

    broadcast-Leads :
        (T : Transport) (n0 n : Node) (pl : PersistentLog) (e : Entry)
        → Stands n0 n
        → e.index ≡ n.log.last_index + 1
        → e.term ≡ current_term n
        → Extends n.log pl e
        → Leads n0 (broadcast_append_entries T (with_log (take_leadership n) pl))
    unfolding take_leadership
    broadcast-Leads T n0 n pl e st at own x =
        let a = st.stands_alone in
        let committed =
          alone-commits r T (with_log (take_leadership n) pl) e a.no_peers refl x.sound
            (omega
              (arith, x.same_boundary, x.end, a.not_compacted, a.applied_committed, a.commits_held))
            (omega (arith, x.end, a.commits_held)) (ap (λ i. held pl i) x.end ∙ x.at_end)
            (own ∙ sym x.same_term) in
        rw committed (record {
          leads = refl;
          next_term = x.same_term ∙ st.stands_in;
          alone = record {
            no_peers = a.no_peers;
            sound = x.sound;
            not_compacted = omega (arith, x.same_boundary, a.not_compacted);
            applied_committed = omega (arith, x.end, a.applied_committed, a.commits_held);
            commits_held = omega arith;
          };
          noop_last = omega (arith, x.end, st.same_end);
          all_committed = refl;
          same_applied = st.stands_applied;
        })

    pub become_leader-Leads :
        (T : Transport) (n0 n : Node)
        → Stands n0 n
        → is_role n.role candidate ≡ true
        → n.log.last_index + 2 < u64_mod
        → Leads n0 (become_leader T n)
    unfolding become_leader append_local take_leadership
    become_leader-Leads T n0 n st role room =
        let n1 = take_leadership n in
        let e = (append_local n1 noop_entry).0 in
        let at : e.index ≡ n.log.last_index + 1 = ground arith in
        let x =
          (append_one-Extends r c n.log e n.opts.fsync_on_append st.stands_alone.sound at
            (omega (arith, at)) st.stands_alone.sound.terms_fit.1).1 in
        rw role (
          broadcast-Leads T n0 n (append_entries n.log (e ∷ []) n.opts.fsync_on_append).1 e st at
            refl x)

    start_election-Leads :
        (T : Transport) (n : Node) (arrivals : List (Arrival Node)) (settle : Node → Node)
        → IsAlone n
        → current_term n + 1 < u64_mod
        → n.log.last_index + 2 < u64_mod
        → Leads n (start_election T n arrivals settle)
    unfolding start_election
    start_election-Leads T n arrivals settle a term room =
        let st = become_candidate-Stands n a term in
        let few : (needed_votes (length (become_candidate n).1.peers) == 1) ≡ true =
          rw st.stands_alone.no_peers refl in
        rw few (
          become_leader-Leads T n (reset_election_timer (become_candidate n).1)
            (reset_election_timer-Stands n (become_candidate n).1 st)
            (unfold become_candidate in refl) (omega (arith, st.same_end)))

    -- On a node without peers, whose log is well formed, with terms that fit in 64 bits, not
    -- compacted beyond lastApplied and reaching the commit index, which is not below lastApplied,
    -- where the engine's reads and writes do not fail, every entry can be encoded, and terms and
    -- indices have room, startElection makes the node leader of the next term with its no-op
    -- committed. Propose of a put, with applyCommitted running while it waits and then a message
    -- without an error, then returns no error, the waiter was sent such a message, every entry up
    -- to the new one is applied, and Get returns the value.
    pub alone-serves :
        (w : IsWritable E) (T : Transport) (n : Node) (arrivals : List (Arrival Node))
        (settle : Node → Node) (key value id : Bytes)
        → IsAlone n
        → current_term n + 1 < u64_mod
        → n.log.last_index + 3 < u64_mod
        → let m = start_election T n arrivals settle in
          Leads n m × IsPut m key value (propose T m apply_committed (sent none) put key value id)
    alone-serves w T n arrivals settle key value id a term room =
        let l = start_election-Leads T n arrivals settle a term (omega arith) in
        let b = l.alone in
        (
          l,
          propose-IsPut w r c T (start_election T n arrivals settle) key value id b.no_peers l.leads
              b.sound b.not_compacted b.applied_committed b.commits_held
              (omega (arith, l.noop_last)),
        )
