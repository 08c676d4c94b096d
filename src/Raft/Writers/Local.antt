-- ===== src/Raft/Writers/Local.antt =====
-- The writers that wait on a node under the handlers of internal/raft that do not loop.
use distributed_kv.Common.{
  ℕ, ◌≡◌, refl, subst, true, false, Option, none, some, List, [], ◌∷◌, ℕ_discrete, Bytes, Error,
  Result, ok, err, arith, if◌then◌else◌, ltb, Bool-cases, inl, inr,
}
use distributed_kv.Common.Map
use distributed_kv.Common.Map.{Map}
use distributed_kv.Storage.{Engine, Codec}
use distributed_kv.Kv.StateMachine.{Pairs}
use distributed_kv.Raft.Entry.{Entry, EntryType}
use distributed_kv.Raft.SnapshotStore.{FileSystem, SnapshotMeta}
use distributed_kv.Raft.Log.{PersistentLog}
use distributed_kv.Raft.Log.Writes.{append_entries}
use distributed_kv.Raft.Types.{
  Role, follower, candidate, leader, RequestVoteRequest, AppendEntriesRequest,
  AppendEntriesResponse,
}
use distributed_kv.Raft.State.{Node, is_role, is_leader, with_log, current_term}
use distributed_kv.Raft.Waiters.{
  drop_all, fail_stale_writers, notify, notify_writers, satisfy_pending_reads,
}
use distributed_kv.Raft.Lifecycle.{become_follower}
use distributed_kv.Raft.Replication.{on_append_response, back_up, on_success}
use distributed_kv.Raft.Follower.{
  Check, consistent, missing, conflict, on_check, after_append, accept_leader,
  handle_append_entries, follow_commit, check_prev,
}
use distributed_kv.Raft.Election.{observe_term, handle_request_vote}
use distributed_kv.Raft.Propose.{begin_propose, proposed_entry, register}
use distributed_kv.Raft.Writers.{
  waiting, told, Books, books, Keeps, Keeps-refl, Keeps-trans, waiting-delete-le, waiting-delete,
  TellsOnce-drop, TellsOnce-role,
}

-- A leader steps down and drops its writers, and another node, which has none, becomes a follower.
step_down-Keeps :
    (b : Books)
    → Keeps b (
        if is_role b.role leader
        then record {
          waiters = [];
          sent = drop_all b.waiters b.sent;
          next = b.next;
          role = follower;
        }
        else record b { role = follower })
step_down-Keeps b = elim (Bool-cases (is_role b.role leader)) [
  | inl e ↦ rw e (record { tells = TellsOnce-drop b follower; waits = λ w h. refl })
  | inr e ↦ rw e (record { tells = TellsOnce-role b follower; waits = λ w h. w e })
]

module _ ⦃E : Engine⦄ ⦃C : Codec Entry⦄ ⦃P : Codec Pairs⦄ ⦃M : Codec SnapshotMeta⦄
    ⦃F : FileSystem⦄ where
  pub become_follower-Keeps :
      (n : Node) (term : ℕ) (id addr : Bytes)
      → Keeps (books n) (books (become_follower n term id addr))
  unfolding become_follower fail_stale_writers
  become_follower-Keeps n term id addr = ground (arith, step_down-Keeps (books n))

  pub become_follower-steps_down :
      (n : Node) (term : ℕ) (id addr : Bytes) → is_leader (become_follower n term id addr) ≡ false
  unfolding become_follower fail_stale_writers
  become_follower-steps_down n term id addr = ground arith

  pub observe_term-Keeps : (n : Node) (term : ℕ) → Keeps (books n) (books (observe_term n term))
  unfolding observe_term fail_stale_writers
  observe_term-Keeps n term = ground (arith, Keeps-refl (books n), step_down-Keeps (books n))

  pub handle_request_vote-Keeps :
      (n : Node) (req : RequestVoteRequest) → Keeps (books n) (books (handle_request_vote n req).0)
  unfolding handle_request_vote
  handle_request_vote-Keeps n req =
      ground (arith, Keeps-refl (books n), observe_term-Keeps n req.term)

  -- A candidate has no writers.
  demote-Keeps :
      (b : Books) → is_role b.role candidate ≡ true → Keeps b (record b { role = follower })
  demote-Keeps b e = record {
    tells = TellsOnce-role b follower;
    waits = λ w h. w (not_both b.role e);
  }
    where
      not_both : (r : Role) → is_role r candidate ≡ true → is_role r leader ≡ false
      not_both r e = ground arith

  accept_leader-Keeps :
      (n : Node) (req : AppendEntriesRequest) → Keeps (books n) (books (accept_leader n req))
  unfolding accept_leader fail_stale_writers
  accept_leader-Keeps n req =
      ground (arith, Keeps-refl (books n), step_down-Keeps (books n), demote-Keeps (books n))

  books-follow_commit : (n : Node) (c : ℕ) → books (follow_commit n c) ≡ books n
  unfolding follow_commit
  books-follow_commit n c = ground arith

  books-after_append :
      (n : Node) (r : Option Error × PersistentLog) (term c : ℕ)
      → books (after_append r n term c).0 ≡ books n
  books-after_append n (some x, log) term c = refl
  books-after_append n (none, log) term c = books-follow_commit (with_log n log) c

  books-on_check :
      (n : Node) (req : AppendEntriesRequest) (term : ℕ) (c : Check)
      → books (on_check n req term c).0 ≡ books n
  books-on_check n req term missing = refl
  books-on_check n req term (conflict t i) = refl
  books-on_check n req term consistent =
      books-after_append n (append_entries n.log req.entries n.opts.fsync_on_append) term
        req.leader_commit

  pub handle_append_entries-Keeps :
      (n : Node) (req : AppendEntriesRequest)
      → Keeps (books n) (books (handle_append_entries n req).0)
  unfolding handle_append_entries
  handle_append_entries-Keeps n req = elim (Bool-cases (ltb req.term (current_term n))) [
    | inl old ↦ rw old (Keeps-refl (books n))
    | inr new ↦ rw new (
        rw (books-on_check (accept_leader n req) req _ (check_prev (accept_leader n req).log req))
          (accept_leader-Keeps n req))
  ]

  on_success-books :
      (n : Node) (peer : Bytes) (es : List Entry) → books (on_success n peer es) ≡ books n
  on_success-books n peer [] = refl
  on_success-books n peer (e ∷ es) = refl

  pub on_append_response-Keeps :
      (n : Node) (peer : Bytes) (term : ℕ) (es : List Entry) (r : Result AppendEntriesResponse)
      → Keeps (books n) (books (on_append_response n peer term es r))
  unfolding on_append_response back_up
  on_append_response-Keeps n peer term es (err x) = Keeps-refl (books n)
  on_append_response-Keeps n peer term es (ok r) = ground (
    arith,
    Keeps-refl (books n),
    become_follower-Keeps n r.term [] [],
    on_success-books n peer es,
  )

  found_none : (i : ℕ) {ch : ℕ} → Map.lookup ℕ_discrete i [] ≡ some ch → ⊥
  unfolding Map.lookup
  found_none i h = cc

  -- The writer of an index that was applied is told, and waits no longer.
  told_one-Keeps :
      (b : Books) (i ch : ℕ)
      → Map.lookup ℕ_discrete i b.waiters ≡ some ch
      → Keeps b
          (record b { waiters = Map.delete ℕ_discrete i b.waiters; sent = (ch, none) ∷ b.sent })
  unfolding told
  told_one-Keeps b i ch h = record {
    tells = λ t. record {
      once = λ c. omega (arith, waiting-delete c i ch b.waiters h, t.once c);
      fresh = λ c l. omega (arith, waiting-delete c i ch b.waiters h, t.fresh c l);
    };
    waits = λ w e. absurd (nobody (w e));
  }
    where
      nobody : b.waiters ≡ [] → ⊥
      nobody e = found_none i (subst (λ m. Map.lookup ℕ_discrete i m ≡ some ch) e h)

  pub notify_writers-Keeps : (n : Node) (i : ℕ) → Keeps (books n) (books (notify_writers n i))
  unfolding notify_writers
  notify_writers-Keeps n i = go (Map.lookup ℕ_discrete i n.write_waiters) refl
    where
      go :
          (o : Option ℕ)
          → Map.lookup ℕ_discrete i n.write_waiters ≡ o
          → Keeps (books n) (books (notify n i o))
      go none e = Keeps-refl (books n)
      go (some ch) e = told_one-Keeps (books n) i ch e

  pub books-satisfy_pending_reads : (n : Node) → books (satisfy_pending_reads n) ≡ books n
  unfolding satisfy_pending_reads
  books-satisfy_pending_reads n = ground arith

  -- A leader opens a new channel.
  register-Keeps : (n : Node) (i : ℕ) → is_leader n ≡ true → Keeps (books n) (books (register n i))
  unfolding waiting Map.insert
  register-Keeps n i l = record {
    tells = λ t. record {
      once = λ c. ground (arith, waiting-delete-le c i n.write_waiters, t.once c, t.fresh c);
      fresh = λ c h. ground (arith, waiting-delete-le c i n.write_waiters, t.fresh c);
    };
    waits = λ w e. absurd (both l e);
  }
    where
      both : is_role n.role leader ≡ true → is_role n.role leader ≡ false → ⊥
      both l e = cc

  after_append-books :
      (r : Option Error × PersistentLog) (n : Node) (e : Entry)
      → Keeps (books n) (books (distributed_kv.Raft.Propose.after_append r n e).1)
  after_append-books (some x, log) n e = record {
    tells = λ t. record {
      once = λ c. omega (arith, waiting-delete-le c e.index n.write_waiters, t.once c);
      fresh = λ c h. omega (arith, waiting-delete-le c e.index n.write_waiters, t.fresh c h);
    };
    waits = λ w l. emptied (w l);
  }
    where
      emptied : n.write_waiters ≡ [] → Map.delete ℕ_discrete e.index n.write_waiters ≡ []
      emptied q = rw q (unfold Map.delete in refl)
  after_append-books (none, log) n e = Keeps-refl (books n)

  pub begin_propose-Keeps :
      (n : Node) (type : EntryType) (key value id : Bytes)
      → Keeps (books n) (books (begin_propose n type key value id).1)
  unfolding begin_propose
  begin_propose-Keeps n type key value id = elim (Bool-cases (is_leader n)) [
    | inl e ↦ rw e (
        Keeps-trans (register-Keeps n (proposed_entry n type key value id).index e) (
          after_append-books
            (append_entries n.log (proposed_entry n type key value id ∷ []) n.opts.fsync_on_append)
            (register n (proposed_entry n type key value id).index)
            (proposed_entry n type key value id)))
    | inr e ↦ rw e (Keeps-refl (books n))
  ]
