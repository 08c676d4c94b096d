-- ===== src/Raft/Matching/Agrees.antt =====
-- HandleAppendEntries of internal/raft/replication.go on a request of the leader: the logs agree.
use distributed_kv.Common.{
  ℕ, suc, ◌+◌, ◌-◌, ◌≤◌, ◌<◌, ◌≡◌, refl, sym, ap, ◌∙◌, ◌⊎◌, inl, inr, Bool, true, none, some, List,
  [], ◌∷◌, bytes_discrete, if◌then◌else◌, get_elem?-inside, arith, u64_mod, length, get_elem?,
  dec_lt, ltb, lt→ltb, le→ltb,
}
use distributed_kv.Common.Map
use distributed_kv.Storage.{Engine, Codec}
use distributed_kv.Kv.StateMachine.{Pairs}
use distributed_kv.Raft.Entry.{Entry}
use distributed_kv.Raft.SnapshotStore.{FileSystem, SnapshotMeta}
use distributed_kv.Raft.Log.{PersistentLog, term_at}
use distributed_kv.Raft.Log.Writes.{append_entries}
use distributed_kv.Raft.Log.Valid.{IsValid, held}
use distributed_kv.Raft.Log.Keys.{IsContiguous}
use distributed_kv.Raft.Log.Sound.{IsSound}
use distributed_kv.Raft.Log.Recover.{IsReadable}
use distributed_kv.Raft.Log.Reads.{IsSlice, term_at_lem}
use distributed_kv.Raft.Log.Append.{append_entries-held}
use distributed_kv.Raft.Types.{AppendEntriesRequest}
use distributed_kv.Raft.State.{Node, or_zero}
use distributed_kv.Raft.Waiters.{fail_stale_writers}
use distributed_kv.Raft.Replication.{request, replicate_request}
use distributed_kv.Raft.Follower.{accept_leader, handle_append_entries}
use distributed_kv.Raft.Follower.Accept.{PrevMatches, handle_append_entries-Accepted}
use distributed_kv.Raft.Sound.{accept_leader-IsSound, boundary-accept_leader}
use distributed_kv.Raft.Matching.{Matches, IsFrom, replicate_request-IsFrom}
use distributed_kv.Raft.Matching.Logs.{
  Agrees, held-set_term_and_vote, boundary-append_entries, Matches-same, Agrees-all,
}

module _ ⦃E : Engine⦄ ⦃C : Codec Entry⦄ ⦃P : Codec Pairs⦄ ⦃M : Codec SnapshotMeta⦄
    ⦃F : FileSystem⦄ where
  module _ (r : (d : Engine.Db E) → IsReadable d) (a b : PersistentLog) (v : IsValid a)
      (w : IsValid b) (m : Matches a b) (req : AppendEntriesRequest) (f : IsFrom b req)
      (start : req.prev_log_index ≡ 0 → a.last_included_index ≡ 0) (p : PrevMatches a req) where
    prev-bounds : (a.last_included_index ≤ req.prev_log_index) × (req.prev_log_index ≤ a.last_index)
    prev-bounds = elim p [
      | inl z ↦ (omega (arith, start z), omega (arith, z))
      | inr t ↦ elim (dec_lt req.prev_log_index a.last_included_index) [
        | yes q ↦ absurd (unknown t (inl q))
        | no q ↦ elim (dec_lt a.last_index req.prev_log_index) [
          | yes q' ↦ absurd (unknown t (inr q'))
          | no q' ↦ (omega arith, omega arith)
        ]
      ]
    ]
      where
        unknown :
            term_at a req.prev_log_index ≡ some req.prev_log_term
            → (req.prev_log_index < a.last_included_index) ⊎ (a.last_index < req.prev_log_index)
            → ⊥
        unknown t o = let z = sym ((term_at_lem a v (r a.engine) req.prev_log_index).2 o) ∙ t in cc

    -- Up to the previous index.
    before-same :
        (j : ℕ)
        → a.last_included_index < j
        → b.last_included_index < j
        → j ≤ req.prev_log_index
        → held a j ≡ held b j
    before-same j la lb le =
        let prev = req.prev_log_index in
        let (x, hx, tx) =
          (term_at_lem a v (r a.engine) prev).1 (omega arith) (omega (arith, prev-bounds.1)) in
        let (y, hy, ty) =
          (term_at_lem b w (r b.engine) prev).1 (omega arith) (omega (arith, f.in_log)) in
        let ta : term_at a prev ≡ some req.prev_log_term = elim p [
          | inl z ↦ absurd (omega (arith, z))
          | inr t ↦ t
        ] in
        let tb : term_at b prev ≡ some req.prev_log_term = elim f.prev_given [
          | inl z ↦ absurd (omega (arith, z))
          | inr t ↦ t
        ] in
        let q : some x.term ≡ some y.term = sym tx ∙ ta ∙ sym tb ∙ ty in
        let same : x.term ≡ y.term = cc in
        m.same_up_to prev x y (omega (arith, prev-bounds.1)) (omega (arith, f.in_log)) hx hy same j
          la lb le

    -- The new log has the entries of the request at its end, and so matches.
    appended-Agrees :
        (es : List Entry) (sync : Bool)
        → req.entries ≡ es
        → (append_entries a es sync).0 ≡ none
        → Agrees (append_entries a es sync).1 b (req.prev_log_index + length es)
    unfolding append_entries
    appended-Agrees [] sync q done = record {
      same = λ j la lb le. before-same j la lb (omega arith);
      matches = m;
    }
    appended-Agrees (e ∷ es) sync q done =
        Agrees-all _ b (req.prev_log_index + suc (length es)) (omega (arith, end, at))
          (λ j la lb le. elim (dec_lt j e.index) [
            | yes k ↦
                (added j (omega (arith, inside, w.bounded))).0
                ∙ rw (lt→ltb j e.index k)
                    (before-same j (omega (arith, boundary)) lb (omega (arith, at)))
            | no k ↦
                let i = j - e.index in
                let (x, g) = get_elem?-inside (e ∷ es) i (omega (arith, at)) in
                let place : req.prev_log_index + 1 + i ≡ j = omega (arith, at) in
                (added j (omega (arith, inside, w.bounded))).0
                ∙ rw (le→ltb j e.index (omega arith))
                    (g ∙ sym (ap (λ u. held b u) (sym place) ∙ slice i x g))
          ])
      where
        inside : req.prev_log_index + suc (length es) ≤ b.last_index
        inside = rw q at f.in_log

        listed : IsContiguous (req.prev_log_index + 1) (e ∷ es)
        listed = rw q at f.consecutive

        slice : IsSlice b (req.prev_log_index + 1) (e ∷ es)
        slice = rw q at f.slice

        at : e.index ≡ req.prev_log_index + 1
        at = listed.0

        added :
            (j : ℕ)
            → j < u64_mod
            → (held (append_entries a (e ∷ es) sync).1 j
                ≡ (if ltb j e.index then held a j else get_elem? (e ∷ es) (j - e.index)))
              × ((append_entries a (e ∷ es) sync).1.last_index ≡ e.index + length es)
        added j hj =
            append_entries-held a e es v (refl, rw at listed.1) (omega (arith, at, prev-bounds.0))
              (omega (arith, at, prev-bounds.1)) (omega (arith, at, w.bounded, inside)) sync j done
              hj

        end : (append_entries a (e ∷ es) sync).1.last_index ≡ e.index + length es
        end = (added 0 (omega arith)).1

        boundary : (append_entries a (e ∷ es) sync).1.last_included_index ≡ a.last_included_index
        boundary = boundary-append_entries a (e ∷ es) sync

  held-accept_leader :
      (n : Node) (req : AppendEntriesRequest) (j : ℕ)
      → (held (accept_leader n req).log j ≡ held n.log j)
        × ((accept_leader n req).log.last_index ≡ n.log.last_index)
  unfolding accept_leader fail_stale_writers
  held-accept_leader n req j = ground (arith, held-set_term_and_vote n.log req.term [] j)

  -- If a leader's log is well formed and a follower's log too, with terms that fit in 64 bits, the
  -- reads of their engines do not fail, the two logs match, which means that where both hold an
  -- entry of one term at one index they hold the same entries up to there, and the follower
  -- answers the request that replicateToPeer builds for it with success, where the next index and
  -- the term fit in 64 bits and a request from the first index on meets a log that is not
  -- compacted, then the follower's log holds afterwards exactly the leader's entries up to the
  -- last index of the request, as far as neither is compacted, and the two logs match again.
  pub handle_append_entries-Agrees :
      (r : (d : Engine.Db E) → IsReadable d) (leader n : Node) (term : ℕ)
      (req : AppendEntriesRequest)
      → IsValid leader.log
      → IsSound n.log
      → Matches n.log leader.log
      → or_zero (Map.lookup bytes_discrete n.id leader.next_index) < u64_mod
      → replicate_request leader n.id term ≡ request req
      → req.term < u64_mod
      → (req.prev_log_index ≡ 0 → n.log.last_included_index ≡ 0)
      → (handle_append_entries n req).1.success ≡ true
      → Agrees
          (handle_append_entries n req).0.log
          leader.log
          (req.prev_log_index + length req.entries)
  handle_append_entries-Agrees r leader n term req v s m next sent fits start won =
      let a = handle_append_entries-Accepted n req won in
      let n1 = accept_leader n req in
      let boundary = boundary-accept_leader n req in
      let f = replicate_request-IsFrom leader v (r leader.log.engine) n.id term req next sent in
      let m1 =
        Matches-same n.log n1.log leader.log (λ j. (held-accept_leader n req j).0)
          (held-accept_leader n req 0).1 boundary m in
      rw a.log_after (
        appended-Agrees r n1.log leader.log (accept_leader-IsSound n req fits s).valid v m1 req f
          (λ z. boundary ∙ start z) a.prev_matches req.entries n1.opts.fsync_on_append refl
          a.appended)
