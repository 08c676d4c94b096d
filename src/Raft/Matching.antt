-- ===== src/Raft/Matching.antt =====
-- The logs of a leader and a follower of internal/raft, and what the leader's requests hold.
pub mod Logs
pub mod Agrees
use distributed_kv.Common.{
  ℕ, suc, ◌+◌, ◌-◌, ◌≤◌, ◌<◌, ◌≡◌, refl, sym, ap, ◌∙◌, ◌⊎◌, inl, inr, Bool, true, false, Option,
  none, some, List, [], ◌∷◌, Bytes, bytes_discrete, Error, Result, ok, err, arith, u64_mod, length,
  get_elem?, Bool-cases, leb, ltb, lt→leb, le→leb, subst, le→ltb, lt→ltb, ltb, dec_le, dec_lt, ◌&&◌,
  ◌==◌, add64, sub64,
}
use distributed_kv.Common.Map
use distributed_kv.Storage.{Engine, Codec}
use distributed_kv.Kv.StateMachine.{Pairs}
use distributed_kv.Raft.Entry.{Entry}
use distributed_kv.Raft.SnapshotStore.{FileSystem, SnapshotMeta}
use distributed_kv.Raft.Log.{PersistentLog, term_at, range}
use distributed_kv.Raft.Log.Valid.{IsValid, held}
use distributed_kv.Raft.Log.Keys.{IsContiguous}
use distributed_kv.Raft.Log.Sound.{IsSound}
use distributed_kv.Raft.Log.Recover.{IsReadable}
use distributed_kv.Raft.Log.Reads.{IsSlice, range_lem, term_at_lem}
use distributed_kv.Raft.Types.{AppendEntriesRequest}
use distributed_kv.Raft.State.{Node, current_term, is_leader, or_zero}
use distributed_kv.Raft.Replication.{
  Outgoing, stay, snapshot, request, prev_term, batch_end, missing_entries, with_entries, with_prev,
  replicate_request,
}

module _ ⦃E : Engine⦄ ⦃C : Codec Entry⦄ where
  -- Log matching: where both logs hold an entry of one term at one index, they hold the same
  -- entries up to there, as far as neither log is compacted.
  pub record Matches (a b : PersistentLog) : Type 0 where
    pub same_up_to :
        (i : ℕ) (x y : Entry)
        → i ≤ a.last_index
        → i ≤ b.last_index
        → held a i ≡ some x
        → held b i ≡ some y
        → x.term ≡ y.term
        → (j : ℕ) → a.last_included_index < j
        → b.last_included_index < j
        → j ≤ i
        → held a j ≡ held b j

  -- The entries of a request are those of the log behind the previous index, whose term is the
  -- given one.
  pub record IsFrom (pl : PersistentLog) (req : AppendEntriesRequest) : Type 0 where
    pub not_compacted : pl.last_included_index ≤ req.prev_log_index
    pub in_log : req.prev_log_index + length req.entries ≤ pl.last_index
    pub consecutive : IsContiguous (req.prev_log_index + 1) req.entries
    pub slice : IsSlice pl (req.prev_log_index + 1) req.entries
    pub prev_given :
        (req.prev_log_index ≡ 0) ⊎ (term_at pl req.prev_log_index ≡ some req.prev_log_term)

module _ ⦃E : Engine⦄ ⦃C : Codec Entry⦄ ⦃P : Codec Pairs⦄ ⦃M : Codec SnapshotMeta⦄
    ⦃F : FileSystem⦄ where
  module _ (n : Node) (v : IsValid n.log) (r : IsReadable n.log.engine) where
    batch_end-le :
        (next max_batch : ℕ)
        → next < u64_mod
        → next ≤ n.log.last_index
        → 0 < next
        → batch_end n.log.last_index next max_batch ≤ n.log.last_index
    batch_end-le next max_batch lt le pos = ground (arith, v.bounded)

    missing_entries-IsSlice :
        (next max_batch : ℕ) (es : List Entry)
        → n.log.last_included_index < next
        → next ≤ n.log.last_index + 1
        → missing_entries n.log next max_batch ≡ ok es
        → IsContiguous next es × IsSlice n.log next es × (next + length es ≤ n.log.last_index + 1)
    missing_entries-IsSlice next max_batch es lo hi h = elim (dec_le next n.log.last_index) [
      | no p ↦
          let q : none_missing ≡ ok es = rw (lt→leb next n.log.last_index (omega arith)) at h in
          let e : [] ≡ es = cc in subst Missing e (tt, λ k x g. cc, omega arith)
      | yes p ↦
          let to = batch_end n.log.last_index next max_batch in
          let (es', e, c, s, l) =
            range_lem n.log v r next to lo
              (batch_end-le next max_batch (omega (arith, v.bounded)) p (omega arith)) in
          let q : Result.ok es' ≡ ok es = sym e ∙ (rw (le→leb next n.log.last_index p) at h) in
          let same : es' ≡ es = cc in
          subst Missing same (
            c,
            s,
            omega
                (arith, l, batch_end-le next max_batch (omega (arith, v.bounded)) p (omega arith)),
          )
    ]
      where
        none_missing : Result (List Entry)
        none_missing = ok []

        Missing : List Entry → Type 0
        Missing xs =
            IsContiguous next xs × IsSlice n.log next xs × (next + length xs ≤ n.log.last_index + 1)

    prev_term-known :
        (i t : ℕ)
        → prev_term (term_at n.log i) i ≡ some t
        → ((i ≡ 0) ⊎ (term_at n.log i ≡ some t)) × (i ≤ n.log.last_index)
    prev_term-known i t h = known (term_at n.log i) refl h
      where
        known :
            (o : Option ℕ)
            → term_at n.log i ≡ o
            → prev_term o i ≡ some t
            → ((i ≡ 0) ⊎ (term_at n.log i ≡ some t)) × (i ≤ n.log.last_index)
        known (some u) e q = (
          inr (e ∙ q),
          elim (dec_le i n.log.last_index) [
            | yes p ↦ p
            | no p ↦ absurd (
                let z : none ≡ some u = sym ((term_at_lem n.log v r i).2 (inr (omega arith))) ∙ e in
                cc)
          ],
        )
        known none e q = let z : i ≡ 0 = ground arith in (inl z, omega (arith, z))

    with_prev-IsFrom :
        (term next : ℕ) (o : Option ℕ) (req : AppendEntriesRequest)
        → 0 < next
        → next < u64_mod
        → n.log.last_included_index < next
        → prev_term (term_at n.log (sub64 next 1)) (sub64 next 1) ≡ o
        → with_prev n term next o ≡ request req
        → IsFrom n.log req
    with_prev-IsFrom term next none req pos fits lo q h = cc
    with_prev-IsFrom term next (some t) req pos fits lo q h =
        sent (missing_entries n.log next n.opts.replication_batch_max_entries) refl h
      where
        prev : sub64 next 1 + 1 ≡ next
        prev = ground arith

        sent :
            (o : Result (List Entry))
            → missing_entries n.log next n.opts.replication_batch_max_entries ≡ o
            → with_entries n term (sub64 next 1) t o ≡ request req
            → IsFrom n.log req
        sent (err x) e g = cc
        sent (ok es) e g =
            let (known, le) = prev_term-known (sub64 next 1) t q in
            let (c, s, l) =
              missing_entries-IsSlice next n.opts.replication_batch_max_entries es lo
                (omega (arith, prev, le)) e in
            let made : record {
              term = term;
              leader_id = n.id;
              prev_log_index = sub64 next 1;
              prev_log_term = t;
              entries = es;
              leader_commit = n.commit_index;
              leader_client_addr = n.self_client_addr;
            }
                ≡ req =
              cc in
            subst (IsFrom n.log) made (record {
              not_compacted = omega (arith, prev);
              in_log = omega (arith, prev, l);
              consecutive = rw prev c;
              slice = rw prev s;
              prev_given = known;
            })

    pub replicate_request-IsFrom :
        (peer : Bytes) (term : ℕ) (req : AppendEntriesRequest)
        → or_zero (Map.lookup bytes_discrete peer n.next_index) < u64_mod
        → replicate_request n peer term ≡ request req
        → IsFrom n.log req
    unfolding replicate_request
    replicate_request-IsFrom peer term req fits h =
        elim (Bool-cases (is_leader n && (current_term n == term))) [
          | inr e ↦ absurd (let q : stay ≡ request req = rw e at h in cc)
          | inl e ↦ elim (Bool-cases (ltb next n.log.first_index)) [
            | inl l ↦ absurd (let q : snapshot ≡ request req = rw (e, l) at h in cc)
            | inr l ↦
                let lo : n.log.last_included_index < next = ground (arith, v.first) in
                with_prev-IsFrom term next (prev_term (term_at n.log (sub64 next 1)) (sub64 next 1))
                  req (omega arith) fits lo refl (rw (e, l) at h)
          ]
        ]
      where
        next : ℕ
        next = or_zero (Map.lookup bytes_discrete peer n.next_index)
