-- ===== src/Raft/Alone/Puts.antt =====
-- Propose of internal/raft/propose.go on a cluster of one node.
use distributed_kv.Common.{
  ℕ, zero, suc, ◌+◌, ◌-◌, ◌≤◌, ◌<◌, ◌≡◌, refl, sym, ◌∙◌, ap, true, Option, none, some, List, [],
  ◌∷◌, Error, ok, arith, u64_mod, Bytes, In, length, ℕ_discrete, bytes_discrete, if_pos,
}
use distributed_kv.Common.Map.{lookup-insert}
use distributed_kv.Storage.{Engine, Codec, Contents}
use distributed_kv.Kv.StateMachine.{Pairs, get_value}
use distributed_kv.Kv.StateMachine.View.{IsWritable, view, effect, replay}
use distributed_kv.Kv.StateMachine.Reads.{get_value_lem}
use distributed_kv.Raft.Entry.{Entry, put}
use distributed_kv.Raft.SnapshotStore.{FileSystem, SnapshotMeta}
use distributed_kv.Raft.Log.{PersistentLog}
use distributed_kv.Raft.Log.Valid.{held}
use distributed_kv.Raft.Log.Writes.{append_entries}
use distributed_kv.Raft.Log.Sound.{IsSound}
use distributed_kv.Raft.Election.Grants.{IsReliable}
use distributed_kv.Raft.Types.{Transport}
use distributed_kv.Raft.State.{Node, is_leader, with_log}
use distributed_kv.Raft.Lifecycle.{signal_commit_advanced}
use distributed_kv.Raft.Replication.{broadcast_append_entries}
use distributed_kv.Raft.Propose.{
  proposed_entry, register, after_append, begin_propose, end_propose, propose, replicate_and_wait,
  sent,
}
use distributed_kv.Raft.Apply.{apply_committed}
use distributed_kv.Raft.Apply.Ready.{IsReady, Holds}
use distributed_kv.Raft.Apply.Refines.{apply_committed-Replays}
use distributed_kv.Raft.Writers.Applied.{apply_committed-tells}
use distributed_kv.Raft.Alone.{
  IsEncoder, Extends, IsSound-IsReady, append_one-Extends, alone-commits,
}

module _ ⦃E : Engine⦄ ⦃C : Codec Entry⦄ where
  -- The last entry of a replay is that at the end of the log.
  replay-last :
      (pl : PersistentLog) (es : List Entry) (a k : ℕ) (e : Entry) (c : Contents)
      → Holds pl a es
      → length es ≡ suc k
      → held pl (a + k) ≡ some e
      → (before : Contents) × (replay es c ≡ effect e before)
  unfolding replay
  replay-last pl [] a k e c h l at = absurd (omega (arith, l))
  replay-last pl (x ∷ []) a zero e c h l at =
      let here : a ≡ a + 0 = omega arith in
      let q : some x ≡ some e = sym h.0 ∙ ap (λ i. held pl i) here ∙ at in
      let same : x ≡ e = cc in (c, ap (λ y. effect y c) same)
  replay-last pl (x ∷ []) a (suc k) e c h l at = absurd (omega (arith, l))
  replay-last pl (x ∷ y ∷ es) a zero e c h l at = absurd (omega (arith, l))
  replay-last pl (x ∷ y ∷ es) a (suc k) e c h l at =
      replay-last pl (y ∷ es) (suc a) k e (effect x c) h.1 (omega (arith, l))
        (ap (λ i. held pl i) (let q : suc a + k ≡ a + suc k = omega arith in q) ∙ at)

module _ ⦃E : Engine⦄ ⦃C : Codec Entry⦄ ⦃P : Codec Pairs⦄ ⦃M : Codec SnapshotMeta⦄
    ⦃F : FileSystem⦄ where
  -- What a put leaves: Propose returns no error, its writer was told so, the entry is applied, and
  -- a read of the key gives the value.
  pub record IsPut (n : Node) (key value : Bytes) (o : Option Error × Node) : Type 0 where
    pub returned : o.0 ≡ none
    pub writer_told : In (n.next_channel, none) o.1.delivered
    pub applied_up_to : o.1.last_applied ≡ n.log.last_index + 1
    pub read_back : get_value o.1.sm key ≡ ok (some value)

  module _ (w : IsWritable E) (r : IsReliable E) (c : IsEncoder C) where
    -- The log is `pl` already.
    committed-IsPut :
        (T : Transport) (n : Node) (key value id : Bytes) (pl : PersistentLog)
        → n.peers ≡ []
        → is_leader n ≡ true
        → n.log.last_included_index ≤ n.last_applied
        → n.last_applied ≤ n.commit_index
        → n.commit_index ≤ n.log.last_index
        → (proposed_entry n put key value id).index ≡ n.log.last_index + 1
        → Extends n.log pl (proposed_entry n put key value id)
        → IsPut n key value (
          none,
          apply_committed (
              broadcast_append_entries T
                (with_log (register n (proposed_entry n put key value id).index) pl)),
        )
    committed-IsPut T n key value id pl alone leads kept le reached at x =
        let e = proposed_entry n put key value id in
        let n1 = with_log (register n e.index) pl in
        let n2 = signal_commit_advanced (record n1 { commit_index = pl.last_index }) in
        let done : broadcast_append_entries T n1 ≡ n2 =
          alone-commits r T n1 e alone leads x.sound (omega (arith, x.same_boundary, x.end))
            (omega (arith, x.end)) (ap (λ i. held pl i) x.end ∙ x.at_end) (sym x.same_term) in
        let ready : IsReady pl n.last_applied pl.last_index =
          IsSound-IsReady pl n.last_applied pl.last_index x.sound (omega (arith, x.same_boundary))
            (omega arith) in
        let p = apply_committed-Replays w r.readable n2 (omega (arith, x.end)) ready in
        let behind = pl.last_index - suc n.last_applied in
        let at_last : suc n.last_applied + behind ≡ e.index = omega (arith, x.end) in
        let count : pl.last_index - n.last_applied ≡ suc behind = omega (arith, x.end) in
        let (before, v) =
          replay-last pl p.entries (suc n.last_applied) behind e (view n.sm) p.from_log
            (p.all ∙ count) (ap (λ i. held pl i) at_last ∙ x.at_end) in
        rw done (record {
          returned = refl;
          writer_told =
              apply_committed-tells w r.readable n2 e.index n.next_channel ready (omega arith)
                (omega (arith, x.end))
                (lookup-insert ℕ_discrete e.index e.index n.next_channel n.write_waiters
                  ∙ if_pos (ℕ_discrete e.index e.index) refl _ _);
          applied_up_to = omega (arith, p.reaches, x.end);
          read_back =
              get_value_lem r.readable (apply_committed n2).sm key
              ∙ ap ok (
                  ap (λ (u : Contents). u key) (p.store_after ∙ v)
                  ∙ if_pos (bytes_discrete key key) refl _ _);
        })

    -- If the engine's reads and writes do not fail and every entry can be encoded.
    pub propose-IsPut :
        (T : Transport) (n : Node) (key value id : Bytes)
        → n.peers ≡ []
        → is_leader n ≡ true
        → IsSound n.log
        → n.log.last_included_index ≤ n.last_applied
        → n.last_applied ≤ n.commit_index
        → n.commit_index ≤ n.log.last_index
        → n.log.last_index + 2 < u64_mod
        → IsPut n key value (propose T n apply_committed (sent none) put key value id)
    unfolding propose begin_propose end_propose
    propose-IsPut T n key value id alone leads s kept le reached room =
        let (done, x) =
          append_one-Extends r c n.log e n.opts.fsync_on_append s at (omega (arith, at))
            s.terms_fit.1 in
        rw leads (finished (append_entries n.log (e ∷ []) n.opts.fsync_on_append) done x)
      where
        e : Entry
        e = proposed_entry n put key value id

        at : e.index ≡ n.log.last_index + 1
        at = ground arith

        finished :
            (o : Option Error × PersistentLog)
            → o.0 ≡ none
            → Extends n.log o.1 e
            → IsPut n key value (
                replicate_and_wait T apply_committed
                  (sent none)
                  (after_append o (register n e.index) e))
        finished (some _, pl) d x = cc
        finished (none, pl) d x =
            committed-IsPut T n key value id pl alone leads kept le reached at x
