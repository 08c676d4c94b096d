-- ===== src/Raft/Apply/Refines.antt =====
-- applyCommitted of internal/raft/node_lifecycle.go against the replay of the committed entries.
use distributed_kv.Common.{
  ℕ, zero, suc, ◌+◌, ◌-◌, ◌≤◌, ◌<◌, ◌≡◌, refl, sym, ◌∙◌, ap, Bool, true, ◌&&◌, ◌%◌, ◌==◌, ltb,
  Option, none, some, List, [], ◌∷◌, Error, arith, length, Bool-cases, inl, inr,
}
use distributed_kv.Storage.{Engine, Codec}
use distributed_kv.Kv.StateMachine.{Pairs, StateMachine}
use distributed_kv.Kv.StateMachine.View.{
  view, effect, effect_of, replay, IsWritable, view-apply_put, view-apply_delete,
}
use distributed_kv.Raft.Entry.{Entry, EntryType, noop, put, delete, unrecognized}
use distributed_kv.Raft.SnapshotStore.{FileSystem, SnapshotMeta}
use distributed_kv.Raft.Log.{PersistentLog}
use distributed_kv.Raft.Log.Valid.{held}
use distributed_kv.Raft.Log.Recover.{IsReadable}
use distributed_kv.Raft.Log.Reads.{get_entry_lem}
use distributed_kv.Raft.State.{Node}
use distributed_kv.Raft.Waiters.{notify_writers, satisfy_pending_reads}
use distributed_kv.Raft.Snapshot.{maybe_snapshot}
use distributed_kv.Raft.Apply.{
  apply_typed, apply_entry, mark_applied, after_apply, apply_one, apply_rounds, apply_committed,
}
use distributed_kv.Raft.Apply.Progress.{mark_applied-indices}
use distributed_kv.Raft.Apply.Ready.{
  IsReady, Holds, Continues, maybe_snapshot-Continues, no_snapshot-Continues,
}

module _ ⦃E : Engine⦄ ⦃C : Codec Entry⦄ ⦃P : Codec Pairs⦄ ⦃M : Codec SnapshotMeta⦄ ⦃F : FileSystem⦄
    (w : IsWritable E) where
  apply_typed-effect :
      (t : EntryType) (sm : StateMachine) (e : Entry)
      → ((apply_typed t sm e).0 ≡ none) × (view (apply_typed t sm e).1 ≡ effect_of t e (view sm))
  unfolding distributed_kv.Kv.StateMachine.apply_noop
  apply_typed-effect put sm e = view-apply_put w sm e.index e.key e.value
  apply_typed-effect delete sm e = view-apply_delete w sm e.index e.key
  apply_typed-effect noop sm e = (refl, refl)
  apply_typed-effect (unrecognized _) sm e = (refl, refl)

  apply_entry-effect :
      (sm : StateMachine) (e : Entry)
      → ((apply_entry sm e).0 ≡ none) × (view (apply_entry sm e).1 ≡ effect e (view sm))
  unfolding apply_entry
  apply_entry-effect sm e = apply_typed-effect e.entry_type sm e

module _ ⦃E : Engine⦄ ⦃C : Codec Entry⦄ where
  Holds-same :
      (pl pl' : PersistentLog) (a c : ℕ) (es : List Entry)
      → ((j : ℕ) → a ≤ j → j ≤ c → held pl' j ≡ held pl j)
      → length es + a ≤ c + 1
      → Holds pl' a es
      → Holds pl a es
  Holds-same pl pl' a c [] same le h = tt
  Holds-same pl pl' a c (e ∷ es) same le h = (
    sym (same a (omega arith) (omega arith)) ∙ h.0,
    Holds-same pl pl' (suc a) c es (λ j p q. same j (omega arith) q) (omega arith) h.1,
  )

module _ ⦃E : Engine⦄ ⦃C : Codec Entry⦄ ⦃P : Codec Pairs⦄ ⦃M : Codec SnapshotMeta⦄
    ⦃F : FileSystem⦄ where
  -- The entries from `a` on, as many as there are rounds, and what they make of the store.
  pub record Replays (n after : Node) (a rounds : ℕ) : Type 0 where
    pub entries : List Entry
    pub all : length entries ≡ rounds
    pub from_log : Holds n.log (suc a) entries
    pub reaches : after.last_applied ≡ a + rounds
    pub store_after : view after.sm ≡ replay entries (view n.sm)

module _ ⦃E : Engine⦄ ⦃C : Codec Entry⦄ ⦃P : Codec Pairs⦄ ⦃M : Codec SnapshotMeta⦄ ⦃F : FileSystem⦄
    (w : IsWritable E) (r : (d : Engine.Db E) → IsReadable d) where
  woken : Node → ℕ → Node
  woken n i = satisfy_pending_reads (notify_writers (record n { last_applied = i }) i)

  woken-same : (n : Node) (i : ℕ) → ((woken n i).log ≡ n.log) × ((woken n i).sm ≡ n.sm)
  unfolding woken satisfy_pending_reads notify_writers
  woken-same n i = (ground arith, ground arith)

  mark_applied-Continues :
      (n : Node) (a c : ℕ)
      → IsReady n.log a c
      → suc a ≤ c
      → Continues r n (mark_applied n (suc a)) a c
  unfolding mark_applied woken
  mark_applied-Continues n a c h le =
      let (p, q) = woken-same n (suc a) in
      let h' : IsReady (woken n (suc a)).log a c = rw p h in
      elim (Bool-cases (
        ltb 0 (woken n (suc a)).opts.snapshot_threshold
        && (suc a % (woken n (suc a)).opts.snapshot_threshold == 0))) [
          | inl e ↦ rw e (
              onto (maybe_snapshot (woken n (suc a)) (suc a)) p q
                (maybe_snapshot-Continues r (woken n (suc a)) a c h' le))
          | inr e ↦
              rw e
                (onto (woken n (suc a)) p q (no_snapshot-Continues r (woken n (suc a)) a c h' le))
        ]
    where
      onto :
          (m : Node)
          → (woken n (suc a)).log ≡ n.log
          → (woken n (suc a)).sm ≡ n.sm
          → Continues r (woken n (suc a)) m a c
          → Continues r n m a c
      onto m p q k = record {
        ready = k.ready;
        same_entries = λ j x y. k.same_entries j x y ∙ ap (λ (pl : PersistentLog). held pl j) p;
        same_store = k.same_store ∙ q;
      }

  -- A round that goes on has applied the entry `e` of the log.
  pub record Stepped (n : Node) (a c : ℕ) (e : Entry) (o : Bool × Node) : Type 0 where
    pub goes_on : o.0 ≡ true
    pub applied_at : o.1.last_applied ≡ suc a
    pub effect_after : view o.1.sm ≡ effect e (view n.sm)
    pub still_ready : IsReady o.1.log (suc a) c
    pub same_log : (j : ℕ) → suc a < j → j ≤ c → held o.1.log j ≡ held n.log j

  pub apply_one-Stepped :
      (n : Node) (a c : ℕ)
      → IsReady n.log a c
      → suc a ≤ c
      → (e : Entry) × (held n.log (suc a) ≡ some e) × Stepped n a c e (apply_one n (suc a))
  unfolding apply_one
  apply_one-Stepped n a c h le =
      let (e, g, x, _) =
        get_entry_lem n.log h.valid (r n.log.engine) (suc a) (omega (arith, h.not_compacted))
          (omega (arith, h.reached)) in
      (e, x, rw g (applied e (apply_entry n.sm e) (apply_entry-effect w n.sm e)))
    where
      applied :
          (e : Entry) (u : Option Error × StateMachine)
          → (u.0 ≡ none) × (view u.1 ≡ effect e (view n.sm))
          → Stepped n a c e (after_apply u n (suc a))
      applied e (some z, sm) (p, v) = cc
      applied e (none, sm) (p, v) =
          let k = mark_applied-Continues (record n { sm = sm }) a c h le in
          record {
            goes_on = refl;
            applied_at = (mark_applied-indices (record n { sm = sm }) (suc a)).0;
            effect_after = ap view k.same_store ∙ v;
            still_ready = k.ready;
            same_log = k.same_entries;
          }

  apply_rounds-Replays :
      (rounds : ℕ) (n : Node) (a : ℕ)
      → IsReady n.log a (a + rounds)
      → n.last_applied ≡ a
      → Replays n (apply_rounds rounds n a) a rounds
  unfolding apply_rounds replay
  apply_rounds-Replays zero n a h l = record {
    entries = [];
    all = refl;
    from_log = tt;
    reaches = omega (arith, l);
    store_after = refl;
  }
  apply_rounds-Replays (suc rounds) n a h l =
      let (e, x, t) = apply_one-Stepped n a (a + suc rounds) h (omega arith) in
      let ih =
        apply_rounds-Replays rounds (apply_one n (suc a)).1 (suc a)
          (rw (let q : suc a + rounds ≡ a + suc rounds = omega arith in q) t.still_ready)
          t.applied_at in
      rw (t.goes_on, apply_rounds)
        (record {
          entries = e ∷ ih.entries;
          all = ap suc ih.all;
          from_log = (
            x,
            Holds-same n.log (apply_one n (suc a)).1.log (suc (suc a)) (a + suc rounds) ih.entries
                (λ j p z. t.same_log j (omega arith) z) (omega (arith, ih.all)) ih.from_log,
          );
          reaches = omega (arith, ih.reaches);
          store_after = ih.store_after ∙ ap (replay ih.entries) t.effect_after;
        })

  -- If the engine's single writes and its reads do not fail, lastApplied is not beyond the commit
  -- index, and the log is well formed, not compacted beyond lastApplied, reaches the commit index
  -- and has terms below 2^64 behind lastApplied, then applyCommitted ends with lastApplied at the
  -- commit index, and the key-value store is the old one after the entries that the log holds in
  -- between, replayed in order as puts and deletes on a function from keys to values, also where
  -- snapshots compact the log on the way.
  pub apply_committed-Replays :
      (n : Node)
      → n.last_applied ≤ n.commit_index
      → IsReady n.log n.last_applied n.commit_index
      → Replays n (apply_committed n) n.last_applied (n.commit_index - n.last_applied)
  unfolding apply_committed
  apply_committed-Replays n le h =
      apply_rounds-Replays (n.commit_index - n.last_applied) n n.last_applied
        (rw
          (let t : n.last_applied + (n.commit_index - n.last_applied) ≡ n.commit_index =
              omega arith in
            t)
          h)
        refl
