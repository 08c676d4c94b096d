-- ===== src/Raft/Apply/Ready.antt =====
-- What the apply loop of internal/raft/node_lifecycle.go needs of the log, and that a snapshot taken in
-- between leaves it so.
use distributed_kv.Common.{
  ℕ, suc, ◌≤◌, ◌<◌, ◌≡◌, refl, sym, ◌∙◌, ap, Option, none, some, List, [], ◌∷◌, Error, Result, ok,
  err, arith, u64_mod, Bool-cases, inl, inr,
}
use distributed_kv.Storage.{Engine, Codec}
use distributed_kv.Kv.StateMachine.{Pairs, Snapshot, dump}
use distributed_kv.Raft.Entry.{Entry}
use distributed_kv.Raft.SnapshotStore.{FileSystem, SnapshotMeta, save, load_latest}
use distributed_kv.Raft.Log.{PersistentLog, term_at}
use distributed_kv.Raft.Log.Writes.{compact_prefix}
use distributed_kv.Raft.Log.Valid.{IsValid, held}
use distributed_kv.Raft.Log.Compact.{compact_prefix-IsValid}
use distributed_kv.Raft.Log.Kept.{compact_prefix-held}
use distributed_kv.Raft.Log.Recover.{IsReadable}
use distributed_kv.Raft.Log.Reads.{term_at_lem}
use distributed_kv.Raft.State.{Node}
use distributed_kv.Raft.Snapshot.{covers, compact_after, save_dump, snapshot_at, maybe_snapshot}

module _ ⦃E : Engine⦄ ⦃C : Codec Entry⦄ where
  open E use {commit}

  -- A well-formed log with everything behind `applied` up to `commit_index`, whose terms fit in
  -- a uint64.
  pub record IsReady (pl : PersistentLog) (applied commit_index : ℕ) : Type 0 where
    pub valid : IsValid pl
    pub not_compacted : pl.last_included_index ≤ applied
    pub reached : commit_index ≤ pl.last_index
    pub terms_fit :
        (i : ℕ) (e : Entry)
        → applied < i
        → i ≤ pl.last_index
        → held pl i ≡ some e
        → e.term < u64_mod

  -- The log holds the entries from `a` on.
  abbrev pub Holds : PersistentLog → ℕ → List Entry → Type 0
  Holds pl a [] = Unit
  Holds pl a (e ∷ es) = (held pl a ≡ some e) × Holds pl (suc a) es

  compact_prefix-indices :
      (pl : PersistentLog) (index term : ℕ)
      → pl.last_included_index ≤ index
      → index ≤ pl.last_index
      → ((compact_prefix pl index term).1.last_index ≡ pl.last_index)
        × ((compact_prefix pl index term).1.last_included_index ≤ index)
  unfolding compact_prefix
  compact_prefix-indices pl index term lo hi = ground arith

  module _ (r : (d : Engine.Db E) → IsReadable d) where
    -- Compaction up to the next index keeps the log ready, and the entries behind it.
    pub compact_prefix-IsReady :
        (pl : PersistentLog) (a c t : ℕ)
        → IsReady pl a c
        → suc a ≤ c
        → term_at pl (suc a) ≡ some t
        → IsReady (compact_prefix pl (suc a) t).1 (suc a) c
          × ((j : ℕ) → suc a < j → j ≤ c → held (compact_prefix pl (suc a) t).1 j ≡ held pl j)
    compact_prefix-IsReady pl a c t h le e =
        let (x, hx, tx) =
          (term_at_lem pl h.valid (r pl.engine) (suc a)).1 (omega (arith, h.not_compacted))
            (omega (arith, h.reached)) in
        let q : some t ≡ some x.term = sym e ∙ tx in
        let fits : t < u64_mod =
          ground (arith, h.terms_fit (suc a) x (omega arith) (omega (arith, h.reached)) hx) in
        let (last, boundary) =
          compact_prefix-indices pl (suc a) t (omega (arith, h.not_compacted))
            (omega (arith, h.reached)) in
        let kept = λ (j : ℕ) (p : suc a < j) (l : j ≤ pl.last_index).
          compact_prefix-held pl (suc a) t j h.valid p (omega (arith, h.not_compacted)) l in
        (
          record {
            valid =
                compact_prefix-IsValid pl h.valid (suc a) t
                  (omega (arith, h.reached, h.valid.bounded)) fits;
            not_compacted = boundary;
            reached = omega (arith, last, h.reached);
            terms_fit = λ j y p l w.
                h.terms_fit j y (omega arith) (omega (arith, last))
                  (sym (kept j p (omega (arith, last))) ∙ w);
          },
          λ j p l. kept j p (omega (arith, h.reached)),
        )

    IsReady-suc : (pl : PersistentLog) (a c : ℕ) → IsReady pl a c → IsReady pl (suc a) c
    IsReady-suc pl a c h = record {
      valid = h.valid;
      not_compacted = omega (arith, h.not_compacted);
      reached = h.reached;
      terms_fit = λ j y p l w. h.terms_fit j y (omega arith) l w;
    }

module _ ⦃E : Engine⦄ ⦃C : Codec Entry⦄ ⦃P : Codec Pairs⦄ ⦃M : Codec SnapshotMeta⦄ ⦃F : FileSystem⦄
    (r : (d : Engine.Db E) → IsReadable d) where
  -- `after` is ready for the next index, with the entries of `before`, and the store is the same.
  pub record Continues (before after : Node) (a c : ℕ) : Type 0 where
    pub ready : IsReady after.log (suc a) c
    pub same_entries : (j : ℕ) → suc a < j → j ≤ c → held after.log j ≡ held before.log j
    pub same_store : after.sm ≡ before.sm

  module _ (n : Node) (a c : ℕ) (h : IsReady n.log a c) (le : suc a ≤ c) where
    Continues-same : (m : Node) → m.log ≡ n.log → m.sm ≡ n.sm → Continues n m a c
    Continues-same m p q = record {
      ready = rw p (IsReady-suc r n.log a c h);
      same_entries = λ j _ _. ap (λ (pl : PersistentLog). held pl j) p;
      same_store = q;
    }

    compact_after-Continues :
        (o : Option Error × FileSystem.Disk F) (t : ℕ)
        → term_at n.log (suc a) ≡ some t
        → Continues n (compact_after o n (suc a) t) a c
    compact_after-Continues (some e, disk) t q = Continues-same _ refl refl
    compact_after-Continues (none, disk) t q =
        let (x, y) = compact_prefix-IsReady r n.log a c t h le q in
        record { ready = x; same_entries = y; same_store = refl }

    save_dump-Continues :
        (o : Result Snapshot) (t : ℕ)
        → term_at n.log (suc a) ≡ some t
        → Continues n (save_dump o n (suc a) t) a c
    save_dump-Continues (err e) t q = Continues-same n refl refl
    save_dump-Continues (ok snap) t q = compact_after-Continues (save n.snap_store snap _) t q

    snapshot_at-Continues :
        (o : Option ℕ) → term_at n.log (suc a) ≡ o → Continues n (snapshot_at o n (suc a)) a c
    snapshot_at-Continues none q = Continues-same n refl refl
    snapshot_at-Continues (some t) q = save_dump-Continues (dump n.sm) t q

    pub maybe_snapshot-Continues : Continues n (maybe_snapshot n (suc a)) a c
    unfolding maybe_snapshot
    maybe_snapshot-Continues = elim (Bool-cases (covers (load_latest n.snap_store) (suc a))) [
      | inl e ↦ rw e (Continues-same n refl refl)
      | inr e ↦ rw e (snapshot_at-Continues (term_at n.log (suc a)) refl)
    ]

    pub no_snapshot-Continues : Continues n n a c
    no_snapshot-Continues = Continues-same n refl refl
