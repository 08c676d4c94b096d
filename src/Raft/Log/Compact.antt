-- ===== src/Raft/Log/Compact.antt =====
-- TruncateSuffix, CompactPrefix and RestoreSnapshotBoundary of internal/raft/log.go.
use distributed_kv.Common.{
  ℕ, suc, ◌+◌, ◌-◌, ◌≤◌, ◌<◌, ◌≡◌, refl, ◌∙◌, ap, ◌⊎◌, inl, inr, some, [], ◌++◌, Bytes, arith,
  u64_mod, upto, if◌then◌else◌, ltb, dec_le, dec_lt, lt→ltb, le→ltb, le→leb, lt→leb, sub64, ◌==◌,
  put_uint64,
}
use distributed_kv.Common.Map
use distributed_kv.Common.Map.{Map}
use distributed_kv.Storage.{Engine, Codec, Contents, apply_batch}
use distributed_kv.Raft.Entry.{Entry}
use distributed_kv.Raft.Log.{PersistentLog, key_last_included_index, key_last_included_term}
use distributed_kv.Raft.Log.Writes.{
  delete_keys, boundary_sets, truncate_suffix, compact_prefix, restore_snapshot_boundary,
}
use distributed_kv.Raft.Log.Keys.{
  entry_at, IsMeta, log_key-ne-meta, apply_batch-append, delete_keys-other, apply_batch-delete_keys,
}
use distributed_kv.Raft.Log.Cache.{cached_at, lookup-dropped}
use distributed_kv.Raft.Log.Valid.{Saved, Retains, IsValid}
use distributed_kv.Raft.Log.Retains.{Retains-delete_suffix, Retains-delete_prefix, Retains-set_meta}
use distributed_kv.Raft.Log.Preserve.{
  committed-elim, Saved-same, Saved-boundary, boundary_free, IsValid-failed,
}

module _ ⦃E : Engine⦄ ⦃C : Codec Entry⦄ where
  open E use {Db, contents, commit, commit-ok, commit-err}

  deleted-meta :
      (a b : ℕ) (k : Bytes) (c : Contents)
      → IsMeta k
      → apply_batch (delete_keys (upto a b)) c k ≡ c k
  deleted-meta a b k c m = delete_keys-other a (suc b - a) k c (λ i. log_key-ne-meta i k m)

  Saved-deleted :
      (a b : ℕ) (c : Contents) {t i it : ℕ} {v : Bytes}
      → Saved c t v i it
      → Saved (apply_batch (delete_keys (upto a b)) c) t v i it
  Saved-deleted a b c s = Saved-same c _ (λ k m. deleted-meta a b k c m) s

  -- An entry outside the run is still there.
  deleted-entry :
      (a b j : ℕ) (x : Entry) (c : Contents)
      → b < u64_mod
      → a ≤ b + 1
      → j < u64_mod
      → (j < a) ⊎ (b < j)
      → entry_at c j ≡ some x
      → entry_at (apply_batch (delete_keys (upto a b)) c) j ≡ some x
  deleted-entry a b j x c hb ha hj out h =
      ground (arith, apply_batch-delete_keys a (suc b - a) j c (omega arith) hj)

  Retains-boundary :
      (c : Contents) (i t : ℕ) {index last_index : ℕ}
      → Retains c index last_index
      → Retains (apply_batch (boundary_sets i t) c) index last_index
  unfolding apply_batch
  Retains-boundary c i t r =
      Retains-set_meta
        (Retains-set_meta r key_last_included_index (put_uint64 i) (inr (inr (inl refl))))
        key_last_included_term (put_uint64 t) (inr (inr (inr refl)))

  entry-boundary :
      (c : Contents) (i t j : ℕ) → entry_at (apply_batch (boundary_sets i t) c) j ≡ entry_at c j
  entry-boundary c i t j = boundary_free j _ _ c _ _ (inr (inr (inl refl))) (inr (inr (inr refl)))

  -- A log with no entry may have its boundary anywhere.
  Retains-empty : {c : Contents} {i j : ℕ} → Retains c i i → Retains c j j
  Retains-empty r = record {
    inside = λ k p q. absurd (omega arith);
    keys = λ k w f g. let (n, x, y, p, q) = r.keys k w f g in absurd (omega arith);
  }

  module _ (pl : PersistentLog) (v : IsValid pl) where
    -- TruncateSuffix from an index behind the snapshot boundary keeps a well-formed log well
    -- formed, also where the commit fails.
    pub truncate_suffix-IsValid :
        (from : ℕ) → pl.last_included_index < from → IsValid (truncate_suffix pl from).1
    unfolding truncate_suffix
    truncate_suffix-IsValid from lo = elim (dec_lt pl.last_index from) [
      | yes p ↦ rw (lt→ltb _ _ p) v
      | no p ↦ rw (le→ltb pl.last_index from (omega arith)) (
          committed-elim IsValid (commit pl.engine _ _).0 _ _
            (λ h. record {
              first = v.first;
              ordered = ground (arith, v.first);
              bounded = ground (arith, v.first, v.bounded);
              retains = rw (commit-ok _ _ _ h) (
                  rw (newlast (omega arith)) (
                    Retains-delete_suffix v.retains from lo (omega arith)
                      (omega (arith, v.bounded))));
              saved =
                  rw (commit-ok _ _ _ h)
                    (Saved-deleted from pl.last_index (contents pl.engine) v.saved);
              coherent = λ j x g.
                  let (c, s) = lookup-dropped from pl.last_index pl.tail_cache j x g in
                  let (y, q, r) = v.coherent j x c in
                  (
                    rw (commit-ok _ _ _ h) (
                        deleted-entry from pl.last_index j x (contents pl.engine)
                          (omega (arith, v.bounded)) (omega arith) (omega (arith, v.bounded)) s y),
                    q,
                    rw (newlast (omega arith)) (omega arith),
                  );
            })
            (λ x h.
              IsValid-failed pl _ _ (commit-err _ _ _ _ h)
                (λ j x g. (lookup-dropped from pl.last_index pl.tail_cache j x g).0) v))
    ]
      where
        newlast :
            from ≤ pl.last_index
            → (if from == pl.first_index then pl.last_included_index else sub64 from 1) ≡ from - 1
        newlast le = ground (arith, v.first, v.bounded)

    -- A prefix deleted and a boundary written, as both CompactPrefix and RestoreSnapshotBoundary do.
    abbrev pub rebased : ℕ → ℕ → ℕ → Contents
    rebased b index term =
        apply_batch (delete_keys (upto pl.first_index b) ++ boundary_sets index term)
          (contents pl.engine)

    rebased-split :
        (b index term : ℕ)
        → rebased b index term
          ≡ apply_batch
              (boundary_sets index term)
              (apply_batch (delete_keys (upto (pl.last_included_index + 1) b)) (contents pl.engine))
    rebased-split b index term =
        ap
          (λ a.
            apply_batch (delete_keys (upto a b) ++ boundary_sets index term) (contents pl.engine))
          v.first
        ∙ apply_batch-append (delete_keys (upto (pl.last_included_index + 1) b))
            (boundary_sets index term) (contents pl.engine)

    rebased-Saved :
        (b index term : ℕ)
        → index < u64_mod
        → term < u64_mod
        → Saved (rebased b index term) pl.current_term pl.voted_for index term
    rebased-Saved b index term hi ht = rw (rebased-split b index term) (
        Saved-boundary _ index term hi ht
          (Saved-deleted (pl.last_included_index + 1) b (contents pl.engine) v.saved))

    rebased-Retains :
        (b index term : ℕ)
        → pl.last_included_index ≤ index
        → index < u64_mod
        → b ≡ (if ltb pl.last_index index then pl.last_index else index)
        → Retains
            (rebased b index term)
            index
            (if ltb pl.last_index index then index else pl.last_index)
    rebased-Retains b index term lo hi e = rw (rebased-split b index term) (
        Retains-boundary _ index term
          (Retains-delete_prefix v.retains index b lo (omega (arith, v.bounded)) hi e))

    pub rebased-entry :
        (b index term j : ℕ) (x : Entry)
        → b ≤ pl.last_index
        → pl.last_included_index ≤ b
        → j ≤ pl.last_index
        → b < j
        → entry_at (contents pl.engine) j ≡ some x
        → entry_at (rebased b index term) j ≡ some x
    rebased-entry b index term j x hb lo hj out h =
        rw (rebased-split b index term, entry-boundary _ index term j)
          (deleted-entry (pl.last_included_index + 1) b j x (contents pl.engine)
            (omega (arith, v.bounded)) (omega arith) (omega (arith, v.bounded)) (inr out) h)

    -- CompactPrefix keeps a well-formed log well formed, for an index with a successor and a term
    -- below 2^64, also where the commit fails.
    pub compact_prefix-IsValid :
        (index term : ℕ)
        → index + 1 < u64_mod
        → term < u64_mod
        → IsValid (compact_prefix pl index term).1
    unfolding compact_prefix
    compact_prefix-IsValid index term hi ht = elim (dec_le index pl.last_included_index) [
      | yes p ↦ rw (le→leb _ _ p) v
      | no p ↦ rw (lt→leb index pl.last_included_index (omega arith)) (
          committed-elim IsValid (commit pl.engine _ _).0 _ _
            (λ h. record {
              first = omega arith;
              ordered = ground arith;
              bounded = ground (arith, v.bounded);
              retains =
                  rw (commit-ok _ _ _ h)
                    (rebased-Retains end index term (omega arith) (omega arith) refl);
              saved = rw (commit-ok _ _ _ h) (rebased-Saved end index term (omega arith) ht);
              coherent = λ j x g.
                  let (c, s) = lookup-dropped pl.first_index end pl.tail_cache j x g in
                  let (y, q, r) = v.coherent j x c in
                  (
                    rw (commit-ok _ _ _ h) (
                        rebased-entry end index term j x (ground (arith, v.ordered))
                          (ground (arith, v.ordered)) r (above j s q) y),
                    let t = above j s q in ground arith,
                    ground arith,
                  );
            })
            (λ x h.
              IsValid-failed pl _ _ (commit-err _ _ _ _ h)
                (λ j x g. (lookup-dropped pl.first_index end pl.tail_cache j x g).0) v))
    ]
      where
        end : ℕ
        end = if ltb pl.last_index index then pl.last_index else index

        above : (j : ℕ) → (j < pl.first_index) ⊎ (end < j) → pl.last_included_index < j → end < j
        above j s q = ground (arith, v.first)

    -- RestoreSnapshotBoundary keeps a well-formed log well formed, for an index with a successor
    -- and a term below 2^64, also where the commit fails.
    pub restore_snapshot_boundary-IsValid :
        (index term : ℕ)
        → index + 1 < u64_mod
        → term < u64_mod
        → IsValid (restore_snapshot_boundary pl index term).1
    unfolding restore_snapshot_boundary
    restore_snapshot_boundary-IsValid index term hi ht =
        committed-elim IsValid (commit pl.engine _ _).0 _ _
          (λ h. record {
            first = omega arith;
            ordered = omega arith;
            bounded = hi;
            retains = rw (commit-ok _ _ _ h) emptied;
            saved =
                rw (commit-ok _ _ _ h) (rebased-Saved pl.last_index index term (omega arith) ht);
            coherent = λ j x g. absurd (none-found j x g);
          })
          (λ x h.
            IsValid-failed pl _ _ (commit-err _ _ _ _ h) (λ j x g. absurd (none-found j x g)) v)
      where
        none-found : (j : ℕ) (x : Entry) → cached_at [] j ≡ some x → ⊥
        none-found j x g = unfold Map.lookup in cc

        emptied : Retains (rebased pl.last_index index term) index index
        emptied = rw (rebased-split pl.last_index index term) (
            Retains-boundary _ index term (
              Retains-empty (
                rw (le→ltb pl.last_index pl.last_index (omega arith)) at (
                  Retains-delete_prefix v.retains pl.last_index pl.last_index v.ordered
                    (omega (arith, v.bounded)) (omega (arith, v.bounded)) (ground arith)))))
