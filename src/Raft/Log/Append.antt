-- ===== src/Raft/Log/Append.antt =====
-- PersistentLog.AppendEntries of internal/raft/log.go.
use distributed_kv.Common.{
  ℕ, suc, ◌+◌, ◌-◌, ◌≤◌, ◌<◌, ◌≡◌, refl, ◌∙◌, ap, ◌⊎◌, inl, inr, Bool, true, Option, none, some,
  List, ◌∷◌, ◌++◌, Bytes, arith, u64_mod, count_from, upto, length, get_elem?, get_elem?-beyond,
  if◌then◌else◌, Result, Error, ok, err, ltb, dec_le, Bool-cases,
}
use distributed_kv.Storage.{Engine, Codec, Contents, BatchOp, apply_batch}
use distributed_kv.Raft.Entry.{Entry}
use distributed_kv.Raft.Log.{PersistentLog}
use distributed_kv.Raft.Log.Writes.{
  committed, delete_keys, drop_cached, cache_all, encode_sets, append_encoded, overwritten,
  appended, append_entries,
}
use distributed_kv.Raft.Log.Keys.{
  entry_at, within, IsMeta, IsContiguous, log_key-ne-meta, apply_batch-append, delete_keys-other,
  apply_batch-delete_keys, apply_batch-encode_sets, encode_sets-other,
}
use distributed_kv.Raft.Log.Cache.{cached_at, lookup-cache_all, lookup-evict, lookup-dropped}
use distributed_kv.Raft.Log.Valid.{Retains, IsValid, held, held-beyond}
use distributed_kv.Raft.Log.Retains.{Retains-delete_suffix, Retains-encode_sets}
use distributed_kv.Raft.Log.Preserve.{committed-elim, Saved-same, last-index, IsValid-failed}

module _ ⦃E : Engine⦄ ⦃C : Codec Entry⦄ where
  open E use {Db, contents, commit, commit-ok, commit-err}

  -- Inside the log, `overwritten` is the run from the first new index to the end.
  overwritten-upto :
      (pl : PersistentLog) (e : Entry) → overwritten pl e ≡ upto e.index pl.last_index
  overwritten-upto pl e = elim (dec_le e.index pl.last_index) [
    | yes p ↦ ground arith
    | no p ↦
        ground
          (arith, ap (count_from e.index) {x = suc pl.last_index - e.index} {y = 0} (omega arith))
  ]

  -- AppendEntries with consecutive entries that start inside the log or right behind it.
  module _ (pl : PersistentLog) (e : Entry) (es : List Entry) (v : IsValid pl)
      (cont : IsContiguous e.index (e ∷ es)) (lo : pl.last_included_index < e.index)
      (hi : e.index ≤ pl.last_index + 1) (fits : e.index + length es + 1 < u64_mod) where
    abbrev base : Contents
    base = apply_batch (delete_keys (upto e.index pl.last_index)) (contents pl.engine)

    base-Retains : Retains base pl.last_included_index (e.index - 1)
    base-Retains = Retains-delete_suffix v.retains e.index lo hi (omega (arith, v.bounded))

    appended-contents :
        (sync : Bool) (sets : List BatchOp) (db : Db)
        → contents db ≡ apply_batch (delete_keys (overwritten pl e) ++ sets) (contents pl.engine)
        → contents db ≡ apply_batch sets base
    appended-contents sync sets db h = rw (
      h,
      overwritten-upto pl e,
      apply_batch-append (delete_keys (upto e.index pl.last_index)) sets (contents pl.engine),
    )

    -- What is cached after the append is what was appended, or was cached below it.
    appended-cache :
        (j : ℕ) (x : Entry)
        → cached_at (cache_all (e ∷ es) (drop_cached (overwritten pl e) pl.tail_cache)) j ≡ some x
        → ((within e.index (suc (length es)) j ≡ true)
            × (get_elem? (e ∷ es) (j - e.index) ≡ some x))
          ⊎ ((j < e.index) × (cached_at pl.tail_cache j ≡ some x))
    appended-cache j x h = elim (Bool-cases (within e.index (suc (length es)) j)) [
      | inl t ↦ inl (
        t,
        ground (
          arith,
          lookup-cache_all e.index j (e ∷ es) (drop_cached (overwritten pl e) pl.tail_cache) cont,
        ),
      )
      | inr f ↦
          let l =
            lookup-cache_all e.index j (e ∷ es) (drop_cached (overwritten pl e) pl.tail_cache)
              cont in
          let (c, s) =
            lookup-dropped e.index pl.last_index pl.tail_cache j x
              (rw (← overwritten-upto pl e) (ground arith)) in
          let (_, p, q) = v.coherent j x c in inr (omega arith, c)
    ]

    appended-IsValid :
        (sets : List BatchOp) (db : Db)
        → encode_sets (e ∷ es) ≡ ok sets
        → contents db ≡ apply_batch sets base
        → IsValid (appended pl db e es)
    appended-IsValid sets db enc same = record {
      first = ground (arith, v.first, v.bounded, v.ordered);
      ordered = omega (arith, last-index e.index e es cont);
      bounded = omega (arith, last-index e.index e es cont);
      retains = rw (same, last-index e.index e es cont) appended-Retains;
      saved = Saved-same (contents pl.engine) (contents db) (λ k m. appended-meta k m) v.saved;
      coherent = λ j x h. elim (appended-cache j x (lookup-evict _ j x h)) [
        | inl (t, g) ↦ (
          rw same (ground (arith, entries j)),
          ground arith,
          ground (arith, last-index e.index e es cont),
        )
        | inr (t, g) ↦
            let (y, p, q) = v.coherent j x g in
            (
              rw same (
                  ground (
                    arith,
                    entries j,
                    apply_batch-delete_keys e.index (suc pl.last_index - e.index) j
                        (contents pl.engine) (omega (arith, v.bounded)),
                  )),
              p,
              omega (arith, last-index e.index e es cont),
            )
      ];
    }
      where
        entries :
            (j : ℕ)
            → j < u64_mod
            → entry_at (apply_batch sets base) j ≡ (
                if within e.index (suc (length es)) j
                then get_elem? (e ∷ es) (j - e.index)
                else entry_at base j)
        entries j hj =
            apply_batch-encode_sets e.index j (e ∷ es) sets base cont (omega arith) hj enc

        appended-Retains :
            Retains (apply_batch sets base) pl.last_included_index (e.index + length es)
        appended-Retains =
            rw (let q : e.index + length es ≡ (e.index - 1) + suc (length es) = omega arith in q) (
              Retains-encode_sets base-Retains (e ∷ es) sets (omega arith)
                (rw (let q : suc (e.index - 1) ≡ e.index = omega arith in q) cont) (omega arith)
                enc)

        appended-meta : (k : Bytes) → IsMeta k → contents db k ≡ contents pl.engine k
        appended-meta k m =
            ap (λ (c : Contents). c k) same
            ∙ encode_sets-other e.index (e ∷ es) sets k base (λ i. log_key-ne-meta i k m) enc
            ∙ delete_keys-other e.index (suc pl.last_index - e.index) k (contents pl.engine)
                (λ i. log_key-ne-meta i k m)

    -- AppendEntries of a non-empty list of consecutive entries, starting behind the snapshot
    -- boundary and at most one past the end, with indices below 2^64, keeps the log well formed,
    -- also where the encoding or the commit fails.
    pub append_entries-IsValid : (sync : Bool) → IsValid (append_entries pl (e ∷ es) sync).1
    unfolding append_entries
    append_entries-IsValid sync = encoded (encode_sets (e ∷ es)) refl
      where
        dropped :
            (j : ℕ) (x : Entry)
            → cached_at (drop_cached (overwritten pl e) pl.tail_cache) j ≡ some x
            → cached_at pl.tail_cache j ≡ some x
        dropped j x h =
            (lookup-dropped e.index pl.last_index pl.tail_cache j x
              (rw (← overwritten-upto pl e) h)).0

        encoded :
            (r : Result (List BatchOp))
            → encode_sets (e ∷ es) ≡ r
            → IsValid (append_encoded pl e es sync r).1
        encoded (err x) q = IsValid-failed pl pl.engine _ refl dropped v
        encoded (ok sets) q =
            committed-elim IsValid (commit pl.engine _ _).0 _ _
              (λ h. appended-IsValid sets _ q (appended-contents sync sets _ (commit-ok _ _ _ h)))
              (λ x h. IsValid-failed pl _ _ (commit-err _ _ _ _ h) dropped v)

    -- AppendEntries of a non-empty list of consecutive entries to a well-formed log, starting
    -- behind the snapshot boundary and at most one past the end, with indices below 2^64, if it
    -- returns no error, leaves the old entries below the first new index, the new entries at
    -- theirs and nothing behind them, and the last index is that of the last new entry.
    pub append_entries-held :
        (sync : Bool) (j : ℕ)
        → (append_entries pl (e ∷ es) sync).0 ≡ none
        → j < u64_mod
        → (held (append_entries pl (e ∷ es) sync).1 j
            ≡ (if ltb j e.index then held pl j else get_elem? (e ∷ es) (j - e.index)))
          × ((append_entries pl (e ∷ es) sync).1.last_index ≡ e.index + length es)
    unfolding append_entries
    append_entries-held sync j h hj = encoded (encode_sets (e ∷ es)) refl h
      where
        old :
            entry_at base j
            ≡ (if within e.index (suc pl.last_index - e.index) j then none else held pl j)
        old = ground (
          arith,
          apply_batch-delete_keys e.index (suc pl.last_index - e.index) j (contents pl.engine)
              (omega (arith, v.bounded)) hj,
        )

        at :
            (sets : List BatchOp) (db : Db)
            → encode_sets (e ∷ es) ≡ ok sets
            → contents db ≡ apply_batch sets base
            → entry_at (contents db) j
              ≡ (if ltb j e.index then held pl j else get_elem? (e ∷ es) (j - e.index))
        at sets db q same = rw same (
            ground (
              arith,
              old,
              apply_batch-encode_sets e.index j (e ∷ es) sets base cont (omega arith) hj q,
              held-beyond pl j v,
              get_elem?-beyond (e ∷ es) (j - e.index),
            ))

        done :
            (x : Option Error) (a b : PersistentLog)
            → (committed x a b).0 ≡ none
            → ((committed x a b).1 ≡ a) × (x ≡ none)
        done none a b p = (refl, refl)
        done (some x) a b p = cc

        encoded :
            (r : Result (List BatchOp))
            → encode_sets (e ∷ es) ≡ r
            → (append_encoded pl e es sync r).0 ≡ none
            → (held (append_encoded pl e es sync r).1 j
                ≡ (if ltb j e.index then held pl j else get_elem? (e ∷ es) (j - e.index)))
              × ((append_encoded pl e es sync r).1.last_index ≡ e.index + length es)
        encoded (err x) q p = cc
        encoded (ok sets) q p =
            let (a, b) = done (commit pl.engine _ _).0 _ _ p in
            (
              rw a (at sets _ q (appended-contents sync sets _ (commit-ok _ _ _ b))),
              rw a (last-index e.index e es cont),
            )
