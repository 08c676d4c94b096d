-- ===== src/Raft/Log/Recover.antt =====
-- A restart: OpenPersistentLog of internal/raft/log.go on what the writing methods left.
use distributed_kv.Common.{
  ℕ, ◌≤◌, ◌<◌, ◌≡◌, refl, ap, ◌∙◌, Option, none, some, List, [], ◌∷◌, Bytes, arith, u64_mod, In,
  here, there, Result, ok, not_found, or_error, ltb, if◌then◌else◌, dec_lt,
}
use distributed_kv.Storage.{Engine, Codec, prefix_upper_bound}
use distributed_kv.Raft.Entry.{Entry}
use distributed_kv.Raft.Log.{
  PersistentLog, log_prefix, log_key, key_term, key_voted_for, key_last_included_index,
  key_last_included_term, or_default, word, walk_last, open_persistent_log,
}
use distributed_kv.Raft.Log.Keys.{
  index_from_log_key-log_key, log_key_injective, log_key-in_range, decode_at,
}
use distributed_kv.Raft.Log.Valid.{IsValid, saved_word, saved_bytes}

-- The answer of an engine that reads without a failure.
abbrev pub answer : Option Bytes → Result Bytes
answer = or_error not_found

open_word : (o : Option Bytes) (n : ℕ) → saved_word o ≡ some n → or_default 0 word (answer o) ≡ ok n
open_word o n h = ground arith

open_bytes : (o : Option Bytes) → or_default [] ok (answer o) ≡ ok (saved_bytes o)
open_bytes none = refl
open_bytes (some b) = refl

-- Every item has the key of an index up to `top`.
abbrev AllBelow : ℕ → List (Bytes × Bytes) → Type 0
AllBelow top items =
    (k v : Bytes) → In (k, v) items → (i : ℕ) × (k ≡ log_key i) × (i < u64_mod) × (i ≤ top)

-- The walk ends at the largest index, and never stops half-way.
walk_last_lem :
    (items : List (Bytes × Bytes)) (start top : ℕ)
    → AllBelow top items
    → start ≤ top
    → (r : ℕ) × (walk_last items start ≡ ok r)
      × (start ≤ r)
      × (r ≤ top)
      × ((i : ℕ) (v : Bytes) → i < u64_mod → In (log_key i, v) items → i ≤ r)
unfolding walk_last
walk_last_lem [] start top all le = (start, refl, omega arith, le, λ i v lt m. elim m [ ])
walk_last_lem ((k, w) ∷ items) start top all le =
    let (i, p, lt, hi) = all k w (here refl) in
    let start' : ℕ = if ltb start i then i else start in
    let (r, e, lo, up, m) =
      walk_last_lem items start' top (λ j v q. all j v (there q)) (ground arith) in
    (
      r,
      rw (p, index_from_log_key-log_key i lt) e,
      ground arith,
      up,
      λ j v q mem. member j v i start' r p lt q (ground arith) lo m mem,
    )
  where
    member :
        (j : ℕ) (v : Bytes) (i start' r : ℕ)
        → k ≡ log_key i
        → i < u64_mod
        → j < u64_mod
        → i ≤ start'
        → start' ≤ r
        → ((j : ℕ) (v : Bytes) → j < u64_mod → In (log_key j, v) items → j ≤ r)
        → In (log_key j, v) ((k, w) ∷ items)
        → j ≤ r
    member j v i start' r p lt q h lo m (here e) =
        omega (arith, log_key_injective j i q lt (ap (λ (x : Bytes × Bytes). x.0) e ∙ p))
    member j v i start' r p lt q h lo m (there t) = m j v q t

-- The engine reads without failures.
pub record IsReadable ⦃E : Engine⦄ (db : Engine.Db E) : Type 0 where
  pub reads : (k : Bytes) → Engine.get E db k ≡ answer (Engine.contents E db k)
  pub scans :
      (lower : Bytes) (upper : Option Bytes)
      → (items : List (Bytes × Bytes)) × (Engine.scan E db lower upper ≡ ok items)

module _ ⦃E : Engine⦄ ⦃C : Codec Entry⦄ (pl : PersistentLog) (v : IsValid pl)
    (r : IsReadable pl.engine) where
  open E use {contents, scan-ok}

  recovered-last :
      (items : List (Bytes × Bytes))
      → Engine.scan E pl.engine log_prefix (prefix_upper_bound log_prefix) ≡ ok items
      → walk_last items pl.last_included_index ≡ ok pl.last_index
  recovered-last items h =
      let (n, e, lo, up, m) =
        walk_last_lem items pl.last_included_index pl.last_index below v.ordered in
      let same : n ≡ pl.last_index = elim (dec_lt pl.last_included_index pl.last_index) [
        | yes p ↦ omega (
          arith,
          m pl.last_index (last_bytes p).0 (omega (arith, v.bounded)) (
              (scan-ok pl.engine _ _ items h (log_key pl.last_index) (last_bytes p).0).1
                ((last_bytes p).1, log_key-in_range pl.last_index)),
        )
        | no p ↦ omega (arith, v.ordered)
      ] in
      e ∙ ap ok same
    where
      below : AllBelow pl.last_index items
      below k w mem =
          let (f, g) = (scan-ok pl.engine _ _ items h k w).0 mem in
          let (i, p, q, s, t) = v.retains.keys k w f g in (i, p, q, t)

      last_bytes :
          pl.last_included_index < pl.last_index
          → (b : Bytes) × (contents pl.engine (log_key pl.last_index) ≡ some b)
      last_bytes p =
          let (x, y, z) = v.retains.inside pl.last_index p (omega arith) in
          held (contents pl.engine (log_key pl.last_index)) y
        where
          held : {x : Entry} (o : Option Bytes) → decode_at o ≡ some x → (b : Bytes) × (o ≡ some b)
          held none h = cc
          held (some b) h = (b, refl)

  -- OpenPersistentLog on the engine of a well-formed log, where the engine's reads do not fail,
  -- returns that log, with the same indices, boundary, term and vote, an empty cache and a cache
  -- limit of 4096.
  pub open-recovers :
      open_persistent_log pl.engine ≡ ok (record pl { tail_cache = []; tail_cache_limit = 4096 })
  unfolding open_persistent_log
  open-recovers =
      let (items, h) = r.scans log_prefix (prefix_upper_bound log_prefix) in
      rw
        (
          r.reads key_term,
          open_word _ _ v.saved.term_saved,
          r.reads key_voted_for,
          open_bytes,
          r.reads key_last_included_index,
          open_word _ _ v.saved.index_saved,
          r.reads key_last_included_term,
          open_word _ _ v.saved.index_term_saved,
          h,
          recovered-last items h,
        )
        (ground (arith, v.saved.vote_saved, v.first, v.bounded))
