-- ===== src/Raft/Log/Runs.antt =====
-- A log over its life: the writing methods of internal/raft/log.go and restarts, in any order.
use distributed_kv.Common.{
  ℕ, ◌+◌, ◌≤◌, ◌<◌, ◌≡◌, refl, sym, subst, Bool, Option, none, some, List, [], ◌∷◌, Bytes, arith,
  u64_mod, length, ok, ◌∙◌,
}
use distributed_kv.Common.Map
use distributed_kv.Storage.{Engine, Codec}
use distributed_kv.Raft.Entry.{Entry}
use distributed_kv.Raft.Log.{PersistentLog, open_persistent_log}
use distributed_kv.Raft.Log.Writes.{
  append_entries, truncate_suffix, compact_prefix, restore_snapshot_boundary, set_term_and_vote,
}
use distributed_kv.Raft.Log.Keys.{IsContiguous}
use distributed_kv.Raft.Log.Valid.{IsValid}
use distributed_kv.Raft.Log.Cache.{cached_at}
use distributed_kv.Raft.Log.Append.{append_entries-IsValid}
use distributed_kv.Raft.Log.Preserve.{set_term_and_vote-IsValid}
use distributed_kv.Raft.Log.Compact.{
  truncate_suffix-IsValid, compact_prefix-IsValid, restore_snapshot_boundary-IsValid,
}
use distributed_kv.Raft.Log.Recover.{IsReadable, open-recovers}

none-some : {A : Type 0} {x : A} → ◌≡◌ {A = Option A} none (some x) → ⊥
none-some e = cc

uncached : (i : ℕ) (e : Entry) → cached_at [] i ≡ some e → ⊥
unfolding Map.lookup
uncached i e h = none-some h

module _ ⦃E : Engine⦄ ⦃C : Codec Entry⦄ where
  -- One call of a writing method, whether it returns an error or not, or a restart. Entries are
  -- appended inside the log or right behind it, and indices and terms stay below 2^64.
  pub data Write : PersistentLog → PersistentLog → Type 0 where
    appends :
        (pl : PersistentLog) (e : Entry) (es : List Entry) (sync : Bool)
        → IsContiguous e.index (e ∷ es)
        → pl.last_included_index < e.index
        → e.index ≤ pl.last_index + 1
        → e.index + length es + 1 < u64_mod
        → Write pl (append_entries pl (e ∷ es) sync).1
    truncates :
        (pl : PersistentLog) (from : ℕ)
        → pl.last_included_index < from
        → Write pl (truncate_suffix pl from).1
    compacts :
        (pl : PersistentLog) (index term : ℕ)
        → index + 1 < u64_mod
        → term < u64_mod
        → Write pl (compact_prefix pl index term).1
    rebases :
        (pl : PersistentLog) (index term : ℕ)
        → index + 1 < u64_mod
        → term < u64_mod
        → Write pl (restore_snapshot_boundary pl index term).1
    votes :
        (pl : PersistentLog) (term : ℕ) (voted_for : Bytes)
        → term < u64_mod
        → Write pl (set_term_and_vote pl term voted_for).1
    restarts :
        (pl : PersistentLog) {pl' : PersistentLog}
        → open_persistent_log pl.engine ≡ ok pl'
        → Write pl pl'

  pub data Writes : PersistentLog → PersistentLog → Type 0 where
    written : (pl : PersistentLog) → Writes pl pl
    then_ : {a b c : PersistentLog} → Writes a b → Write b c → Writes a c

  -- The log without its cache, as a restart finds it.
  abbrev pub reopened : PersistentLog → PersistentLog
  reopened pl = record pl { tail_cache = []; tail_cache_limit = 4096 }

  pub reopened-IsValid : (pl : PersistentLog) → IsValid pl → IsValid (reopened pl)
  reopened-IsValid pl v = record {
    first = v.first;
    ordered = v.ordered;
    bounded = v.bounded;
    retains = v.retains;
    saved = v.saved;
    coherent = λ i e h. absurd (uncached i e h);
  }

  -- What OpenPersistentLog finds in an empty engine.
  abbrev pub blank : Engine.Db E → PersistentLog
  blank db = record {
    engine = db;
    first_index = 1;
    last_index = 0;
    last_included_index = 0;
    last_included_term = 0;
    current_term = 0;
    voted_for = [];
    tail_cache = [];
    tail_cache_limit = 4096;
  }

  pub blank-IsValid :
      (db : Engine.Db E) → ((k : Bytes) → Engine.contents E db k ≡ none) → IsValid (blank db)
  blank-IsValid db empty = record {
    first = refl;
    ordered = omega arith;
    bounded = omega arith;
    retains = record {
      inside = λ i p q. absurd (omega arith);
      keys = λ k v f r. absurd (none-some (sym (empty k) ∙ f));
    };
    saved = record {
      term_saved = rw (empty _) refl;
      vote_saved = rw (empty _) refl;
      index_saved = rw (empty _) refl;
      index_term_saved = rw (empty _) refl;
    };
    coherent = λ i e h. absurd (uncached i e h);
  }

  module _ (r : (d : Engine.Db E) → IsReadable d) where
    pub Write-IsValid : {a b : PersistentLog} → Write a b → IsValid a → IsValid b
    Write-IsValid (appends pl e es sync cont lo hi fits) v =
        append_entries-IsValid pl e es v cont lo hi fits sync
    Write-IsValid (truncates pl from lo) v = truncate_suffix-IsValid pl v from lo
    Write-IsValid (compacts pl index term hi ht) v = compact_prefix-IsValid pl v index term hi ht
    Write-IsValid (rebases pl index term hi ht) v =
        restore_snapshot_boundary-IsValid pl v index term hi ht
    Write-IsValid (votes pl term voted_for ht) v = set_term_and_vote-IsValid pl term voted_for ht v
    Write-IsValid (restarts pl {pl'} h) v =
        subst IsValid (same (sym (open-recovers pl v (r pl.engine)) ∙ h)) (reopened-IsValid pl v)
      where
        same : {x y : PersistentLog} → ok x ≡ ok y → x ≡ y
        same e = cc

    Writes-IsValid : {a b : PersistentLog} → Writes a b → IsValid a → IsValid b
    Writes-IsValid (written pl) v = v
    Writes-IsValid (then_ ws w) v = Write-IsValid w (Writes-IsValid ws v)

    -- If the engine's reads do not fail, then a log that is opened on an empty engine and goes
    -- through any sequence of restarts and of calls of AppendEntries, TruncateSuffix,
    -- CompactPrefix, RestoreSnapshotBoundary and SetTermAndVote, failed ones included, where
    -- appended entries are consecutive and start inside the log or right behind it, the suffix is
    -- cut behind the boundary, and indices and terms stay below 2^64, is well formed, and opening
    -- its engine again returns it with an empty cache.
    pub Writes-recover :
        (db : Engine.Db E) {pl : PersistentLog}
        → ((k : Bytes) → Engine.contents E db k ≡ none)
        → Writes (blank db) pl
        → IsValid pl
          × (open_persistent_log db ≡ ok (blank db))
          × (open_persistent_log pl.engine ≡ ok (reopened pl))
    Writes-recover db {pl = pl} empty ws =
        let v = Writes-IsValid ws (blank-IsValid db empty) in
        (
          v,
          open-recovers (blank db) (blank-IsValid db empty) (r db),
          open-recovers pl v (r pl.engine),
        )
