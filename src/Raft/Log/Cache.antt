-- ===== src/Raft/Log/Cache.antt =====
-- The tail cache of internal/raft/log.go under deletion, insertion and eviction.
use distributed_kv.Common.{
  ℕ, zero, suc, ◌-◌, ◌≡◌, ◌<◌, ◌⊎◌, inl, inr, dec_lt, upto, Option, none, some, List, [], ◌∷◌,
  arith, ℕ_discrete, if◌then◌else◌, count_from, get_elem?, length, leb, sub64,
}
use distributed_kv.Common.Map
use distributed_kv.Common.Map.{Map, lookup-insert, lookup-delete, lookup-retain}
use distributed_kv.Storage.{Engine, Codec}
use distributed_kv.Raft.Entry.{Entry}
use distributed_kv.Raft.Log.{PersistentLog}
use distributed_kv.Raft.Log.Writes.{drop_cached, cache_all, evict_tail_cache}
use distributed_kv.Raft.Log.Keys.{within, IsContiguous, get_elem?-suc}

abbrev pub cached_at : Map ℕ Entry → ℕ → Option Entry
cached_at m j = Map.lookup ℕ_discrete j m

-- Dropping a run of indices forgets those, and no other.
pub lookup-drop_cached :
    (a n j : ℕ) (m : Map ℕ Entry)
    → cached_at (drop_cached (count_from a n) m) j ≡ (if within a n j then none else cached_at m j)
unfolding drop_cached
lookup-drop_cached a zero j m = ground arith
lookup-drop_cached a (suc n) j m = ground (
  arith,
  lookup-drop_cached (suc a) n j (Map.delete ℕ_discrete a m),
  lookup-delete ℕ_discrete a j m,
)

-- Consecutive entries are found at their indices.
pub lookup-cache_all :
    (a j : ℕ) (es : List Entry) (m : Map ℕ Entry)
    → IsContiguous a es
    → cached_at (cache_all es m) j
      ≡ (if within a (length es) j then get_elem? es (j - a) else cached_at m j)
unfolding cache_all
lookup-cache_all a j [] m h = ground arith
lookup-cache_all a j (x ∷ xs) m h = ground (
  arith,
  h.0,
  lookup-cache_all (suc a) j xs (Map.insert ℕ_discrete x.index x m) h.1,
  lookup-insert ℕ_discrete x.index j x m,
  get_elem?-suc xs x (j - a),
)

-- What is still found after dropping `a … b` was found before, outside that run.
pub lookup-dropped :
    (a b : ℕ) (m : Map ℕ Entry) (j : ℕ) (x : Entry)
    → cached_at (drop_cached (upto a b) m) j ≡ some x
    → (cached_at m j ≡ some x) × ((j < a) ⊎ (b < j))
lookup-dropped a b m j x h =
    let l = lookup-drop_cached a (suc b - a) j m in
    (ground arith, elim (dec_lt j a) [ yes p ↦ inl p | no p ↦ inr (ground arith) ])

module _ ⦃E : Engine⦄ ⦃C : Codec Entry⦄ where
  -- Eviction only forgets.
  pub lookup-evict :
      (pl : PersistentLog) (j : ℕ) (e : Entry)
      → cached_at (evict_tail_cache pl) j ≡ some e
      → cached_at pl.tail_cache j ≡ some e
  unfolding evict_tail_cache
  lookup-evict pl j e h = ground (
    arith,
    lookup-retain ℕ_discrete (λ (idx : ℕ). leb (sub64 pl.last_index pl.tail_cache_limit) idx) j
        pl.tail_cache,
  )
