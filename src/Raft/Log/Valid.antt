-- ===== src/Raft/Log/Valid.antt =====
-- When a PersistentLog is well formed: its fields, its cache and the engine tell the same story.
use distributed_kv.Common.{
  ℕ, ◌+◌, ◌≤◌, ◌<◌, ◌≡◌, refl, arith, true, Option, none, some, [], Bytes, u64_mod, uint64,
}
use distributed_kv.Storage.{Engine, Codec, Contents, in_range, prefix_upper_bound}
use distributed_kv.Raft.Entry.{Entry}
use distributed_kv.Raft.Log.{
  PersistentLog, log_prefix, log_key, key_term, key_voted_for, key_last_included_index,
  key_last_included_term,
}
use distributed_kv.Raft.Log.Keys.{entry_at, decode_at, log_key_injective, log_key-in_range}
use distributed_kv.Raft.Log.Cache.{cached_at}

-- What a restart reads at a key: the default if nothing is there.
abbrev pub saved_word : Option Bytes → Option ℕ
saved_word none = some 0
saved_word (some b) = uint64 b

abbrev pub saved_bytes : Option Bytes → Bytes
saved_bytes none = []
saved_bytes (some b) = b

-- The metadata that a restart would read.
pub record Saved (c : Contents) (term : ℕ) (voted_for : Bytes) (index index_term : ℕ) : Type 0 where
  pub term_saved : saved_word (c key_term) ≡ some term
  pub vote_saved : saved_bytes (c key_voted_for) ≡ voted_for
  pub index_saved : saved_word (c key_last_included_index) ≡ some index
  pub index_term_saved : saved_word (c key_last_included_term) ≡ some index_term

-- The entries of a log with the boundary `index` and the last index `last`: one at every index in
-- between, nothing at the others, and no stray key in the range that a restart walks.
pub record Retains ⦃C : Codec Entry⦄ (c : Contents) (index last : ℕ) : Type 0 where
  pub inside :
      (i : ℕ) → index < i → i ≤ last → (e : Entry) × (entry_at c i ≡ some e) × (e.index ≡ i)
  pub keys :
      (k v : Bytes)
      → c k ≡ some v
      → in_range log_prefix (prefix_upper_bound log_prefix) k ≡ true
      → (i : ℕ) × (k ≡ log_key i) × (i < u64_mod) × (index < i) × (i ≤ last)

module _ ⦃E : Engine⦄ ⦃C : Codec Entry⦄ where
  -- The log as a function: the entry that the engine holds at an index.
  abbrev pub held : PersistentLog → ℕ → Option Entry
  held pl i = entry_at (Engine.contents E pl.engine) i

  pub record IsValid (pl : PersistentLog) : Type 0 where
    pub first : pl.first_index ≡ pl.last_included_index + 1
    pub ordered : pl.last_included_index ≤ pl.last_index
    pub bounded : pl.last_index + 1 < u64_mod
    pub retains : Retains (Engine.contents E pl.engine) pl.last_included_index pl.last_index
    pub saved :
        Saved
          (Engine.contents E pl.engine)
          pl.current_term
          pl.voted_for
          pl.last_included_index
          pl.last_included_term
    pub coherent :
        (i : ℕ) (e : Entry)
        → cached_at pl.tail_cache i ≡ some e
        → (entry_at (Engine.contents E pl.engine) i ≡ some e)
          × (pl.last_included_index < i)
          × (i ≤ pl.last_index)

  -- Nothing stands behind the last index.
  pub held-beyond :
      (pl : PersistentLog) (j : ℕ) → IsValid pl → pl.last_index < j → j < u64_mod → held pl j ≡ none
  held-beyond pl j v lt hj = empty (Engine.contents E pl.engine (log_key j)) refl
    where
      empty : (o : Option Bytes) → Engine.contents E pl.engine (log_key j) ≡ o → decode_at o ≡ none
      empty none e = refl
      empty (some b) e =
          let (i, p, q, s, t) = v.retains.keys (log_key j) b e (log_key-in_range j) in
          absurd (omega (arith, log_key_injective j i hj q p))
