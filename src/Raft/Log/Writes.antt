-- ===== src/Raft/Log/Writes.antt =====
-- internal/raft/log.go: the methods that write. Each returns its error, `none` for nil, beside the log
-- that it leaves.
use distributed_kv.Common.{
  ℕ, Bool, true, Option, none, some, List, [], ◌∷◌, ◌++◌, map, ltb, leb, ◌==◌, ℕ_discrete, length,
  last, upto, Bytes, add64, sub64, put_uint64, Error, Result, ok, err, ◌>>=◌, if◌then◌else◌,
}
use distributed_kv.Common.Map
use distributed_kv.Common.Map.{Map}
use distributed_kv.Storage.{Engine, Codec, BatchOp, set, delete}
use distributed_kv.Raft.Entry.{Entry}
use distributed_kv.Raft.Log.{
  PersistentLog, log_key, key_term, key_voted_for, key_last_included_index, key_last_included_term,
}

-- The outcome of a commit: what to keep if it succeeds, and what if it fails.
abbrev pub committed {ℓ} : {A : Type ℓ} → Option Error → A → A → Option Error × A
committed none done failed = (none, done)
committed (some e) done failed = (some e, failed)

-- for i := a; i <= b; i++ { delete(pl.tailCache, i) }
unfoldable pub drop_cached : List ℕ → Map ℕ Entry → Map ℕ Entry
drop_cached [] m = m
drop_cached (i ∷ is) m = drop_cached is (Map.delete ℕ_discrete i m)

abbrev pub delete_keys : List ℕ → List BatchOp
delete_keys is = map (λ i. delete (log_key i)) is

unfoldable pub cache_all : List Entry → Map ℕ Entry → Map ℕ Entry
cache_all [] m = m
cache_all (e ∷ es) m = cache_all es (Map.insert ℕ_discrete e.index e m)

abbrev pub boundary_sets : ℕ → ℕ → List BatchOp
boundary_sets index term =
    set key_last_included_index (put_uint64 index)
    ∷ set key_last_included_term (put_uint64 term)
    ∷ []

module _ ⦃C : Codec Entry⦄ where
  unfoldable pub encode_sets : List Entry → Result (List BatchOp)
  encode_sets [] = ok []
  encode_sets (e ∷ es) =
      Codec.encode C e >>= λ b. encode_sets es >>= λ ops. ok (set (log_key e.index) b ∷ ops)

module _ ⦃E : Engine⦄ ⦃C : Codec Entry⦄ where
  open E use {Db, commit}

  unfoldable pub set_term_and_vote : PersistentLog → ℕ → Bytes → Option Error × PersistentLog
  set_term_and_vote pl term voted_for =
      let (e, db) =
        commit pl.engine (set key_term (put_uint64 term) ∷ set key_voted_for voted_for ∷ [])
          (record { sync = true }) in
      committed e (record pl { engine = db; current_term = term; voted_for = voted_for })
        (record pl { engine = db })

  unfoldable pub evict_tail_cache : PersistentLog → Map ℕ Entry
  evict_tail_cache pl =
      if leb (length pl.tail_cache) pl.tail_cache_limit
      then pl.tail_cache
      else let threshold = sub64 pl.last_index pl.tail_cache_limit in
        Map.retain (λ idx. leb threshold idx) pl.tail_cache

  -- The indices that AppendEntries deletes first.
  abbrev pub overwritten : PersistentLog → Entry → List ℕ
  overwritten pl e = if leb e.index pl.last_index then upto e.index pl.last_index else []

  -- The log after the commit of AppendEntries.
  abbrev pub appended : PersistentLog → Db → Entry → List Entry → PersistentLog
  appended pl db e es =
      let cached = record pl {
        tail_cache = cache_all (e ∷ es) (drop_cached (overwritten pl e) pl.tail_cache);
      } in
      let first =
        if ltb (add64 pl.last_included_index 1) pl.first_index
        then add64 pl.last_included_index 1
        else pl.first_index in
      record pl {
        engine = db;
        tail_cache = evict_tail_cache cached;
        last_index = (last e es).index;
        first_index = if first == 0 then e.index else first;
      }

  abbrev pub append_encoded :
      PersistentLog
      → Entry
      → List Entry
      → Bool
      → Result (List BatchOp)
      → Option Error × PersistentLog
  append_encoded pl e es sync (err x) =
      (some x, record pl { tail_cache = drop_cached (overwritten pl e) pl.tail_cache })
  append_encoded pl e es sync (ok sets) =
      let (x, db) =
        commit pl.engine (delete_keys (overwritten pl e) ++ sets) (record { sync = sync }) in
      committed x (appended pl db e es)
        (record pl { engine = db; tail_cache = drop_cached (overwritten pl e) pl.tail_cache })

  unfoldable pub append_entries : PersistentLog → List Entry → Bool → Option Error × PersistentLog
  append_entries pl [] sync = (none, pl)
  append_entries pl (e ∷ es) sync = append_encoded pl e es sync (encode_sets (e ∷ es))

  unfoldable pub truncate_suffix : PersistentLog → ℕ → Option Error × PersistentLog
  truncate_suffix pl from =
      if ltb pl.last_index from
      then (none, pl)
      else let gone = upto from pl.last_index in
        let cache = drop_cached gone pl.tail_cache in
        let (e, db) = commit pl.engine (delete_keys gone) (record { sync = true }) in
        committed e
          (record pl {
            engine = db;
            tail_cache = cache;
            last_index = if from == pl.first_index then pl.last_included_index else sub64 from 1;
          })
          (record pl { engine = db; tail_cache = cache })

  unfoldable pub compact_prefix : PersistentLog → ℕ → ℕ → Option Error × PersistentLog
  compact_prefix pl index term =
      if leb index pl.last_included_index
      then (none, pl)
      else let end = if ltb pl.last_index index then pl.last_index else index in
        let gone = upto pl.first_index end in
        let cache = drop_cached gone pl.tail_cache in
        let (e, db) =
          commit pl.engine (delete_keys gone ++ boundary_sets index term)
            (record { sync = true }) in
        committed e
          (record pl {
            engine = db;
            tail_cache = cache;
            last_included_index = index;
            last_included_term = term;
            first_index = add64 index 1;
            last_index = if ltb pl.last_index index then index else pl.last_index;
          })
          (record pl { engine = db; tail_cache = cache })

  unfoldable pub restore_snapshot_boundary : PersistentLog → ℕ → ℕ → Option Error × PersistentLog
  restore_snapshot_boundary pl index term =
      let (e, db) =
        commit pl.engine
          (delete_keys (upto pl.first_index pl.last_index) ++ boundary_sets index term)
          (record { sync = true }) in
      committed e
        (record pl {
          engine = db;
          tail_cache = [];
          last_included_index = index;
          last_included_term = term;
          first_index = add64 index 1;
          last_index = index;
        })
        (record pl { engine = db; tail_cache = [] })
