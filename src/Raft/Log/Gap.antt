-- ===== src/Raft/Log/Gap.antt =====
-- AppendEntries of internal/raft/log.go behind the end of the log.
use distributed_kv.Common.{
  ℕ, ◌+◌, ◌<◌, ◌≡◌, refl, sym, ap, ◌∙◌, Bool, Option, none, some, List, [], ◌∷◌, ◌++◌, Error,
  Result, ok, err, arith, u64_mod, length, lt→leb,
}
use distributed_kv.Storage.{Engine, Codec, BatchOp, apply_batch}
use distributed_kv.Raft.Entry.{Entry}
use distributed_kv.Raft.Log.{PersistentLog}
use distributed_kv.Raft.Log.Keys.{IsContiguous, entry_at, apply_batch-encode_sets}
use distributed_kv.Raft.Log.Writes.{
  append_entries, append_encoded, encode_sets, committed, overwritten, delete_keys,
}
use distributed_kv.Raft.Log.Preserve.{last-index}
use distributed_kv.Raft.Log.Valid.{IsValid, held, held-beyond}

module _ ⦃E : Engine⦄ ⦃C : Codec Entry⦄ where
  open E use {Db, contents, commit, commit-ok}

  -- If AppendEntries is called on a well-formed log with consecutive entries that start further
  -- behind the end than the next index, with indices below 2^64, and returns no error, then the
  -- log that it leaves is not well formed.
  pub append_entries-gap :
      (pl : PersistentLog) (e : Entry) (es : List Entry) (sync : Bool)
      → IsValid pl
      → IsContiguous e.index (e ∷ es)
      → pl.last_index + 1 < e.index
      → e.index + length es + 1 < u64_mod
      → (append_entries pl (e ∷ es) sync).0 ≡ none
      → ¬ IsValid (append_entries pl (e ∷ es) sync).1
  unfolding append_entries
  append_entries-gap pl e es sync v cont beyond fits = encoded (encode_sets (e ∷ es)) refl
    where
      hole : ℕ
      hole = pl.last_index + 1

      nothing : overwritten pl e ≡ []
      nothing = rw (lt→leb e.index pl.last_index (omega arith)) refl

      done :
          (x : Option Error) (a b : PersistentLog)
          → (committed x a b).0 ≡ none
          → ((committed x a b).1 ≡ a) × (x ≡ none)
      done none a b p = (refl, refl)
      done (some x) a b p = cc

      missing :
          (log : PersistentLog)
          → log.last_included_index ≡ pl.last_included_index
          → log.last_index ≡ e.index + length es
          → held log hole ≡ none
          → ¬ IsValid log
      missing log boundary end empty w =
          let (x, h, _) =
            w.retains.inside hole (omega (arith, boundary, v.ordered)) (omega (arith, end)) in
          let q : none ≡ some x = sym empty ∙ h in cc

      unset :
          (sets : List BatchOp) (db : Db)
          → encode_sets (e ∷ es) ≡ ok sets
          → contents db ≡ apply_batch (delete_keys (overwritten pl e) ++ sets) (contents pl.engine)
          → entry_at (contents db) hole ≡ none
      unset sets db q same =
          let plain : contents db ≡ apply_batch sets (contents pl.engine) =
            same
            ∙ ap (λ (is : List ℕ). apply_batch (delete_keys is ++ sets) (contents pl.engine))
                nothing in
          rw plain (
            ground (
              arith,
              apply_batch-encode_sets e.index hole (e ∷ es) sets (contents pl.engine) cont
                  (omega arith) (omega (arith, v.bounded)) q,
              held-beyond pl hole v,
            ))

      encoded :
          (r : Result (List BatchOp))
          → encode_sets (e ∷ es) ≡ r
          → (append_encoded pl e es sync r).0 ≡ none
          → ¬ IsValid (append_encoded pl e es sync r).1
      encoded (err x) q p = cc
      encoded (ok sets) q p =
          let (a, b) = done (commit pl.engine _ _).0 _ _ p in
          rw a (missing _ refl (last-index e.index e es cont) (unset sets _ q (commit-ok _ _ _ b)))
