-- ===== src/Raft/Log/Preserve.antt =====
-- What the writing methods of internal/raft/log.go share: failed commits, and metadata. The proof for
-- SetTermAndVote.
use distributed_kv.Common.{
  ℕ, suc, ◌+◌, ◌<◌, ◌≡◌, refl, inl, inr, Option, none, some, List, [], ◌∷◌, Bytes, bytes_discrete,
  arith, u64_mod, length, last, Error, put_uint64, uint64-put_uint64,
}
use distributed_kv.Common.Map.{Map}
use distributed_kv.Storage.{Engine, Codec, Contents, set, apply_batch}
use distributed_kv.Raft.Entry.{Entry}
use distributed_kv.Raft.Log.{
  PersistentLog, key_term, key_voted_for, key_last_included_index, key_last_included_term,
}
use distributed_kv.Raft.Log.Writes.{committed, boundary_sets, set_term_and_vote}
use distributed_kv.Raft.Log.Keys.{entry_at, IsMeta, IsContiguous, log_key-ne-meta}
use distributed_kv.Raft.Log.Cache.{cached_at}
use distributed_kv.Raft.Log.Valid.{Saved, IsValid}
use distributed_kv.Raft.Log.Retains.{Retains-set_meta}

-- What holds of both outcomes of a commit holds of the outcome.
pub committed-elim {ℓ κ} :
    {A : Type ℓ} (Q : A → Type κ) (r : Option Error) (done failed : A)
    → (r ≡ none → Q done)
    → ((e : Error) → r ≡ some e → Q failed)
    → Q (committed r done failed).1
committed-elim Q none done failed hd hf = hd refl
committed-elim Q (some e) done failed hd hf = hf e refl

-- The metadata depends on the metadata keys alone.
pub Saved-same :
    (c c' : Contents) {t i it : ℕ} {v : Bytes}
    → ((k : Bytes) → IsMeta k → c' k ≡ c k)
    → Saved c t v i it
    → Saved c' t v i it
Saved-same c c' same s = record {
  term_saved = rw (same key_term (inl refl)) s.term_saved;
  vote_saved = rw (same key_voted_for (inr (inl refl))) s.vote_saved;
  index_saved = rw (same key_last_included_index (inr (inr (inl refl)))) s.index_saved;
  index_term_saved = rw (same key_last_included_term (inr (inr (inr refl)))) s.index_term_saved;
}

-- A new boundary is read back.
pub Saved-boundary :
    (c : Contents) (index term : ℕ) {t i it : ℕ} {v : Bytes}
    → index < u64_mod
    → term < u64_mod
    → Saved c t v i it
    → Saved (apply_batch (boundary_sets index term) c) t v index term
unfolding apply_batch bytes_discrete
Saved-boundary c index term hi ht s = record {
  term_saved = s.term_saved;
  vote_saved = s.vote_saved;
  index_saved = uint64-put_uint64 index hi;
  index_term_saved = uint64-put_uint64 term ht;
}

Saved-vote :
    (c : Contents) (term : ℕ) (voted_for : Bytes) {t i it : ℕ} {v : Bytes}
    → term < u64_mod
    → Saved c t v i it
    → Saved
        (apply_batch (set key_term (put_uint64 term) ∷ set key_voted_for voted_for ∷ []) c)
        term
        voted_for
        i
        it
unfolding apply_batch bytes_discrete
Saved-vote c term voted_for ht s = record {
  term_saved = uint64-put_uint64 term ht;
  vote_saved = refl;
  index_saved = s.index_saved;
  index_term_saved = s.index_term_saved;
}

-- Two metadata writes leave every entry.
pub boundary_free :
    ⦃C : Codec Entry⦄ (i : ℕ) (k l : Bytes) (c : Contents) (v w : Bytes)
    → IsMeta k
    → IsMeta l
    → entry_at (apply_batch (set k v ∷ set l w ∷ []) c) i ≡ entry_at c i
unfolding apply_batch
boundary_free i k l c v w mk ml = ground (arith, log_key-ne-meta i k mk, log_key-ne-meta i l ml)

pub last-index :
    (a : ℕ) (e : Entry) (es : List Entry)
    → IsContiguous a (e ∷ es)
    → (last e es).index ≡ a + length es
last-index a e [] h = omega (arith, h.0)
last-index a e (x ∷ xs) h = omega (arith, last-index (suc a) x xs h.1)

module _ ⦃E : Engine⦄ ⦃C : Codec Entry⦄ where
  open E use {Db, contents, commit, commit-ok, commit-err}

  -- A failed write: the engine holds what it held, and the cache has forgotten some entries.
  pub IsValid-failed :
      (pl : PersistentLog) (db : Db) (m : Map ℕ Entry)
      → contents db ≡ contents pl.engine
      → ((i : ℕ) (e : Entry) → cached_at m i ≡ some e → cached_at pl.tail_cache i ≡ some e)
      → IsValid pl
      → IsValid (record pl { engine = db; tail_cache = m })
  IsValid-failed pl db m same sub v = record {
    first = v.first;
    ordered = v.ordered;
    bounded = v.bounded;
    retains = rw same v.retains;
    saved = rw same v.saved;
    coherent = λ i e h. rw same (v.coherent i e (sub i e h));
  }

  -- SetTermAndVote with a term below 2^64 keeps a well-formed log well formed, whether the commit
  -- succeeds or not.
  pub set_term_and_vote-IsValid :
      (pl : PersistentLog) (term : ℕ) (voted_for : Bytes)
      → term < u64_mod
      → IsValid pl
      → IsValid (set_term_and_vote pl term voted_for).1
  unfolding set_term_and_vote
  set_term_and_vote-IsValid pl term voted_for ht v =
      committed-elim IsValid (commit pl.engine _ _).0 _ _
        (λ e. record {
          first = v.first;
          ordered = v.ordered;
          bounded = v.bounded;
          retains = rw (commit-ok _ _ _ e) (
              unfold apply_batch in
              Retains-set_meta (Retains-set_meta v.retains key_term (put_uint64 term) (inl refl))
                key_voted_for voted_for (inr (inl refl)));
          saved =
              rw (commit-ok _ _ _ e) (Saved-vote (contents pl.engine) term voted_for ht v.saved);
          coherent = λ i x h.
              rw
                (
                  commit-ok _ _ _ e,
                  boundary_free i (key_term) (key_voted_for) (contents pl.engine) (put_uint64 term)
                      voted_for (inl refl) (inr (inl refl)),
                )
                (v.coherent i x h);
        })
        (λ x e. IsValid-failed pl _ pl.tail_cache (commit-err _ _ _ _ e) (λ i e h. h) v)
