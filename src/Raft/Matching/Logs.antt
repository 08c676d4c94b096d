-- ===== src/Raft/Matching/Logs.antt =====
-- When two logs of internal/raft/log.go agree, and what leaves their entries.
use distributed_kv.Common.{
  ℕ, ◌≤◌, ◌<◌, ◌≡◌, refl, sym, ◌∙◌, Bool, List, [], ◌∷◌, Bytes, Result, ok, err, arith,
}
use distributed_kv.Storage.{Engine, Codec, BatchOp}
use distributed_kv.Raft.Entry.{Entry}
use distributed_kv.Raft.Log.{PersistentLog}
use distributed_kv.Raft.Log.Writes.{append_entries, append_encoded, encode_sets, set_term_and_vote}
use distributed_kv.Raft.Log.Preserve.{committed-elim}
use distributed_kv.Raft.Log.Valid.{held}
use distributed_kv.Raft.Log.Sound.{voted-entry}
use distributed_kv.Raft.Matching.{Matches}

module _ ⦃E : Engine⦄ ⦃C : Codec Entry⦄ where
  open E use {contents, commit, commit-ok, commit-err}

  -- `a` holds what `b` holds up to an index, and they match.
  pub record Agrees (a b : PersistentLog) (up_to : ℕ) : Type 0 where
    pub same :
        (j : ℕ)
        → a.last_included_index < j
        → b.last_included_index < j
        → j ≤ up_to
        → held a j ≡ held b j
    pub matches : Matches a b

  pub held-set_term_and_vote :
      (pl : PersistentLog) (term : ℕ) (vote : Bytes) (j : ℕ)
      → (held (set_term_and_vote pl term vote).1 j ≡ held pl j)
        × ((set_term_and_vote pl term vote).1.last_index ≡ pl.last_index)
  unfolding set_term_and_vote
  held-set_term_and_vote pl term vote j =
      committed-elim
        (λ (q : PersistentLog). (held q j ≡ held pl j) × (q.last_index ≡ pl.last_index))
        (commit pl.engine _ _).0 _ _
        (λ h. rw (commit-ok _ _ _ h) (voted-entry term vote (contents pl.engine) j, refl))
        (λ x h. rw (commit-err _ _ _ _ h) (refl, refl))

  pub boundary-append_entries :
      (pl : PersistentLog) (es : List Entry) (sync : Bool)
      → (append_entries pl es sync).1.last_included_index ≡ pl.last_included_index
  unfolding append_entries
  boundary-append_entries pl [] sync = refl
  boundary-append_entries pl (e ∷ es) sync = encoded (encode_sets (e ∷ es))
    where
      encoded :
          (o : Result (List BatchOp))
          → (append_encoded pl e es sync o).1.last_included_index ≡ pl.last_included_index
      encoded (err x) = refl
      encoded (ok sets) =
          committed-elim (λ (q : PersistentLog). q.last_included_index ≡ pl.last_included_index)
            (commit pl.engine _ _).0 _ _ (λ h. refl) (λ x h. refl)

  -- Another log with the same entries.
  pub Matches-same :
      (a a' b : PersistentLog)
      → ((j : ℕ) → held a' j ≡ held a j)
      → a'.last_index ≡ a.last_index
      → a'.last_included_index ≡ a.last_included_index
      → Matches a b
      → Matches a' b
  Matches-same a a' b same last boundary m = record {
    same_up_to = λ i x y ha hb p q t j l k le.
        same j
        ∙ m.same_up_to i x y (omega (arith, last)) hb (sym (same i) ∙ p) q t j
            (omega (arith, boundary)) k le;
  }

  pub Agrees-all :
      (a b : PersistentLog) (up_to : ℕ)
      → a.last_index ≤ up_to
      → ((j : ℕ)
          → a.last_included_index < j
          → b.last_included_index < j
          → j ≤ up_to
          → held a j ≡ held b j)
      → Agrees a b up_to
  Agrees-all a b up_to le same = record {
    same = same;
    matches = record { same_up_to = λ i x y ha hb p q t j l k z. same j l k (omega arith) };
  }
