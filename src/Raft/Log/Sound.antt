-- ===== src/Raft/Log/Sound.antt =====
-- A well-formed log whose terms fit in a uint64, and the writing methods of internal/raft/log.go.
use distributed_kv.Common.{
  ℕ, zero, suc, subst, inl, inr, ◌+◌, ◌-◌, ◌≤◌, ◌<◌, ◌≡◌, refl, sym, ◌∙◌, Bool, Option, none, some,
  List, [], ◌∷◌, Bytes, Error, arith, u64_mod, length, get_elem?, ltb, if◌then◌else◌, dec_le,
  dec_lt, put_uint64, Result, ok, err, ◌⊎◌, le→leb, lt→leb,
}
use distributed_kv.Storage.{Engine, Codec, apply_batch, BatchOp, set, Contents}
use distributed_kv.Raft.Entry.{Entry}
use distributed_kv.Raft.Log.{PersistentLog, key_term, key_voted_for}
use distributed_kv.Raft.Log.Writes.{
  append_entries, encode_sets, append_encoded, committed, compact_prefix, restore_snapshot_boundary,
  set_term_and_vote,
}
use distributed_kv.Raft.Log.Keys.{IsContiguous, entry_at, log_key-ne-meta}
use distributed_kv.Raft.Log.Valid.{IsValid, held}
use distributed_kv.Raft.Log.Append.{append_entries-IsValid, append_entries-held}
use distributed_kv.Raft.Log.Preserve.{committed-elim, set_term_and_vote-IsValid}
use distributed_kv.Raft.Log.Compact.{compact_prefix-IsValid, restore_snapshot_boundary-IsValid}
use distributed_kv.Raft.Log.Kept.{compact_prefix-held}

-- Terms of entries that fit in a uint64.
abbrev pub AllFit : List Entry → Type 0
AllFit [] = Unit
AllFit (e ∷ es) = (e.term < u64_mod) × AllFit es

pub get_elem?-AllFit :
    (es : List Entry) (i : ℕ) (e : Entry) → AllFit es → get_elem? es i ≡ some e → e.term < u64_mod
get_elem?-AllFit [] i e a h = cc
get_elem?-AllFit (x ∷ es) zero e a h =
    let q : x ≡ e = cc in subst (λ (y : Entry). y.term < u64_mod) q a.0
get_elem?-AllFit (x ∷ es) (suc i) e a h = get_elem?-AllFit es i e a.1 h

module _ ⦃E : Engine⦄ ⦃C : Codec Entry⦄ where
  open E use {contents, commit, commit-ok, commit-err}

  -- The terms of the entries behind `index`, up to `last`, fit in a uint64.
  pub record TermsFit (c : Contents) (index last : ℕ) : Type 0 where
    pub fits : (i : ℕ) (e : Entry) → index < i → i ≤ last → entry_at c i ≡ some e → e.term < u64_mod

  abbrev pub Fits : PersistentLog → Type 0
  Fits pl =
      TermsFit (contents pl.engine) pl.last_included_index pl.last_index
      × (pl.current_term < u64_mod)

  pub record IsSound (pl : PersistentLog) : Type 0 where
    pub valid : IsValid pl
    pub terms_fit : Fits pl

  TermsFit-same :
      {c c' : Contents} {a a' b b' : ℕ}
      → a ≤ a'
      → b' ≤ b
      → ((i : ℕ) → a' < i → i ≤ b' → entry_at c' i ≡ entry_at c i)
      → TermsFit c a b
      → TermsFit c' a' b'
  TermsFit-same lo hi same f = record {
    fits = λ i e p q h. f.fits i e (omega arith) (omega arith) (sym (same i p q) ∙ h);
  }

  TermsFit-empty : {c : Contents} {a : ℕ} → TermsFit c a a
  TermsFit-empty = record { fits = λ i e p q h. absurd (omega arith) }

  pub voted-entry :
      (term : ℕ) (voted_for : Bytes) (c : Contents) (i : ℕ)
      → entry_at
          (apply_batch (set key_term (put_uint64 term) ∷ set key_voted_for voted_for ∷ []) c)
          i
        ≡ entry_at c i
  unfolding apply_batch
  voted-entry term voted_for c i = ground (
    arith,
    log_key-ne-meta i key_term (inl refl),
    log_key-ne-meta i key_voted_for (inr (inl refl)),
  )

  pub set_term_and_vote-IsSound :
      (pl : PersistentLog) (term : ℕ) (voted_for : Bytes)
      → term < u64_mod
      → IsSound pl
      → IsSound (set_term_and_vote pl term voted_for).1
  unfolding set_term_and_vote
  set_term_and_vote-IsSound pl term voted_for ht s = record {
    valid = set_term_and_vote-IsValid pl term voted_for ht s.valid;
    terms_fit =
        committed-elim Fits (commit pl.engine _ _).0 _ _
          (λ h. rw (commit-ok _ _ _ h) (
            (
              TermsFit-same (omega arith) (omega arith)
                  (λ i p q. voted-entry term voted_for (contents pl.engine) i) s.terms_fit.0,
              ht,
            )))
          (λ x h. rw (commit-err _ _ _ _ h) s.terms_fit);
  }

  pub restore_snapshot_boundary-IsSound :
      (pl : PersistentLog) (index term : ℕ)
      → index + 1 < u64_mod
      → term < u64_mod
      → IsSound pl
      → IsSound (restore_snapshot_boundary pl index term).1
  unfolding restore_snapshot_boundary
  restore_snapshot_boundary-IsSound pl index term hi ht s = record {
    valid = restore_snapshot_boundary-IsValid pl s.valid index term hi ht;
    terms_fit =
        committed-elim Fits (commit pl.engine _ _).0 _ _ (λ h. (TermsFit-empty, s.terms_fit.1))
          (λ x h. rw (commit-err _ _ _ _ h) s.terms_fit);
  }

  compact_prefix-bounds :
      (pl : PersistentLog) (index term : ℕ)
      → index ≤ pl.last_index
      → (pl.last_included_index ≤ (compact_prefix pl index term).1.last_included_index)
        × ((compact_prefix pl index term).1.last_index ≡ pl.last_index)
        × ((compact_prefix pl index term).1.current_term ≡ pl.current_term)
        × ((index ≤ (compact_prefix pl index term).1.last_included_index)
            ⊎ ((i : ℕ) → held (compact_prefix pl index term).1 i ≡ held pl i))
  unfolding compact_prefix
  compact_prefix-bounds pl index term le = elim (dec_le index pl.last_included_index) [
    | yes p ↦ rw (le→leb _ _ p) (omega arith, refl, refl, inl p)
    | no p ↦ rw (lt→leb index pl.last_included_index (omega arith)) (
        committed-elim
          (λ (pl' : PersistentLog).
            (pl.last_included_index ≤ pl'.last_included_index)
            × (pl'.last_index ≡ pl.last_index)
            × (pl'.current_term ≡ pl.current_term)
            × ((index ≤ pl'.last_included_index) ⊎ ((i : ℕ) → held pl' i ≡ held pl i)))
          (commit pl.engine _ _).0 _ _ (λ h. (omega arith, ground arith, refl, inl (omega arith)))
          (λ x h. (omega arith, refl, refl, inr (λ i. rw (commit-err _ _ _ _ h) refl))))
  ]

  pub compact_prefix-IsSound :
      (pl : PersistentLog) (index term : ℕ)
      → index ≤ pl.last_index
      → term < u64_mod
      → IsSound pl
      → IsSound (compact_prefix pl index term).1
  compact_prefix-IsSound pl index term le ht s =
      let (lo, hi, same_term, kept) = compact_prefix-bounds pl index term le in
      record {
        valid = compact_prefix-IsValid pl s.valid index term (omega (arith, s.valid.bounded)) ht;
        terms_fit = (
          TermsFit-same lo (omega arith)
              (λ i p q. elim kept [
                | inl beyond ↦
                    compact_prefix-held pl index term i s.valid (omega arith) (omega arith)
                      (omega arith)
                | inr same ↦ same i
              ])
              s.terms_fit.0,
          omega (arith, same_term, s.terms_fit.1),
        );
      }

  module _ (pl : PersistentLog) (e : Entry) (es : List Entry) (s : IsSound pl)
      (cont : IsContiguous e.index (e ∷ es)) (lo : pl.last_included_index < e.index)
      (hi : e.index ≤ pl.last_index + 1) (fits : e.index + length es + 1 < u64_mod)
      (fit : AllFit (e ∷ es)) where
    -- The boundary stays, and a failed call leaves the entries.
    pub append_entries-outcome :
        (sync : Bool)
        → ((append_entries pl (e ∷ es) sync).1.last_included_index ≡ pl.last_included_index)
          × ((append_entries pl (e ∷ es) sync).1.current_term ≡ pl.current_term)
          × ((x : Error)
              → (append_entries pl (e ∷ es) sync).0 ≡ some x
              → Fits (append_entries pl (e ∷ es) sync).1)
    unfolding append_entries
    append_entries-outcome sync = encoded (encode_sets (e ∷ es))
      where
        Outcome : Option Error × PersistentLog → Type 0
        Outcome r =
            (r.1.last_included_index ≡ pl.last_included_index)
            × (r.1.current_term ≡ pl.current_term)
            × ((x : Error) → r.0 ≡ some x → Fits r.1)

        encoded : (r : Result (List BatchOp)) → Outcome (append_encoded pl e es sync r)
        encoded (err x) = (refl, refl, λ y h. s.terms_fit)
        encoded (ok sets) =
            ended (commit pl.engine _ _).0 _ _ refl refl refl refl
              (λ x h. rw (commit-err _ _ _ _ h) s.terms_fit)
          where
            ended :
                (o : Option Error) (done failed : PersistentLog)
                → done.last_included_index ≡ pl.last_included_index
                → failed.last_included_index ≡ pl.last_included_index
                → done.current_term ≡ pl.current_term
                → failed.current_term ≡ pl.current_term
                → ((x : Error) → o ≡ some x → Fits failed)
                → Outcome (committed o done failed)
            ended none done failed p q u v f = (p, u, λ y h. cc)
            ended (some x) done failed p q u v f = (q, v, λ y h. f x refl)

    pub append_entries-IsSound : (sync : Bool) → IsSound (append_entries pl (e ∷ es) sync).1
    append_entries-IsSound sync = record {
      valid = append_entries-IsValid pl e es s.valid cont lo hi fits sync;
      terms_fit = by_error (append_entries pl (e ∷ es) sync).0 refl;
    }
      where
        by_error :
            (o : Option Error)
            → (append_entries pl (e ∷ es) sync).0 ≡ o
            → Fits (append_entries pl (e ∷ es) sync).1
        by_error (some x) h = (append_entries-outcome sync).2 x h
        by_error none h = (
          record {
            fits = λ i x p q g.
                let v = append_entries-IsValid pl e es s.valid cont lo hi fits sync in
                let (at, end) =
                  append_entries-held pl e es s.valid cont lo hi fits sync i h
                    (omega (arith, v.bounded)) in
                let kept = (append_entries-outcome sync).0 in
                let given : (if ltb i e.index then held pl i else get_elem? (e ∷ es) (i - e.index))
                    ≡ some x =
                  sym at ∙ g in
                elim (dec_lt i e.index) [
                  | yes before ↦
                      s.terms_fit.0.fits i x (omega (arith, kept)) (omega arith)
                        (ground (arith, given))
                  | no behind ↦
                      get_elem?-AllFit (e ∷ es) (i - e.index) x fit (ground (arith, given))
                ];
          },
          omega (arith, (append_entries-outcome sync).1, s.terms_fit.1),
        )
