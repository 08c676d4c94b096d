-- ===== src/Raft/Alone.antt =====
-- A cluster of one node of internal/raft: it commits what it appends.
pub mod Puts
pub mod Elected
use distributed_kv.Common.{
  ℕ, suc, ◌+◌, ◌-◌, ◌≤◌, ◌<◌, ◌≡◌, refl, sym, ◌∙◌, ap, Bool, true, false, Bytes, leb, if◌then◌else◌,
  Option, none, some, List, [], ◌∷◌, Error, Result, ok, arith, u64_mod, get_elem?, ltb, ◌==◌,
}
use distributed_kv.Storage.{Engine, Codec}
use distributed_kv.Kv.StateMachine.{Pairs}
use distributed_kv.Raft.Entry.{Entry}
use distributed_kv.Raft.SnapshotStore.{FileSystem, SnapshotMeta}
use distributed_kv.Raft.Log.{PersistentLog, term_at}
use distributed_kv.Raft.Log.Valid.{IsValid, held}
use distributed_kv.Raft.Log.Writes.{append_entries, append_encoded, encode_sets}
use distributed_kv.Raft.Log.Append.{append_entries-held}
use distributed_kv.Raft.Log.Sound.{IsSound, append_entries-outcome, append_entries-IsSound}
use distributed_kv.Raft.Log.Reads.{term_at_lem}
use distributed_kv.Raft.Election.Grants.{IsReliable}
use distributed_kv.Raft.Types.{Transport, PeerInfo}
use distributed_kv.Raft.State.{Node, current_term, is_leader}
use distributed_kv.Raft.Lifecycle.{signal_commit_advanced}
use distributed_kv.Raft.Replication.{
  try_advance_commit_index, broadcast_append_entries, replicate_to_all, match_indexes,
  majority_index, sort, insert_sorted,
}
use distributed_kv.Raft.Apply.Ready.{IsReady}

-- A codec that encodes every entry.
pub record IsEncoder (C : Codec Entry) : Type 0 where
  pub bytes_of : (e : Entry) → (b : Bytes) × (Codec.encode C e ≡ ok b)

majority_index-one : (i : ℕ) → majority_index (i ∷ []) ≡ i
unfolding majority_index sort insert_sorted
majority_index-one i = refl

module _ ⦃E : Engine⦄ ⦃C : Codec Entry⦄ where
  -- `pl'` is `pl` with `e` behind its end.
  pub record Extends (pl pl' : PersistentLog) (e : Entry) : Type 0 where
    pub sound : IsSound pl'
    pub end : pl'.last_index ≡ e.index
    pub at_end : held pl' e.index ≡ some e
    pub same_term : pl'.current_term ≡ pl.current_term
    pub same_boundary : pl'.last_included_index ≡ pl.last_included_index

  pub IsSound-IsReady :
      (pl : PersistentLog) (a c : ℕ)
      → IsSound pl
      → pl.last_included_index ≤ a
      → c ≤ pl.last_index
      → IsReady pl a c
  IsSound-IsReady pl a c s lo hi = record {
    valid = s.valid;
    not_compacted = lo;
    reached = hi;
    terms_fit = λ i e p q h. s.terms_fit.0.fits i e (omega arith) q h;
  }

  module _ (r : IsReliable E) (c : IsEncoder C) where
    append_one-ok :
        (pl : PersistentLog) (e : Entry) (sync : Bool) → (append_entries pl (e ∷ []) sync).0 ≡ none
    unfolding append_entries encode_sets
    append_one-ok pl e sync = let (b, q) = c.bytes_of e in rw (q, r.commits) refl

    pub append_one-Extends :
        (pl : PersistentLog) (e : Entry) (sync : Bool)
        → IsSound pl
        → e.index ≡ pl.last_index + 1
        → e.index + 1 < u64_mod
        → e.term < u64_mod
        → ((append_entries pl (e ∷ []) sync).0 ≡ none)
          × Extends pl (append_entries pl (e ∷ []) sync).1 e
    append_one-Extends pl e sync s at room fits =
        let done = append_one-ok pl e sync in
        let v = s.valid in
        let lo : pl.last_included_index < e.index = omega (arith, v.ordered) in
        let (h, last) =
          append_entries-held pl e [] v (refl, tt) lo (omega arith) (omega arith) sync e.index done
            (omega arith) in
        let (boundary, term, _) =
          append_entries-outcome pl e [] s (refl, tt) lo (omega arith) (omega arith) (fits, tt)
            sync in
        (
          done,
          record {
            sound =
                append_entries-IsSound pl e [] s (refl, tt) lo (omega arith) (omega arith)
                  (fits, tt) sync;
            end = last ∙ omega arith;
            at_end = h ∙ first_there;
            same_term = term;
            same_boundary = boundary;
          },
        )
      where
        first_there :
            (if ltb e.index e.index
              then held pl e.index
              else get_elem? (e ∷ []) (e.index - e.index))
            ≡ some e
        first_there =
            rw
              (
                let q : ltb e.index e.index ≡ false = ground arith in q,
                let q : e.index - e.index ≡ 0 = omega arith in q,
              )
              refl

module _ ⦃E : Engine⦄ ⦃C : Codec Entry⦄ ⦃P : Codec Pairs⦄ ⦃M : Codec SnapshotMeta⦄ ⦃F : FileSystem⦄
    (r : IsReliable E) where
  replicate_to_none :
      (T : Transport) (n : Node) (ps : List PeerInfo) (term : ℕ)
      → ps ≡ []
      → replicate_to_all T n ps term ≡ n
  unfolding replicate_to_all
  replicate_to_none T n ps term alone = rw alone refl

  match_indexes-alone : (n : Node) → n.peers ≡ [] → match_indexes n ≡ n.log.last_index ∷ []
  match_indexes-alone n alone = rw alone refl

  try_advance-alone :
      (n : Node)
      → n.peers ≡ []
      → is_leader n ≡ true
      → n.commit_index < n.log.last_index
      → term_at n.log n.log.last_index ≡ some (current_term n)
      → try_advance_commit_index n (current_term n)
        ≡ signal_commit_advanced (record n { commit_index = n.log.last_index })
  unfolding try_advance_commit_index
  try_advance-alone n alone leads late own =
      let m : majority_index (match_indexes n) ≡ n.log.last_index =
        ap majority_index (match_indexes-alone n alone) ∙ majority_index-one n.log.last_index in
      let l : leb n.log.last_index n.commit_index ≡ false = ground arith in
      let t : (current_term n == current_term n) ≡ true = ground arith in
      rw (leads, t, m, l, own, t) refl

  -- A leader without peers commits its last entry, where that is of its own term.
  pub alone-commits :
      (T : Transport) (n : Node) (e : Entry)
      → n.peers ≡ []
      → is_leader n ≡ true
      → IsSound n.log
      → n.log.last_included_index < n.log.last_index
      → n.commit_index < n.log.last_index
      → held n.log n.log.last_index ≡ some e
      → e.term ≡ current_term n
      → broadcast_append_entries T n
        ≡ signal_commit_advanced (record n { commit_index = n.log.last_index })
  unfolding broadcast_append_entries
  alone-commits T n e alone leads s behind late at own =
      let (x, hx, tx) =
        (term_at_lem n.log s.valid (r.readable n.log.engine) n.log.last_index).1 behind
          (omega arith) in
      let same : some e ≡ some x = sym at ∙ hx in
      let is_own : term_at n.log n.log.last_index ≡ some (current_term n) =
        tx ∙ ap some (ground arith) in
      rw (leads, replicate_to_none T n n.peers (current_term n) alone)
        (try_advance-alone n alone leads late is_own)
