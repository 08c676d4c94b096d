-- ===== src/Raft/Log/Kept.antt =====
-- What CompactPrefix of internal/raft/log.go keeps.
use distributed_kv.Common.{
  ℕ, ◌≤◌, ◌<◌, ◌≡◌, refl, sym, ◌∙◌, arith, dec_le, le→leb, lt→leb, ltb, if◌then◌else◌,
}
use distributed_kv.Storage.{Engine, Codec}
use distributed_kv.Raft.Entry.{Entry}
use distributed_kv.Raft.Log.{PersistentLog}
use distributed_kv.Raft.Log.Writes.{compact_prefix}
use distributed_kv.Raft.Log.Valid.{IsValid, held}
use distributed_kv.Raft.Log.Preserve.{committed-elim}
use distributed_kv.Raft.Log.Compact.{rebased-entry}

module _ ⦃E : Engine⦄ ⦃C : Codec Entry⦄ where
  open E use {contents, commit, commit-ok, commit-err}

  -- CompactPrefix on a well-formed log leaves every entry behind the given index and the boundary,
  -- up to the end, as it was, whether the commit succeeds or not.
  pub compact_prefix-held :
      (pl : PersistentLog) (index term j : ℕ)
      → IsValid pl
      → index < j
      → pl.last_included_index < j
      → j ≤ pl.last_index
      → held (compact_prefix pl index term).1 j ≡ held pl j
  unfolding compact_prefix
  compact_prefix-held pl index term j v out lo hi = elim (dec_le index pl.last_included_index) [
    | yes p ↦ rw (le→leb _ _ p) refl
    | no p ↦
        let (e, h, _) = v.retains.inside j lo hi in
        rw (lt→leb index pl.last_included_index (omega arith)) (
          committed-elim (λ pl'. held pl' j ≡ held pl j) (commit pl.engine _ _).0 _ _
            (λ s. rw (commit-ok _ _ _ s) (
              rebased-entry pl v end index term j e (ground (arith, v.ordered)) (ground arith) hi
                (ground arith) h
              ∙ sym h))
            (λ x s. rw (commit-err _ _ _ _ s) refl))
  ]
    where
      end : ℕ
      end = if ltb pl.last_index index then pl.last_index else index
