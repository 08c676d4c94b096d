-- ===== src/Raft/Follower/Hint.antt =====
-- The conflict hint of HandleAppendEntries in internal/raft/replication.go.
use distributed_kv.Common.{
  ℕ, zero, suc, ◌≤◌, ◌<◌, ◌≡◌, ◌≢◌, ◌⊎◌, inl, inr, some, arith, ◌==◌, Option-cases, Bool-cases,
  dec_lt, lt→ltb, le→ltb, ap,
}
use distributed_kv.Raft.Log.{PersistentLog, term_at}
use distributed_kv.Raft.Follower.{first_of_term}
use distributed_kv.Storage.{Engine, Codec}
use distributed_kv.Kv.StateMachine.{Pairs}
use distributed_kv.Raft.Entry.{Entry}
use distributed_kv.Raft.SnapshotStore.{FileSystem, SnapshotMeta}

module _ ⦃E : Engine⦄ ⦃C : Codec Entry⦄ ⦃P : Codec Pairs⦄ ⦃M : Codec SnapshotMeta⦄
    ⦃F : FileSystem⦄ where
  -- `first` begins the run of entries of term `t` that ends at `last_of_run`.
  pub record BeginsRun (log : PersistentLog) (t first last_of_run : ℕ) : Type 0 where
    pub not_after : first ≤ last_of_run
    pub same_term : (i : ℕ) → first ≤ i → i < last_of_run → term_at log i ≡ some t
    pub run_begins : (first ≤ log.first_index) ⊎ ((i : ℕ) → first ≡ suc i → term_at log i ≢ some t)

  -- The conflict index that HandleAppendEntries computes is not after the conflicting index, every
  -- index from it up to the conflicting one has the conflicting term, and it is at or below the
  -- log's first index, or the entry before it has another term or none.
  pub first_of_term_lem :
      (log : PersistentLog) (t i : ℕ) → BeginsRun log t (first_of_term log t i) i
  unfolding first_of_term
  first_of_term_lem log t zero = record {
    not_after = omega arith;
    same_term = λ i p q. absurd (omega arith);
    run_begins = inl (omega arith);
  }
  first_of_term_lem log t (suc i) =
      let ih = first_of_term_lem log t i in
      elim (dec_lt log.first_index (suc i)) [
        | no p ↦ rw (le→ltb log.first_index (suc i) (omega arith)) (stops (inl (omega arith)))
        | yes p ↦ elim (Option-cases (term_at log i)) [
          | inl e ↦ rw (lt→ltb _ _ p, e, first_of_term) (stops (inr (λ j q x. other j q (cc) x)))
          | inr (u, e) ↦ elim (Bool-cases (u == t)) [
            | inl b ↦
                rw (lt→ltb _ _ p, e, first_of_term, b) (goes_on ih (rw e (ap some (ground arith))))
            | inr b ↦
                rw (lt→ltb _ _ p, e, first_of_term, b)
                  (stops (inr (λ j q x. other j q (λ y. ground arith) x)))
          ]
        ]
      ]
    where
      stops :
          (suc i ≤ log.first_index) ⊎ ((j : ℕ) → suc i ≡ suc j → term_at log j ≢ some t)
          → BeginsRun log t (suc i) (suc i)
      stops r = record {
        not_after = omega arith;
        same_term = λ j p q. absurd (omega arith);
        run_begins = r;
      }

      other : (j : ℕ) → suc i ≡ suc j → term_at log i ≢ some t → term_at log j ≢ some t
      other j q x y = x (rw (let r : i ≡ j = omega arith in r) y)

      goes_on :
          {first : ℕ}
          → BeginsRun log t first i
          → term_at log i ≡ some t
          → BeginsRun log t first (suc i)
      goes_on b e = record {
        not_after = omega (arith, b.not_after);
        same_term = λ j p q. elim (dec_lt j i) [
          | yes l ↦ b.same_term j p l
          | no l ↦ rw (let r : j ≡ i = omega arith in r) e
        ];
        run_begins = b.run_begins;
      }
