-- ===== src/Raft/Writers/Applied.antt =====
-- The writers of internal/raft/propose.go whose entries are committed are told so.
use distributed_kv.Common.{
  ℕ, zero, suc, ◌+◌, ◌-◌, ◌≤◌, ◌<◌, ◌≡◌, ◌≢◌, refl, ap, ◌∙◌, ℕ_discrete, Option, none, some, In,
  here, there, Error, Result, ok, err, arith, true, if_neg,
}
use distributed_kv.Common.Map
use distributed_kv.Common.Map.{Map, lookup-delete}
use distributed_kv.Storage.{Engine, Codec}
use distributed_kv.Kv.StateMachine.{Pairs, StateMachine}
use distributed_kv.Kv.StateMachine.View.{IsWritable}
use distributed_kv.Raft.Entry.{Entry}
use distributed_kv.Raft.SnapshotStore.{FileSystem, SnapshotMeta}
use distributed_kv.Raft.Log.{get_entry}
use distributed_kv.Raft.Log.Recover.{IsReadable}
use distributed_kv.Raft.State.{Node}
use distributed_kv.Raft.Waiters.{notify, notify_writers, satisfy_pending_reads}
use distributed_kv.Raft.Apply.{
  apply_committed, apply_one, apply_read, after_apply, apply_entry, mark_applied, apply_rounds,
}
use distributed_kv.Raft.Apply.Ready.{IsReady}
use distributed_kv.Raft.Apply.Refines.{apply_one-Stepped}
use distributed_kv.Raft.Writers.{Books, books}
use distributed_kv.Raft.Writers.Local.{books-satisfy_pending_reads}
use distributed_kv.Raft.Writers.Loops.{books-maybe_snapshot}

-- What a round at index `i` does to the writers: the one at `i`, if there is one, is told.
pub record Tells (a b : Books) (i : ℕ) : Type 0 where
  pub others :
      (j : ℕ) → i ≢ j → Map.lookup ℕ_discrete j b.waiters ≡ Map.lookup ℕ_discrete j a.waiters
  pub told_at : (ch : ℕ) → Map.lookup ℕ_discrete i a.waiters ≡ some ch → In (ch, none) b.sent
  pub grows : (x : ℕ × Option Error) → In x a.sent → In x b.sent

module _ ⦃E : Engine⦄ ⦃C : Codec Entry⦄ ⦃P : Codec Pairs⦄ ⦃M : Codec SnapshotMeta⦄
    ⦃F : FileSystem⦄ where
  notify_writers-Tells : (n : Node) (i : ℕ) → Tells (books n) (books (notify_writers n i)) i
  unfolding notify_writers
  notify_writers-Tells n i = go (Map.lookup ℕ_discrete i n.write_waiters) refl
    where
      go :
          (o : Option ℕ)
          → Map.lookup ℕ_discrete i n.write_waiters ≡ o
          → Tells (books n) (books (notify n i o)) i
      go none e = record { others = λ j ne. refl; told_at = λ ch h. cc; grows = λ x m. m }
      go (some c) e = record {
        others =
            λ j ne. lookup-delete ℕ_discrete i j n.write_waiters ∙ if_neg (ℕ_discrete i j) ne _ _;
        told_at = λ ch h. here (let q : ch ≡ c = cc in rw q refl);
        grows = λ x m. there m;
      }

  mark_applied-Tells : (n : Node) (i : ℕ) → Tells (books n) (books (mark_applied n i)) i
  unfolding mark_applied
  mark_applied-Tells n i =
      let n1 = notify_writers (record n { last_applied = i }) i in
      ground (
        arith,
        notify_writers-Tells (record n { last_applied = i }) i,
        books-satisfy_pending_reads n1,
        books-maybe_snapshot (satisfy_pending_reads n1) i,
      )

  -- A round that goes on.
  apply_one-Tells :
      (n : Node) (i : ℕ) → (apply_one n i).0 ≡ true → Tells (books n) (books (apply_one n i).1) i
  unfolding apply_one
  apply_one-Tells n i = read (get_entry n.log i)
    where
      applied :
          (r : Option Error × StateMachine)
          → (after_apply r n i).0 ≡ true
          → Tells (books n) (books (after_apply r n i).1) i
      applied (some x, sm) h = cc
      applied (none, sm) h = mark_applied-Tells (record n { sm = sm }) i

      read :
          (r : Result Entry)
          → (apply_read r n i).0 ≡ true
          → Tells (books n) (books (apply_read r n i).1) i
      read (err x) h = cc
      read (ok e) h = applied (apply_entry n.sm e) h

  module _ (w : IsWritable E) (r : (d : Engine.Db E) → IsReadable d) where
    apply_rounds-grows :
        (rounds : ℕ) (n : Node) (a : ℕ) (x : ℕ × Option Error)
        → IsReady n.log a (a + rounds)
        → In x n.delivered
        → In x (apply_rounds rounds n a).delivered
    unfolding apply_rounds
    apply_rounds-grows zero n a x h m = m
    apply_rounds-grows (suc rounds) n a x h m =
        let (e, g, t) = apply_one-Stepped w r n a (a + suc rounds) h (omega arith) in
        rw (t.goes_on, apply_rounds)
          (apply_rounds-grows rounds (apply_one n (suc a)).1 (suc a) x
            (rw (let q : suc a + rounds ≡ a + suc rounds = omega arith in q) t.still_ready)
            ((apply_one-Tells n (suc a) t.goes_on).grows x m))

    apply_rounds-tells :
        (rounds : ℕ) (n : Node) (a i ch : ℕ)
        → IsReady n.log a (a + rounds)
        → a < i
        → i ≤ a + rounds
        → Map.lookup ℕ_discrete i n.write_waiters ≡ some ch
        → In (ch, none) (apply_rounds rounds n a).delivered
    unfolding apply_rounds
    apply_rounds-tells zero n a i ch h lo hi l = absurd (omega arith)
    apply_rounds-tells (suc rounds) n a i ch h lo hi l =
        let (e, g, t) = apply_one-Stepped w r n a (a + suc rounds) h (omega arith) in
        let round = apply_one-Tells n (suc a) t.goes_on in
        let ready : IsReady (apply_one n (suc a)).1.log (suc a) (suc a + rounds) =
          (rw (let q : suc a + rounds ≡ a + suc rounds = omega arith in q) t.still_ready) in
        elim (ℕ_discrete (suc a) i) [
          | yes p ↦
              rw (t.goes_on, apply_rounds)
                (apply_rounds-grows rounds (apply_one n (suc a)).1 (suc a) (ch, none) ready
                  (round.told_at ch (ap (λ j. Map.lookup ℕ_discrete j n.write_waiters) p ∙ l)))
          | no p ↦
              rw (t.goes_on, apply_rounds)
                (apply_rounds-tells rounds (apply_one n (suc a)).1 (suc a) i ch ready (omega arith)
                  (omega arith) (round.others i p ∙ l))
        ]

    -- If the engine's single writes and its reads do not fail, the log is well formed, not
    -- compacted beyond lastApplied, reaches the commit index and has terms below 2^64 behind
    -- lastApplied, and a writer waits on an index behind lastApplied and not beyond the commit
    -- index, then applyCommitted sends the writer a message without an error.
    pub apply_committed-tells :
        (n : Node) (i ch : ℕ)
        → IsReady n.log n.last_applied n.commit_index
        → n.last_applied < i
        → i ≤ n.commit_index
        → Map.lookup ℕ_discrete i n.write_waiters ≡ some ch
        → In (ch, none) (apply_committed n).delivered
    unfolding apply_committed
    apply_committed-tells n i ch h lo hi l =
        apply_rounds-tells (n.commit_index - n.last_applied) n n.last_applied i ch
          (rw
            (let t : n.last_applied + (n.commit_index - n.last_applied) ≡ n.commit_index =
                omega arith in
              t)
            h)
          lo (omega arith) l
