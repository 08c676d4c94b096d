-- ===== src/Storage/Pebble/Contract.antt =====
-- The contract of the storage package for the adapter of internal/storage/pebble.go.
use distributed_kv.Common.{
  ℕ, zero, suc, ◌≤◌, arith, Bool, true, false, ◌≡◌, refl, sym, ap, ◌∙◌, subst, ◌↔◌, Option, none,
  some, List, [], ◌∷◌, ◌++◌, In, Bytes, not_found, Result, ok, err, >>=-eq-ok, length,
  if◌then◌else◌,
}
use distributed_kv.Storage.{
  WriteOptions, BatchOp, set, delete, Contents, apply_op, apply_batch, in_range, Engine,
}
use distributed_kv.Storage.Pebble.{
  Pebble, PebbleEngine, PebbleBatch, PebbleIterator, Found, value, absent, failed, found_result,
  sync_opt, get_key, set_pair, delete_pair, new_pebble_batch, record_op, record_all, commit_all,
  new_iterator, is_valid, advance, item, walk, walk_range,
}

ok_inj : {A : Type 0} {x y : A} → Result.ok x ≡ ok y → x ≡ y
ok_inj e = cc

module _ ⦃P : Pebble⦄ where
  -- What is stored behind an adapter, and what its iterator still yields.
  abbrev pub stored : PebbleEngine → Contents
  stored p = Pebble.contents P p.db

  abbrev pub left_in : PebbleIterator → List (Bytes × Bytes)
  left_in i = Pebble.remaining P i.it

  pub found_result-ok :
      (d : Pebble.Db P) (k v : Bytes) (f : Found)
      → Pebble.get P d k ≡ f
      → found_result f ≡ ok v
      → Pebble.contents P d k ≡ some v
  found_result-ok d k v (value w none) e h = Pebble.get-value P d k v none (e ∙ cc)
  found_result-ok d k v (value w (some x)) e h = cc
  found_result-ok d k v absent e h = cc
  found_result-ok d k v (failed x) e h = cc

  pub found_result-not_found :
      (d : Pebble.Db P) (k : Bytes) (f : Found)
      → Pebble.get P d k ≡ f
      → found_result f ≡ err not_found
      → Pebble.contents P d k ≡ none
  found_result-not_found d k (value w none) e h = cc
  found_result-not_found d k (value w (some x)) e h = elim (Pebble.get-closed P d k w x e cc) [ ]
  found_result-not_found d k absent e h = Pebble.get-absent P d k e
  found_result-not_found d k (failed x) e h = elim (Pebble.get-failed P d k x e cc) [ ]

  apply_batch-append :
      (b b' : List BatchOp) (c : Contents)
      → apply_batch (b ++ b') c ≡ apply_batch b' (apply_batch b c)
  unfolding apply_batch
  apply_batch-append [] b' c = refl
  apply_batch-append (op ∷ b) b' c = apply_batch-append b b' (apply_op op c)

  recorded-record_op :
      (op : BatchOp) (b : PebbleBatch)
      → Pebble.recorded P (record_op op b).batch ≡ Pebble.recorded P b.batch ++ op ∷ []
  unfolding record_op
  recorded-record_op (set k v) b = Pebble.recorded-set P b.batch k v
  recorded-record_op (delete k) b = Pebble.recorded-delete P b.batch k

  record_all-applies :
      (ops : List BatchOp) (b : PebbleBatch) (c : Contents)
      → apply_batch (Pebble.recorded P (record_all ops b).batch) c
        ≡ apply_batch ops (apply_batch (Pebble.recorded P b.batch) c)
  unfolding record_all apply_batch
  record_all-applies [] b c = refl
  record_all-applies (op ∷ ops) b c =
      record_all-applies ops (record_op op b) c
      ∙ ap (apply_batch ops) (
          ap (λ r. apply_batch r c) (recorded-record_op op b)
          ∙ apply_batch-append (Pebble.recorded P b.batch) (op ∷ []) c)

  pub commit_all-ok :
      (p : PebbleEngine) (ops : List BatchOp) (o : WriteOptions)
      → (commit_all p ops o).0 ≡ none
      → stored (commit_all p ops o).1 ≡ apply_batch ops (stored p)
  unfolding commit_all apply_batch
  commit_all-ok p ops o h =
      Pebble.commit-ok P p.db (record_all ops (new_pebble_batch p)).batch (sync_opt o) h
      ∙ record_all-applies ops (new_pebble_batch p) (stored p)
      ∙ ap (λ r. apply_batch ops (apply_batch r (stored p))) (Pebble.recorded-new P p.db)

  -- The loop over an iterator of the adapter ends: any number of rounds that is not smaller than
  -- the number of items that are left walks exactly these items.
  pub walk-terminates :
      (i : PebbleIterator) (rounds : ℕ) → length (left_in i) ≤ rounds → walk rounds i ≡ left_in i
  unfolding walk is_valid advance item
  walk-terminates i zero le = sym (empty_of (left_in i) le)
    where
      empty_of : (l : List (Bytes × Bytes)) → length l ≤ 0 → l ≡ []
      empty_of [] h = refl
      empty_of (x ∷ l) h = ground arith
  walk-terminates i (suc rounds) le =
      by_valid (is_valid i) refl (walk-terminates (advance i) rounds)
    where
      suc_le : {a b : ℕ} → suc a ≤ suc b → a ≤ b
      suc_le h = omega arith

      by_valid :
          (b : Bool)
          → is_valid i ≡ b
          → (length (left_in (advance i)) ≤ rounds → walk rounds (advance i) ≡ left_in (advance i))
          → (if b then item i ∷ walk rounds (advance i) else []) ≡ left_in i
      by_valid false e rest = sym (Pebble.valid-false P i.it e)
      by_valid true e rest =
          let split = Pebble.valid-true P i.it e in
          ap (λ l. item i ∷ l) (rest (suc_le (subst (λ l. length l ≤ suc rounds) split le)))
          ∙ sym split

  -- No iterator meets an error before its end.
  unfoldable pub IsUndisturbed : Type 0
  IsUndisturbed =
      (d : Pebble.Db P) (lower : Bytes) (upper : Option Bytes) (i : Pebble.Iter P)
      → Pebble.new_iter P d lower upper ≡ ok i
      → Pebble.meets P (Pebble.first P i) ≡ none

  pub walk_range-ok :
      IsUndisturbed
      → (p : PebbleEngine) (lower : Bytes) (upper : Option Bytes) (l : List (Bytes × Bytes))
      → walk_range p lower upper ≡ ok l
      → (k v : Bytes) → In (k, v) l ↔ ((stored p k ≡ some v) × (in_range lower upper k ≡ true))
  unfolding walk_range new_iterator IsUndisturbed
  walk_range-ok calm p lower upper l e k v =
      let (i, opened, walked) = >>=-eq-ok (new_iterator p lower upper) _ e in
      let (it, made, placed) = >>=-eq-ok (Pebble.new_iter P p.db lower upper) _ opened in
      subst (λ l. In (k, v) l ↔ ((stored p k ≡ some v) × (in_range lower upper k ≡ true)))
        (ap left_in (ok_inj placed)
          ∙ sym (walk-terminates i (length (left_in i)) (omega arith))
          ∙ ok_inj walked)
        (Pebble.first-complete P p.db lower upper it made (calm p.db lower upper it made) k v)

  -- The adapter as an engine: what the Raft log and the state machine are built on.
  unfoldable pub pebble_engine : IsUndisturbed → Engine
  unfolding get_key set_pair delete_pair commit_all
  pebble_engine calm = record {
    Db = PebbleEngine;
    contents = stored;
    get = get_key;
    set_key = set_pair;
    delete_key = delete_pair;
    commit = commit_all;
    scan = walk_range;
    get-ok = λ d k v h. found_result-ok d.db k v (Pebble.get P d.db k) refl h;
    get-not_found = λ d k h. found_result-not_found d.db k (Pebble.get P d.db k) refl h;
    set-ok = λ d k v o h. Pebble.set-ok P d.db k v (sync_opt o) h;
    set-err = λ d k v o e h. Pebble.set-err P d.db k v (sync_opt o) e h;
    delete-ok = λ d k o h. Pebble.delete-ok P d.db k (sync_opt o) h;
    delete-err = λ d k o e h. Pebble.delete-err P d.db k (sync_opt o) e h;
    commit-ok = commit_all-ok;
    commit-err = λ d b o e h.
        Pebble.commit-err P d.db (record_all b (new_pebble_batch d)).batch (sync_opt o) e h;
    scan-ok = walk_range-ok calm;
  }

  -- Where no iterator of Pebble meets an error before its end: if the adapter commits a batch
  -- without an error, then a walk of a range that is opened afterwards yields exactly the keys of
  -- the range, with their values, that the store holds after the operations of the batch in order,
  -- as the contract of the storage package demands.
  pub walk_range-commit_all :
      IsUndisturbed
      → (p : PebbleEngine) (ops : List BatchOp) (o : WriteOptions) (lower : Bytes)
        (upper : Option Bytes) (l : List (Bytes × Bytes))
      → (commit_all p ops o).0 ≡ none
      → walk_range (commit_all p ops o).1 lower upper ≡ ok l
      → (k v : Bytes)
      → In (k, v) l ↔ ((apply_batch ops (stored p) k ≡ some v) × (in_range lower upper k ≡ true))
  walk_range-commit_all calm p ops o lower upper l written walked k v =
      subst (λ c. In (k, v) l ↔ ((c k ≡ some v) × (in_range lower upper k ≡ true)))
        (commit_all-ok p ops o written)
        (walk_range-ok calm (commit_all p ops o).1 lower upper l walked k v)
