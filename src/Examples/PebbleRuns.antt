-- ===== src/Examples/PebbleRuns.antt =====
-- A database in memory behind the adapter of internal/storage/pebble.go, and a run of it.
use distributed_kv.Common.{
  Bool, true, false, ◌≡◌, ◌≢◌, refl, ◌↔◌, Option, none, some, List, [], ◌∷◌, ◌++◌, In, Bytes,
  bytes_discrete, codes, Error, not_found, ok, arith,
}
use distributed_kv.Common.Map
use distributed_kv.Storage.{BatchOp, set, delete, apply_batch, in_range, bytes_lt}
use distributed_kv.Storage.Pebble.{
  Pebble, Found, value, absent, failed, PebbleEngine, commit_all, walk_range, walk, record_all,
  record_op, new_iterator, is_valid, advance, item,
}
use distributed_kv.Storage.Pebble.Contract.{IsUndisturbed, walk_range-commit_all, walk-terminates}
use distributed_kv.Examples.Memory.{
  Store, found_in, items_of, run_ops, memory_commit, commits-ok, commits-err, one-op, scanned-ok,
}

abbrev pub found : Option Bytes → Found
found none = absent
found (some v) = value v none

pub found-value :
    (o : Option Bytes) (v : Bytes) (c : Option Error) → found o ≡ value v c → o ≡ some v
found-value o v c h = ground arith

pub found-absent : (o : Option Bytes) → found o ≡ absent → o ≡ none
found-absent o h = ground arith

pub found-failed : (o : Option Bytes) (e : Error) → found o ≡ failed e → e ≢ not_found
found-failed o e h = ground arith

pub found-closed :
    (o : Option Bytes) (v : Bytes) (e : Error) → found o ≡ value v (some e) → e ≢ not_found
found-closed o v e h = ground arith

-- Iterators are the lists of what they still yield.
abbrev pub Items : Type 0
Items = List (Bytes × Bytes)

abbrev pub has_item : Items → Bool
has_item [] = false
has_item (x ∷ l) = true

abbrev pub rest_of : Items → Items
rest_of [] = []
rest_of (x ∷ l) = l

abbrev pub head_of : Items → Bytes × Bytes
head_of [] = ([], [])
head_of (x ∷ l) = x

pub has_item-false : (l : Items) → has_item l ≡ false → l ≡ []
has_item-false l h = ground arith

pub has_item-true : (l : Items) → has_item l ≡ true → l ≡ head_of l ∷ rest_of l
has_item-true [] h = ground arith
has_item-true (x ∷ l) h = refl

abbrev pub memory_pebble : Pebble
memory_pebble = record {
  Db = Store;
  Batch = List BatchOp;
  Iter = Items;
  contents = found_in;
  recorded = λ b. b;
  remaining = λ i. i;
  meets = λ i. none;
  open_db = λ dir. ok [];
  get = λ m k. found (found_in m k);
  set_key = λ m k v o. memory_commit false m (set k v ∷ []);
  delete_key = λ m k o. memory_commit false m (delete k ∷ []);
  close = λ m. none;
  new_batch = λ m. [];
  batch_set = λ b k v. (none, b ++ set k v ∷ []);
  batch_delete = λ b k. (none, b ++ delete k ∷ []);
  batch_commit = λ m b o. memory_commit false m b;
  new_iter = λ m lower upper. ok (items_of m lower upper m);
  first = λ i. i;
  next = rest_of;
  valid = has_item;
  key = λ i. (head_of i).0;
  value_at = λ i. (head_of i).1;
  iter_close = λ i. none;
  get-value = λ m k v c h. found-value (found_in m k) v c h;
  get-absent = λ m k h. found-absent (found_in m k) h;
  get-failed = λ m k e h. found-failed (found_in m k) e h;
  get-closed = λ m k v e h. found-closed (found_in m k) v e h;
  set-ok = λ m k v o h. one-op false m (set k v) h;
  set-err = λ m k v o e h. commits-err false m (set k v ∷ []) e h;
  delete-ok = λ m k o h. one-op false m (delete k) h;
  delete-err = λ m k o e h. commits-err false m (delete k ∷ []) e h;
  recorded-new = λ m. refl;
  recorded-set = λ b k v. refl;
  recorded-delete = λ b k. refl;
  commit-ok = λ m b o h. commits-ok false m b h;
  commit-err = λ m b o e h. commits-err false m b e h;
  valid-false = has_item-false;
  valid-true = has_item-true;
  first-complete = λ m lower upper i h calm k v. scanned-ok m lower upper i h k v;
}

memory_pebble-IsUndisturbed : IsUndisturbed ⦃P = memory_pebble⦄
unfolding IsUndisturbed
memory_pebble-IsUndisturbed d lower upper i h = refl

abbrev pub opened : PebbleEngine ⦃P = memory_pebble⦄
opened = record { db = (codes "a", codes "1") ∷ [] }

abbrev pub two_ops : List BatchOp
two_ops = set (codes "b") (codes "2") ∷ delete (codes "a") ∷ []

walk-terminates_example :
    walk ⦃P = memory_pebble⦄ 3 (record { it = opened.db }) ≡ (codes "a", codes "1") ∷ []
walk-terminates_example =
    walk-terminates ⦃P = memory_pebble⦄ (record { it = opened.db }) 3 (omega arith)

walk_range-commit_all_example :
    In {A = Bytes × Bytes} (codes "b", codes "2") ((codes "b", codes "2") ∷ []) ↔ (
      (apply_batch two_ops (found_in opened.db) (codes "b") ≡ some (codes "2"))
      × (in_range [] none (codes "b") ≡ true))
unfolding commit_all record_all record_op memory_commit walk_range walk new_iterator is_valid
    advance item run_ops items_of in_range bytes_lt Map.insert Map.delete Map.lookup bytes_discrete
walk_range-commit_all_example =
    walk_range-commit_all ⦃P = memory_pebble⦄ memory_pebble-IsUndisturbed opened two_ops
      (record { sync = true }) [] none ((codes "b", codes "2") ∷ []) refl refl (codes "b")
      (codes "2")
