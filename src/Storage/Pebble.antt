-- ===== src/Storage/Pebble.antt =====
-- internal/storage/pebble.go: the adapter from Pebble to the contract of the storage package.
pub mod Contract
use distributed_kv.Common.{
  ℕ, zero, suc, Bool, true, false, ◌≡◌, ◌≢◌, ◌↔◌, Option, none, some, List, [], ◌∷◌, ◌++◌, In,
  Bytes, Error, not_found, Result, ok, err, ◌>>=◌, length, if◌then◌else◌,
}
use distributed_kv.Storage.{
  WriteOptions, BatchOp, set, delete, Contents, apply_op, apply_batch, in_range,
}

-- What pebble.DB.Get returns: a value with the error of closing it, pebble.ErrNotFound, or another
-- error.
pub data Found : Type 0 where
  value : Bytes → Option Error → Found
  absent : Found
  failed : Error → Found

-- pebble.Sync and pebble.NoSync
pub data SyncOption : Type 0 where
  sync no_sync : SyncOption

-- The package github.com/cockroachdb/pebble. `recorded` is what a batch holds, `remaining` is what an
-- iterator still yields, and `meets` is the error at which it ends early.
pub record Pebble : Type 1 where
  pub Db : Type 0
  pub Batch : Type 0
  pub Iter : Type 0
  pub contents : Db → Contents
  pub recorded : Batch → List BatchOp
  pub remaining : Iter → List (Bytes × Bytes)
  pub meets : Iter → Option Error
  pub open_db : Bytes → Result Db
  pub get : Db → Bytes → Found
  pub set_key : Db → Bytes → Bytes → SyncOption → Option Error × Db
  pub delete_key : Db → Bytes → SyncOption → Option Error × Db
  pub close : Db → Option Error
  pub new_batch : Db → Batch
  pub batch_set : Batch → Bytes → Bytes → Option Error × Batch
  pub batch_delete : Batch → Bytes → Option Error × Batch
  pub batch_commit : Db → Batch → SyncOption → Option Error × Db
  pub new_iter : Db → Bytes → Option Bytes → Result Iter
  pub first : Iter → Iter
  pub next : Iter → Iter
  pub valid : Iter → Bool
  pub key : Iter → Bytes
  pub value_at : Iter → Bytes
  pub iter_close : Iter → Option Error
  pub get-value :
      (d : Db) (k v : Bytes) (c : Option Error) → get d k ≡ value v c → contents d k ≡ some v
  pub get-absent : (d : Db) (k : Bytes) → get d k ≡ absent → contents d k ≡ none
  -- No error of Pebble is ErrNotFound of the storage package.
  pub get-failed : (d : Db) (k : Bytes) (e : Error) → get d k ≡ failed e → e ≢ not_found
  pub get-closed : (d : Db) (k v : Bytes) (e : Error) → get d k ≡ value v (some e) → e ≢ not_found
  pub set-ok :
      (d : Db) (k v : Bytes) (o : SyncOption)
      → (set_key d k v o).0 ≡ none
      → contents (set_key d k v o).1 ≡ apply_op (BatchOp.set k v) (contents d)
  pub set-err :
      (d : Db) (k v : Bytes) (o : SyncOption) (e : Error)
      → (set_key d k v o).0 ≡ some e
      → contents (set_key d k v o).1 ≡ contents d
  pub delete-ok :
      (d : Db) (k : Bytes) (o : SyncOption)
      → (delete_key d k o).0 ≡ none
      → contents (delete_key d k o).1 ≡ apply_op (BatchOp.delete k) (contents d)
  pub delete-err :
      (d : Db) (k : Bytes) (o : SyncOption) (e : Error)
      → (delete_key d k o).0 ≡ some e
      → contents (delete_key d k o).1 ≡ contents d
  pub recorded-new : (d : Db) → recorded (new_batch d) ≡ []
  pub recorded-set :
      (b : Batch) (k v : Bytes) → recorded (batch_set b k v).1 ≡ recorded b ++ BatchOp.set k v ∷ []
  pub recorded-delete :
      (b : Batch) (k : Bytes) → recorded (batch_delete b k).1 ≡ recorded b ++ BatchOp.delete k ∷ []
  pub commit-ok :
      (d : Db) (b : Batch) (o : SyncOption)
      → (batch_commit d b o).0 ≡ none
      → contents (batch_commit d b o).1 ≡ apply_batch (recorded b) (contents d)
  pub commit-err :
      (d : Db) (b : Batch) (o : SyncOption) (e : Error)
      → (batch_commit d b o).0 ≡ some e
      → contents (batch_commit d b o).1 ≡ contents d
  pub valid-false : (i : Iter) → valid i ≡ false → remaining i ≡ []
  pub valid-true :
      (i : Iter) → valid i ≡ true → remaining i ≡ (key i, value_at i) ∷ remaining (next i)
  -- An iterator that meets no error yields what the database holds within the bounds.
  pub first-complete :
      (d : Db) (lower : Bytes) (upper : Option Bytes) (i : Iter)
      → new_iter d lower upper ≡ ok i
      → meets (first i) ≡ none
      → (k v : Bytes)
      → In (k, v) (remaining (first i))
        ↔ ((contents d k ≡ some v) × (in_range lower upper k ≡ true))

abbrev pub sync_opt : WriteOptions → SyncOption
sync_opt o = if o.sync then sync else no_sync

module _ ⦃P : Pebble⦄ where
  pub record PebbleEngine : Type 0 where
    pub db : Pebble.Db P

  pub record PebbleBatch : Type 0 where
    pub batch : Pebble.Batch P

  pub record PebbleIterator : Type 0 where
    pub it : Pebble.Iter P

  unfoldable pub open_pebble : Bytes → Result PebbleEngine
  open_pebble dir = Pebble.open_db P dir >>= λ d. ok (record { db = d })

  abbrev pub copied : Bytes → Option Error → Result Bytes
  copied v (some e) = err e
  copied v none = ok v

  abbrev pub found_result : Found → Result Bytes
  found_result absent = err not_found
  found_result (failed e) = err e
  found_result (value v closed) = copied v closed

  -- Get
  unfoldable pub get_key : PebbleEngine → Bytes → Result Bytes
  get_key p k = found_result (Pebble.get P p.db k)

  abbrev pub held : Option Error × Pebble.Db P → Option Error × PebbleEngine
  held (e, d) = (e, record { db = d })

  unfoldable pub set_pair :
      PebbleEngine → Bytes → Bytes → WriteOptions → Option Error × PebbleEngine
  set_pair p k v o = held (Pebble.set_key P p.db k v (sync_opt o))

  unfoldable pub delete_pair : PebbleEngine → Bytes → WriteOptions → Option Error × PebbleEngine
  delete_pair p k o = held (Pebble.delete_key P p.db k (sync_opt o))

  abbrev pub new_pebble_batch : PebbleEngine → PebbleBatch
  new_pebble_batch p = record { batch = Pebble.new_batch P p.db }

  -- Set and Delete of a batch drop its error.
  unfoldable pub record_op : BatchOp → PebbleBatch → PebbleBatch
  record_op (set k v) b = record { batch = (Pebble.batch_set P b.batch k v).1 }
  record_op (delete k) b = record { batch = (Pebble.batch_delete P b.batch k).1 }

  abbrev pub commit_batch : PebbleEngine → PebbleBatch → WriteOptions → Option Error × PebbleEngine
  commit_batch p b o = held (Pebble.batch_commit P p.db b.batch (sync_opt o))

  -- What the callers do with a batch: the calls in order.
  unfoldable pub record_all : List BatchOp → PebbleBatch → PebbleBatch
  unfolding record_op
  record_all [] b = b
  record_all (op ∷ ops) b = record_all ops (record_op op b)

  unfoldable pub commit_all :
      PebbleEngine → List BatchOp → WriteOptions → Option Error × PebbleEngine
  unfolding record_all
  commit_all p ops o = commit_batch p (record_all ops (new_pebble_batch p)) o

  unfoldable pub new_iterator : PebbleEngine → Bytes → Option Bytes → Result PebbleIterator
  new_iterator p lower upper =
      Pebble.new_iter P p.db lower upper >>= λ i. ok (record { it = Pebble.first P i })

  unfoldable pub is_valid : PebbleIterator → Bool
  is_valid i = Pebble.valid P i.it

  unfoldable pub advance : PebbleIterator → PebbleIterator
  advance i = record { it = Pebble.next P i.it }

  -- Key and Value
  unfoldable pub item : PebbleIterator → Bytes × Bytes
  item i = (Pebble.key P i.it, Pebble.value_at P i.it)

  -- Close of the iterator and of the engine
  abbrev pub close_iterator : PebbleIterator → Option Error
  close_iterator i = Pebble.iter_close P i.it

  abbrev pub close_engine : PebbleEngine → Option Error
  close_engine p = Pebble.close P p.db

  -- The loop that the callers run over an iterator, for a number of rounds.
  unfoldable pub walk : ℕ → PebbleIterator → List (Bytes × Bytes)
  unfolding is_valid advance item
  walk zero i = []
  walk (suc rounds) i =
      let rest = walk rounds (advance i) in if is_valid i then item i ∷ rest else []

  unfoldable pub walk_range : PebbleEngine → Bytes → Option Bytes → Result (List (Bytes × Bytes))
  unfolding new_iterator walk
  walk_range p lower upper =
      new_iterator p lower upper >>= λ i. ok (walk (length (Pebble.remaining P i.it)) i)
