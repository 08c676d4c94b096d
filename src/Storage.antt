-- ===== src/Storage.antt =====
-- internal/storage/storage.go: the contract of the embedded engine, as a record of operations and
-- of the laws that the interface documents. The Raft log and the state machine take it as an
-- instance argument.
pub mod Pebble
use mathlib.Core.List.{reverse}
use mathlib.Core.Option
use distributed_kv.Common.{
  ◌+◌, ◌%◌, ◌≡◌, Bool, true, false, ◌&&◌, not, Option, none, some, List, [], ◌∷◌, ◌↔◌, ite, ltb,
  ◌==◌, Bytes, bytes_discrete, Error, not_found, Result, ok, err, In, if◌then◌else◌,
}

pub record WriteOptions : Type 0 where
  pub sync : Bool

-- What `Batch` records, in the order of the calls.
pub data BatchOp : Type 0 where
  set : Bytes → Bytes → BatchOp
  delete : Bytes → BatchOp

-- The keys and values that an engine holds.
abbrev pub Contents : Type 0
Contents = Bytes → Option Bytes

abbrev pub apply_op : BatchOp → Contents → Contents
apply_op (set k v) c j = ite (bytes_discrete k j) (some v) (c j)
apply_op (delete k) c j = ite (bytes_discrete k j) none (c j)

unfoldable pub apply_batch : List BatchOp → Contents → Contents
apply_batch [] c = c
apply_batch (op ∷ b) c = apply_batch b (apply_op op c)

-- bytes.Compare(a, b) < 0, the order of the keys.
unfoldable pub bytes_lt : Bytes → Bytes → Bool
bytes_lt a [] = false
bytes_lt [] (y ∷ b) = true
bytes_lt (x ∷ a) (y ∷ b) =
    let rest = bytes_lt a b in if ltb x y then true else if x == y then rest else false

-- [lower, upper), where a nil upper bound means no upper bound.
unfoldable pub in_range : Bytes → Option Bytes → Bytes → Bool
unfolding bytes_lt
in_range lower none k = not (bytes_lt k lower)
in_range lower (some upper) k = not (bytes_lt k lower) && bytes_lt k upper

-- The loop of prefixUpperBound, from the last byte on; `none` is nil.
unfoldable pub bump : Bytes → Option Bytes
bump [] = none
bump (b ∷ r) =
    let b' = (b + 1) % 256 in let rest = bump r in if b' == 0 then rest else some (b' ∷ r)

-- prefixUpperBound, which the packages raft and kv each declare.
unfoldable pub prefix_upper_bound : Bytes → Option Bytes
unfolding bump
prefix_upper_bound prefix = Option.map reverse (bump (reverse prefix))

-- A write returns the error, `none` for nil, beside the engine that it leaves. `scan` is a whole
-- walk of an iterator: what `Key` and `Value` return from `NewIterator` until `Valid` fails.
pub record Engine : Type 1 where
  pub Db : Type 0
  pub contents : Db → Contents
  pub get : Db → Bytes → Result Bytes
  pub set_key : Db → Bytes → Bytes → WriteOptions → Option Error × Db
  pub delete_key : Db → Bytes → WriteOptions → Option Error × Db
  pub commit : Db → List BatchOp → WriteOptions → Option Error × Db
  pub scan : Db → Bytes → Option Bytes → Result (List (Bytes × Bytes))
  pub get-ok : (d : Db) (k v : Bytes) → get d k ≡ ok v → contents d k ≡ some v
  pub get-not_found : (d : Db) (k : Bytes) → get d k ≡ err not_found → contents d k ≡ none
  pub set-ok :
      (d : Db) (k v : Bytes) (o : WriteOptions)
      → (set_key d k v o).0 ≡ none
      → contents (set_key d k v o).1 ≡ apply_op (BatchOp.set k v) (contents d)
  pub set-err :
      (d : Db) (k v : Bytes) (o : WriteOptions) (e : Error)
      → (set_key d k v o).0 ≡ some e
      → contents (set_key d k v o).1 ≡ contents d
  pub delete-ok :
      (d : Db) (k : Bytes) (o : WriteOptions)
      → (delete_key d k o).0 ≡ none
      → contents (delete_key d k o).1 ≡ apply_op (BatchOp.delete k) (contents d)
  pub delete-err :
      (d : Db) (k : Bytes) (o : WriteOptions) (e : Error)
      → (delete_key d k o).0 ≡ some e
      → contents (delete_key d k o).1 ≡ contents d
  -- Commit applies the batch atomically.
  pub commit-ok :
      (d : Db) (b : List BatchOp) (o : WriteOptions)
      → (commit d b o).0 ≡ none
      → contents (commit d b o).1 ≡ apply_batch b (contents d)
  pub commit-err :
      (d : Db) (b : List BatchOp) (o : WriteOptions) (e : Error)
      → (commit d b o).0 ≡ some e
      → contents (commit d b o).1 ≡ contents d
  pub scan-ok :
      (d : Db) (lower : Bytes) (upper : Option Bytes) (l : List (Bytes × Bytes))
      → scan d lower upper ≡ ok l
      → (k v : Bytes) → In (k, v) l ↔ ((contents d k ≡ some v) × (in_range lower upper k ≡ true))

-- Serialisation by encoding/gob and encoding/json: what was encoded is decoded.
pub record Codec (A : Type 0) : Type 0 where
  pub encode : A → Result Bytes
  pub decode : Bytes → Result A
  pub decode-encode : (a : A) (b : Bytes) → encode a ≡ ok b → decode b ≡ ok a
