-- ===== src/Raft/SnapshotStore.antt =====
-- The SnapshotStore of internal/raft/snapshot.go: the newest snapshot in two files of a directory.
pub mod Staged
pub mod Saved
use distributed_kv.Common.{
  ℕ, ◌≡◌, Option, none, some, Bytes, bytes_discrete, codes, ite, Error, not_found, Result, ok, err,
  ◌>>=◌,
}
use distributed_kv.Storage.{Codec}
use distributed_kv.Kv.StateMachine.{Snapshot, Pairs, marshal, unmarshal_snapshot}

-- The files of the directory, each by its name, and the content of each.
abbrev pub Files : Type 0
Files = Bytes → Option Bytes

abbrev pub with_file : Files → Bytes → Option Bytes → Files
with_file files name content other_name =
    ite (bytes_discrete name other_name) content (files other_name)

-- What the package os offers: each call returns its error, `none` for nil, beside the disk that it
-- leaves. A handle is named by the path that it was opened at.
pub record FileSystem : Type 1 where
  pub Disk : Type 0
  pub files : Disk → Files
  pub open_trunc : Disk → Bytes → Option Error × Disk
  pub write : Disk → Bytes → Bytes → Option Error × Disk
  pub sync : Disk → Bytes → Option Error × Disk
  pub close : Disk → Bytes → Option Error × Disk
  pub rename : Disk → Bytes → Bytes → Option Error × Disk
  pub remove : Disk → Bytes → Option Error × Disk
  pub read_file : Disk → Bytes → Result Bytes
  pub open-ok :
      (d : Disk) (p : Bytes)
      → (open_trunc d p).0 ≡ none
      → files (open_trunc d p).1 ≡ with_file (files d) p (some (codes ""))
  -- A call that fails may leave the file that it names in any state, and no other file.
  pub open-other : (d : Disk) (p q : Bytes) → ¬ (p ≡ q) → files (open_trunc d p).1 q ≡ files d q
  pub write-ok :
      (d : Disk) (p b : Bytes)
      → (write d p b).0 ≡ none
      → files d p ≡ some (codes "")
      → files (write d p b).1 ≡ with_file (files d) p (some b)
  pub write-other : (d : Disk) (p b q : Bytes) → ¬ (p ≡ q) → files (write d p b).1 q ≡ files d q
  pub sync-files : (d : Disk) (p : Bytes) → files (sync d p).1 ≡ files d
  pub close-files : (d : Disk) (p : Bytes) → files (close d p).1 ≡ files d
  -- A rename happens as a whole or not at all.
  pub rename-ok :
      (d : Disk) (p q b : Bytes)
      → (rename d p q).0 ≡ none
      → files d p ≡ some b
      → files (rename d p q).1 ≡ with_file (with_file (files d) p none) q (some b)
  pub rename-err :
      (d : Disk) (p q : Bytes) (e : Error)
      → (rename d p q).0 ≡ some e
      → files (rename d p q).1 ≡ files d
  pub remove-other : (d : Disk) (p q : Bytes) → ¬ (p ≡ q) → files (remove d p).1 q ≡ files d q
  pub read-ok : (d : Disk) (p b : Bytes) → read_file d p ≡ ok b → files d p ≡ some b
  pub read-not_found : (d : Disk) (p : Bytes) → read_file d p ≡ err not_found → files d p ≡ none

pub record SnapshotMeta : Type 0 where
  pub last_included_index : ℕ
  pub last_included_term : ℕ

abbrev pub meta_path : Bytes
meta_path = codes "snapshot.meta.json"

abbrev pub data_path : Bytes
data_path = codes "snapshot.data"

abbrev pub tmp_data_path : Bytes
tmp_data_path = codes "snapshot.data.tmp"

abbrev pub tmp_meta_path : Bytes
tmp_meta_path = codes "snapshot.meta.json.tmp"

-- The next call if the last one succeeded, as in `if err := …; err != nil { return err }`.
abbrev pub and_then {ℓ} :
    {D : Type ℓ} → Option Error × D → (D → Option Error × D) → Option Error × D
and_then (none, d) k = k d
and_then (some e, d) k = (some e, d)

abbrev pub fail_as {ℓ} : {D : Type ℓ} → Bytes → Option Error × D → Option Error × D
fail_as text (none, d) = (none, d)
fail_as text (some e, d) = (some (Error.wrapped text e), d)

module _ ⦃F : FileSystem⦄ ⦃P : Codec Pairs⦄ ⦃M : Codec SnapshotMeta⦄ where
  open F use {Disk, open_trunc, write, sync, close, rename, remove, read_file}

  abbrev pub closing : Bytes → Option Error × Disk → Option Error × Disk
  closing path (none, d) = (none, d)
  closing path (some e, d) = (some e, (close d path).1)

  unfoldable pub write_file_sync : Disk → Bytes → Bytes → Option Error × Disk
  write_file_sync d path bytes = and_then (open_trunc d path) λ d1.
      and_then (closing path (write d1 path bytes))
        λ d2. and_then (closing path (sync d2 path)) λ d3. close d3 path

  abbrev pub after_remove : Option Error × Disk → Bytes → Bytes → Option Error × Disk
  after_remove (none, d) src dst = rename d src dst
  after_remove (some not_found, d) src dst = rename d src dst
  after_remove (some e, d) src dst = (some e, d)

  abbrev pub retry_rename : Option Error × Disk → Bytes → Bytes → Option Error × Disk
  retry_rename (none, d) src dst = (none, d)
  retry_rename (some _, d) src dst = after_remove (remove d dst) src dst

  unfoldable pub replace_file : Disk → Bytes → Bytes → Option Error × Disk
  replace_file d src dst = retry_rename (rename d src dst) src dst

  abbrev pub save_meta : Disk → Result Bytes → Option Error × Disk
  save_meta d (err e) = (some e, d)
  save_meta d (ok bytes) =
      and_then (fail_as (codes "writing snapshot meta") (write_file_sync d tmp_meta_path bytes))
        λ d1. fail_as (codes "renaming snapshot meta") (replace_file d1 tmp_meta_path meta_path)

  abbrev pub save_bytes : Disk → SnapshotMeta → Result Bytes → Option Error × Disk
  save_bytes d meta (err e) = (some e, d)
  save_bytes d meta (ok bytes) =
      and_then (fail_as (codes "writing snapshot data") (write_file_sync d tmp_data_path bytes))
        λ d1.
          and_then
            (fail_as (codes "renaming snapshot data") (replace_file d1 tmp_data_path data_path))
            λ d2. save_meta d2 (Codec.encode M meta)

  unfoldable pub save : Disk → Snapshot → SnapshotMeta → Option Error × Disk
  unfolding write_file_sync replace_file
  save d snap meta = save_bytes d meta (marshal snap)

  abbrev pub load_with_meta : Disk → Result Bytes → Result (Option (Snapshot × SnapshotMeta))
  load_with_meta d (err not_found) = ok none
  load_with_meta d (err e) = err e
  load_with_meta d (ok bytes) = do
    meta ← Codec.decode M bytes
    data_bytes ← read_file d data_path
    snap ← unmarshal_snapshot data_bytes
    ok (some (snap, meta))

  unfoldable pub load_latest : Disk → Result (Option (Snapshot × SnapshotMeta))
  load_latest d = load_with_meta d (read_file d meta_path)
