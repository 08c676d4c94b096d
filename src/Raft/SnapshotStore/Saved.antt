-- ===== src/Raft/SnapshotStore/Saved.antt =====
-- What Save of internal/raft/snapshot.go leaves for LoadLatest.
use distributed_kv.Common.{
  ◌≡◌, refl, sym, ap, ◌∙◌, subst, Option, none, some, Bytes, codes, Error, wrapped, not_found,
  Result, ok, err, arith, wrap_error, >>=-eq-ok,
}
use distributed_kv.Storage.{Codec}
use distributed_kv.Kv.StateMachine.{Snapshot, Pairs, marshal, unmarshal_snapshot}
use distributed_kv.Raft.SnapshotStore.{
  FileSystem, SnapshotMeta, meta_path, data_path, tmp_data_path, tmp_meta_path, write_file_sync,
  replace_file, save_meta, save_bytes, save, load_with_meta, load_latest,
}
use distributed_kv.Raft.SnapshotStore.Staged.{
  write_file_sync-other, Moved, staged, staged-and_then, staged-last,
}

meta_from_tmp : ¬ (meta_path ≡ tmp_meta_path)
meta_from_tmp h = cc

data_from_tmp : ¬ (data_path ≡ tmp_data_path)
data_from_tmp h = cc

data_from_tmp_meta : ¬ (tmp_meta_path ≡ data_path)
data_from_tmp_meta h = cc

meta_from_tmp' : ¬ (tmp_meta_path ≡ meta_path)
meta_from_tmp' h = cc

meta_from_tmp_data : ¬ (tmp_data_path ≡ meta_path)
meta_from_tmp_data h = cc

data_from_meta' : ¬ (data_path ≡ meta_path)
data_from_meta' h = cc

data_from_meta : ¬ (meta_path ≡ data_path)
data_from_meta h = cc

module _ ⦃F : FileSystem⦄ ⦃P : Codec Pairs⦄ ⦃M : Codec SnapshotMeta⦄ where
  open F use {
    Disk, open_trunc, write, sync, close, rename, remove, read_file, files, open-ok, open-other,
    write-ok, write-other, sync-files, close-files, rename-ok, rename-err, remove-other, read-ok,
    read-not_found,
  }

  save_meta-ok :
      (d2 : Disk) (r : Result Bytes) {d' : Disk}
      → save_meta d2 r ≡ (none, d')
      → (mb : Bytes) × (r ≡ ok mb) × Moved d2 d' tmp_meta_path meta_path mb
  save_meta-ok d2 (err e) h = cc
  save_meta-ok d2 (ok mb) h =
      (mb, refl, staged-last d2 tmp_meta_path meta_path mb _ _ meta_from_tmp h)

  -- What a Save that returned no error left in the two files.
  record Saved (d' : Disk) (snap : Result Bytes) (meta : SnapshotMeta) : Type 0 where
    data_bytes : Bytes
    meta_bytes : Bytes
    marshalled : snap ≡ ok data_bytes
    encoded : Codec.encode M meta ≡ ok meta_bytes
    data_file : files d' data_path ≡ some data_bytes
    meta_file : files d' meta_path ≡ some meta_bytes

  save_bytes-Saved :
      (d : Disk) (meta : SnapshotMeta) (r : Result Bytes) {d' : Disk}
      → save_bytes d meta r ≡ (none, d')
      → Saved d' r meta
  save_bytes-Saved d meta (err e) h = cc
  save_bytes-Saved d meta (ok b) h =
      let (d2, placed, h2) =
        staged-and_then d tmp_data_path data_path b _ _ (λ d2. save_meta d2 (Codec.encode M meta))
          data_from_tmp h in
      let (mb, e, last) = save_meta-ok d2 (Codec.encode M meta) h2 in
      record {
        data_bytes = b;
        meta_bytes = mb;
        marshalled = refl;
        encoded = e;
        data_file = last.others data_path data_from_tmp_meta data_from_meta ∙ placed.there;
        meta_file = last.there;
      }

  pub unmarshal-marshal :
      (snap : Snapshot) (b : Bytes) → marshal snap ≡ ok b → unmarshal_snapshot b ≡ ok snap
  unfolding marshal unmarshal_snapshot
  unmarshal-marshal snap b m =
      let decoded =
        Codec.decode-encode P snap.pairs b (unwrapped _ (Codec.encode P snap.pairs) m) in
      rw decoded refl
    where
      unwrapped : (text : Bytes) (r : Result Bytes) → wrap_error text r ≡ ok b → r ≡ ok b
      unwrapped text (ok x) h = h
      unwrapped text (err e) h = cc

  read_some :
      (d : Disk) (x : Result Bytes) {r : Option (Snapshot × SnapshotMeta)} {mb : Bytes}
      → (x ≡ err not_found → files d meta_path ≡ none)
      → files d meta_path ≡ some mb
      → load_with_meta d x ≡ ok r
      → (b : Bytes) × (x ≡ ok b)
  read_some d (ok b) gone mf h = (b, refl)
  read_some d (err e) gone mf h = ground arith

  -- What LoadLatest returns where it returns no error.
  loaded :
      (d : Disk) (snap : Snapshot) (meta : SnapshotMeta) (b mb : Bytes)
      {r : Option (Snapshot × SnapshotMeta)}
      → marshal snap ≡ ok b
      → files d data_path ≡ some b
      → files d meta_path ≡ some mb
      → Codec.decode M mb ≡ ok meta
      → load_latest d ≡ ok r
      → r ≡ some (snap, meta)
  unfolding load_latest
  loaded d snap meta b mb {r = r} m df mf dm h =
      let (mb', e) = read_some d (read_file d meta_path) (read-not_found d meta_path) mf h in
      let h1 = subst (λ x. load_with_meta d x ≡ ok r) e h in
      let (meta', dm', h2) = >>=-eq-ok (Codec.decode M mb') _ h1 in
      let (b', rd, h3) = >>=-eq-ok (read_file d data_path) _ h2 in
      let (snap', um, h4) = >>=-eq-ok (unmarshal_snapshot b') _ h3 in
      let same_meta : some mb' ≡ some mb = sym (read-ok d meta_path mb' e) ∙ mf in
      let same_data : some b' ≡ some b = sym (read-ok d data_path b' rd) ∙ df in
      let metas : meta' ≡ meta = cc in
      let snaps : snap' ≡ snap = same_snap um (unmarshal-marshal snap b m) same_data in
      by_parts h4 snaps metas
    where
      same_snap :
          {snap' : Snapshot} {b' : Bytes}
          → unmarshal_snapshot b' ≡ ok snap'
          → unmarshal_snapshot b ≡ ok snap
          → some b' ≡ some b
          → snap' ≡ snap
      same_snap u v e = cc

      by_parts :
          {snap' : Snapshot} {meta' : SnapshotMeta}
          → ok (some (snap', meta')) ≡ ok r
          → snap' ≡ snap
          → meta' ≡ meta
          → r ≡ some (snap, meta)
      by_parts h p q = rw (← p, ← q) cc

  -- If Save returns no error and LoadLatest of the directory that it left returns no error, then
  -- LoadLatest returns the snapshot and the index and term that were saved.
  pub load_latest-save :
      (d : Disk) (snap : Snapshot) (meta : SnapshotMeta) {d' : Disk}
      {r : Option (Snapshot × SnapshotMeta)}
      → save d snap meta ≡ (none, d')
      → load_latest d' ≡ ok r
      → r ≡ some (snap, meta)
  unfolding save
  load_latest-save d snap meta {d' = d'} h l =
      let s = save_bytes-Saved d meta (marshal snap) h in
      loaded d' snap meta s.data_bytes s.meta_bytes s.marshalled s.data_file s.meta_file
        (Codec.decode-encode M meta s.meta_bytes s.encoded) l

  save_bytes-torn :
      (d : Disk) (meta : SnapshotMeta) {m : Result Bytes} {b mb : Bytes} {e : Error}
      {d1 d2 d3 : Disk}
      → m ≡ ok b
      → write_file_sync d tmp_data_path b ≡ (none, d1)
      → replace_file d1 tmp_data_path data_path ≡ (none, d2)
      → Codec.encode M meta ≡ ok mb
      → write_file_sync d2 tmp_meta_path mb ≡ (some e, d3)
      → save_bytes d meta m ≡ (some (wrapped (codes "writing snapshot meta") e), d3)
  save_bytes-torn d meta m w v enc fails = rw (m, w, v, enc, fails) refl

  -- If the directory holds a saved snapshot, and Save puts the new data in its place and then
  -- fails to write the temporary file of the index and term, then LoadLatest, where it returns no
  -- error, returns the new snapshot with the old index and term.
  pub load_latest-torn :
      (d : Disk) (snap : Snapshot) (meta old : SnapshotMeta) (b mb old_bytes : Bytes) (e : Error)
      {d1 d2 d3 : Disk} {r : Option (Snapshot × SnapshotMeta)}
      → files d meta_path ≡ some old_bytes
      → Codec.decode M old_bytes ≡ ok old
      → marshal snap ≡ ok b
      → Codec.encode M meta ≡ ok mb
      → write_file_sync d tmp_data_path b ≡ (none, d1)
      → replace_file d1 tmp_data_path data_path ≡ (none, d2)
      → write_file_sync d2 tmp_meta_path mb ≡ (some e, d3)
      → load_latest (save d snap meta).1 ≡ ok r
      → r ≡ some (snap, old)
  unfolding save
  load_latest-torn d snap meta old b mb old_bytes e {d2 = d2} {d3 = d3} {r = r} held dec m enc w v
        fails l =
      let placed = staged d tmp_data_path data_path b data_from_tmp w v in
      let kept : (q : Bytes) → ¬ (tmp_meta_path ≡ q) → files d3 q ≡ files d2 q = λ q n.
        sym (ap (λ (r : Option Error × Disk). files r.1 q) fails)
        ∙ write_file_sync-other d2 tmp_meta_path mb q n in
      loaded d3 snap old b old_bytes m (kept data_path data_from_tmp_meta ∙ placed.there)
        (kept meta_path meta_from_tmp'
          ∙ placed.others meta_path meta_from_tmp_data data_from_meta'
          ∙ held)
        dec
        (subst (λ (r' : Option Error × Disk). load_latest r'.1 ≡ ok r)
          (save_bytes-torn d meta m w v enc fails) l)
