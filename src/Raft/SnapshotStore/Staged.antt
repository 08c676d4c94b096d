-- ===== src/Raft/SnapshotStore/Staged.antt =====
-- writeFileSync and replaceFile of internal/raft/snapshot.go: a file written and moved to its place.
use distributed_kv.Common.{
  ◌≡◌, refl, sym, ap, ◌∙◌, Option, none, some, Bytes, bytes_discrete, codes, if_pos, if_neg, Error,
  not_found,
}
use distributed_kv.Storage.{Codec}
use distributed_kv.Kv.StateMachine.{Pairs}
use distributed_kv.Raft.SnapshotStore.{
  Files, with_file, FileSystem, SnapshotMeta, and_then, fail_as, closing, write_file_sync,
  after_remove, retry_rename, replace_file,
}

-- A step of a chain that succeeds.
and_then-none {ℓ} :
    {D : Type ℓ} (first : Option Error × D) (next : D → Option Error × D) {d : D}
    → and_then first next ≡ (none, d)
    → (d' : D) × (first ≡ (none, d')) × (next d' ≡ (none, d))
and_then-none (none, d') next h = (d', refl, h)
and_then-none (some e, d') next h = cc

fail_as-none {ℓ} :
    {D : Type ℓ} (text : Bytes) (first : Option Error × D) {d : D}
    → fail_as text first ≡ (none, d)
    → first ≡ (none, d)
fail_as-none text (none, d') h = h
fail_as-none text (some e, d') h = cc

with_file-same : (f : Files) (p : Bytes) (c : Option Bytes) → with_file f p c p ≡ c
with_file-same f p c = if_pos (bytes_discrete p p) refl _ _

with_file-other : (f : Files) (p q : Bytes) (c : Option Bytes) → ¬ (p ≡ q) → with_file f p c q ≡ f q
with_file-other f p q c ne = if_neg (bytes_discrete p q) ne _ _

module _ ⦃F : FileSystem⦄ ⦃P : Codec Pairs⦄ ⦃M : Codec SnapshotMeta⦄ where
  open F use {
    Disk, open_trunc, write, sync, close, rename, remove, read_file, files, open-ok, open-other,
    write-ok, write-other, sync-files, close-files, rename-ok, rename-err, remove-other, read-ok,
    read-not_found,
  }

  closing-none :
      (path : Bytes) (r : Option Error × Disk) {d : Disk}
      → closing path r ≡ (none, d)
      → r ≡ (none, d)
  closing-none path (none, d') h = h
  closing-none path (some e, d') h = cc

  closing-files : (path : Bytes) (r : Option Error × Disk) → files (closing path r).1 ≡ files r.1
  closing-files path (none, d') = refl
  closing-files path (some e, d') = close-files d' path

  and_then-at :
      (q : Bytes) (c : Option Bytes) (r : Option Error × Disk) (next : Disk → Option Error × Disk)
      → files r.1 q ≡ c
      → ((d : Disk) → files (next d).1 q ≡ files d q)
      → files (and_then r next).1 q ≡ c
  and_then-at q c (none, d) next h g = g d ∙ h
  and_then-at q c (some e, d) next h g = h

  -- A file that writeFileSync wrote without an error.
  write_file_sync-ok :
      (d : Disk) (path b : Bytes) {d' : Disk}
      → write_file_sync d path b ≡ (none, d')
      → files d' path ≡ some b
  unfolding write_file_sync
  write_file_sync-ok d path b h =
      let (d1, opened, h1) = and_then-none (open_trunc d path) _ h in
      let (d2, closed, h2) = and_then-none (closing path (write d1 path b)) _ h1 in
      let (d3, synced, h3) = and_then-none (closing path (sync d2 path)) _ h2 in
      let written = closing-none path (write d1 path b) closed in
      let emptied = sym (ap (λ r. files r.1) opened) ∙ open-ok d path (ap (λ r. r.0) opened) in
      ap (λ f. f path)
        (sym (ap (λ r. files r.1) h3)
          ∙ close-files d3 path
          ∙ sym (ap (λ r. files r.1) (closing-none path (sync d2 path) synced))
          ∙ sync-files d2 path
          ∙ sym (ap (λ r. files r.1) written)
          ∙ write-ok d1 path b (ap (λ r. r.0) written)
              (ap (λ f. f path) emptied ∙ with_file-same (files d) path (some (codes ""))))
      ∙ with_file-same (files d1) path (some b)

  -- Whether it fails or not, no other file changes.
  pub write_file_sync-other :
      (d : Disk) (path b q : Bytes)
      → ¬ (path ≡ q)
      → files (write_file_sync d path b).1 q ≡ files d q
  unfolding write_file_sync
  write_file_sync-other d path b q ne =
      and_then-at q (files d q) (open_trunc d path) _ (open-other d path q ne) λ d1.
        and_then-at q (files d1 q) (closing path (write d1 path b)) _
          (ap (λ f. f q) (closing-files path (write d1 path b)) ∙ write-other d1 path b q ne)
          λ d2.
            and_then-at q (files d2 q) (closing path (sync d2 path)) _
              (ap (λ f. f q) (closing-files path (sync d2 path) ∙ sync-files d2 path))
              λ d3. ap (λ f. f q) (close-files d3 path)

  -- A rename that succeeds moves the file and changes no other.
  pub record Moved (d d' : Disk) (src dst b : Bytes) : Type 0 where
    pub there : files d' dst ≡ some b
    pub others : (q : Bytes) → ¬ (src ≡ q) → ¬ (dst ≡ q) → files d' q ≡ files d q

  rename-Moved :
      (d : Disk) (src dst b : Bytes) {d' : Disk}
      → files d src ≡ some b
      → rename d src dst ≡ (none, d')
      → Moved d d' src dst b
  rename-Moved d src dst b held h =
      let e = sym (ap (λ r. files r.1) h) ∙ rename-ok d src dst b (ap (λ r. r.0) h) held in
      record {
        there = ap (λ f. f dst) e ∙ with_file-same (with_file (files d) src none) dst (some b);
        others = λ q n1 n2.
            ap (λ f. f q) e
            ∙ with_file-other (with_file (files d) src none) dst q (some b) n2
            ∙ with_file-other (files d) src q none n1;
      }

  replace_file-Moved :
      (d : Disk) (src dst b : Bytes) {d' : Disk}
      → ¬ (dst ≡ src)
      → files d src ≡ some b
      → replace_file d src dst ≡ (none, d')
      → Moved d d' src dst b
  unfolding replace_file
  replace_file-Moved d src dst b {d' = d'} ne held h = go (rename d src dst) refl h
    where
      moved :
          (d1 d2 : Disk)
          → ((q : Bytes) → ¬ (dst ≡ q) → files d1 q ≡ files d q)
          → ((q : Bytes) → ¬ (dst ≡ q) → files d2 q ≡ files d1 q)
          → rename d2 src dst ≡ (none, d')
          → Moved d d' src dst b
      moved d1 d2 s1 s2 h =
          let m = rename-Moved d2 src dst b (s2 src ne ∙ s1 src ne ∙ held) h in
          record { there = m.there; others = λ q n1 n2. m.others q n1 n2 ∙ s2 q n2 ∙ s1 q n2 }

      removed :
          (d1 : Disk) (r : Option Error × Disk)
          → ((q : Bytes) → ¬ (dst ≡ q) → files d1 q ≡ files d q)
          → ((q : Bytes) → ¬ (dst ≡ q) → files r.1 q ≡ files d1 q)
          → after_remove r src dst ≡ (none, d')
          → Moved d d' src dst b
      removed d1 (none, d2) s1 s2 h = moved d1 d2 s1 s2 h
      removed d1 (some not_found, d2) s1 s2 h = moved d1 d2 s1 s2 h
      removed d1 (some e, d2) s1 s2 h = cc

      go :
          (r : Option Error × Disk)
          → rename d src dst ≡ r
          → retry_rename r src dst ≡ (none, d')
          → Moved d d' src dst b
      go (none, d1) e h = rename-Moved d src dst b held (e ∙ h)
      go (some x, d1) e h =
          removed d1 (remove d1 dst)
            (λ q n.
              ap (λ f. f q)
                (sym (ap (λ (r : Option Error × Disk). files r.1) e)
                  ∙ rename-err d src dst x (ap (λ (r : Option Error × Disk). r.0) e)))
            (λ q n. remove-other d1 dst q n) h

  -- A file is written under a temporary name and moved to its place.
  pub staged :
      (d : Disk) (tmp dst b : Bytes) {d1 d2 : Disk}
      → ¬ (dst ≡ tmp)
      → write_file_sync d tmp b ≡ (none, d1)
      → replace_file d1 tmp dst ≡ (none, d2)
      → Moved d d2 tmp dst b
  staged d tmp dst b {d1 = d1} ne written moved =
      let m = replace_file-Moved d1 tmp dst b ne (write_file_sync-ok d tmp b written) moved in
      record {
        there = m.there;
        others = λ q n1 n2.
            m.others q n1 n2
            ∙ sym (ap (λ (r : Option Error × Disk). files r.1 q) written)
            ∙ write_file_sync-other d tmp b q n1;
      }

  pub staged-and_then :
      (d : Disk) (tmp dst b text text' : Bytes) (next : Disk → Option Error × Disk) {d' : Disk}
      → ¬ (dst ≡ tmp)
      → and_then
          (fail_as text (write_file_sync d tmp b))
          (λ d1. and_then (fail_as text' (replace_file d1 tmp dst)) next)
        ≡ (none, d')
      → (d2 : Disk) × Moved d d2 tmp dst b × (next d2 ≡ (none, d'))
  staged-and_then d tmp dst b text text' next ne h =
      let (d1, w, h1) = and_then-none (fail_as text (write_file_sync d tmp b)) _ h in
      let (d2, v, h2) = and_then-none (fail_as text' (replace_file d1 tmp dst)) next h1 in
      (
        d2,
        staged d tmp dst b ne (fail_as-none text (write_file_sync d tmp b) w)
            (fail_as-none text' (replace_file d1 tmp dst) v),
        h2,
      )

  pub staged-last :
      (d : Disk) (tmp dst b text text' : Bytes) {d' : Disk}
      → ¬ (dst ≡ tmp)
      → and_then
          (fail_as text (write_file_sync d tmp b))
          (λ d1. fail_as text' (replace_file d1 tmp dst))
        ≡ (none, d')
      → Moved d d' tmp dst b
  staged-last d tmp dst b text text' ne h =
      let (d1, w, h1) = and_then-none (fail_as text (write_file_sync d tmp b)) _ h in
      staged d tmp dst b ne (fail_as-none text (write_file_sync d tmp b) w)
        (fail_as-none text' (replace_file d1 tmp dst) h1)
