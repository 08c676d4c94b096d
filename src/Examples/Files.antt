-- ===== src/Examples/Files.antt =====
-- A directory in memory whose calls succeed.
use distributed_kv.Common.{
  ◌≡◌, refl, Option, none, some, Bytes, bytes_discrete, codes, arith, if_neg, Error, ok, err,
  not_found, or_error,
}
use distributed_kv.Raft.SnapshotStore.{FileSystem, Files, with_file}

abbrev pub move : Files → Bytes → Bytes → Option Bytes → Option Error × Files
move d p q none = (some not_found, d)
move d p q (some b) = (none, with_file (with_file d p none) q (some b))

pub read-ok : (o : Option Bytes) (b : Bytes) → or_error not_found o ≡ ok b → o ≡ some b
read-ok o b h = ground arith

pub read-not_found : (o : Option Bytes) → or_error not_found o ≡ err not_found → o ≡ none
read-not_found o h = ground arith

pub move-ok :
    (d : Files) (p q b : Bytes) (o : Option Bytes)
    → o ≡ some b
    → (move d p q o).1 ≡ with_file (with_file d p none) q (some b)
move-ok d p q b none e = cc
move-ok d p q b (some c) e = let s : c ≡ b = cc in rw s

pub move-err :
    (d : Files) (p q : Bytes) (e : Error) (o : Option Bytes)
    → (move d p q o).0 ≡ some e
    → (move d p q o).1 ≡ d
move-err d p q e none h = refl
move-err d p q e (some c) h = cc

instance abbrev pub memory_files : FileSystem
memory_files = record {
  Disk = Files;
  files = λ d. d;
  open_trunc = λ d p. (none, with_file d p (some (codes "")));
  write = λ d p b. (none, with_file d p (some b));
  sync = λ d p. (none, d);
  close = λ d p. (none, d);
  rename = λ d p q. move d p q (d p);
  remove = λ d p. (none, with_file d p none);
  read_file = λ d p. or_error not_found (d p);
  open-ok = λ d p h. refl;
  open-other = λ d p q h. if_neg (bytes_discrete p q) h _ _;
  write-ok = λ d p b h g. refl;
  write-other = λ d p b q h. if_neg (bytes_discrete p q) h _ _;
  sync-files = λ d p. refl;
  close-files = λ d p. refl;
  rename-ok = λ d p q b h g. move-ok d p q b (d p) g;
  rename-err = λ d p q e h. move-err d p q e (d p) h;
  remove-other = λ d p q h. if_neg (bytes_discrete p q) h _ _;
  read-ok = λ d p b h. read-ok (d p) b h;
  read-not_found = λ d p h. read-not_found (d p) h;
}

abbrev pub no_files : Files
no_files name = none
