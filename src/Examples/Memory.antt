-- ===== src/Examples/Memory.antt =====
-- An engine in memory that meets the contract of internal/storage/storage.go. With `broken` every
-- write fails, and reads still succeed.
use distributed_kv.Common.{
  ◌≡◌, refl, ap, ◌∙◌, ◌↔◌, Bool, true, false, Option, none, some, List, [], ◌∷◌, Bytes,
  bytes_discrete, arith, Error, Result, ok, err, In, here, there, or_error, not_found,
  if◌then◌else◌, other,
}
use mathlib.Core.Path.{fun_ext}
use distributed_kv.Common.Map
use distributed_kv.Common.Map.{Map, lookup-insert, lookup-delete}
use distributed_kv.Storage.{Engine, BatchOp, set, delete, Contents, apply_op, apply_batch, in_range}

abbrev pub Store : Type 0
Store = Map Bytes Bytes

abbrev pub found_in : Store → Contents
found_in m k = Map.lookup bytes_discrete k m

abbrev pub run_op : BatchOp → Store → Store
run_op (set k v) m = Map.insert bytes_discrete k v m
run_op (delete k) m = Map.delete bytes_discrete k m

unfoldable pub run_ops : List BatchOp → Store → Store
run_ops [] m = m
run_ops (op ∷ ops) m = run_ops ops (run_op op m)

found_in-run_op : (op : BatchOp) (m : Store) → found_in (run_op op m) ≡ apply_op op (found_in m)
found_in-run_op (set k v) m = fun_ext λ j. lookup-insert bytes_discrete k j v m
found_in-run_op (delete k) m = fun_ext λ j. lookup-delete bytes_discrete k j m

found_in-run_ops :
    (ops : List BatchOp) (m : Store) → found_in (run_ops ops m) ≡ apply_batch ops (found_in m)
unfolding run_ops apply_batch
found_in-run_ops [] m = refl
found_in-run_ops (op ∷ ops) m =
    found_in-run_ops ops (run_op op m) ∙ ap (apply_batch ops) (found_in-run_op op m)

-- The items of a walk: the keys of `items` that lie in the range, with what `m` holds at them.
abbrev pub add_item : Bytes → Option Bytes → List (Bytes × Bytes) → List (Bytes × Bytes)
add_item k none rest = rest
add_item k (some v) rest = (k, v) ∷ rest

unfoldable pub items_of : Store → Bytes → Option Bytes → Store → List (Bytes × Bytes)
items_of m lower upper [] = []
items_of m lower upper ((k, _) ∷ items) =
    let rest = items_of m lower upper items in
    if in_range lower upper k then add_item k (found_in m k) rest else rest

grows :
    {q : Bytes × Bytes} {rest : List (Bytes × Bytes)} (b : Bool) (j : Bytes) (o : Option Bytes)
    → In q rest
    → In q (if b then add_item j o rest else rest)
grows false j o h = h
grows true j none h = h
grows true j (some x) h = there h

module _ (m : Store) (lower : Bytes) (upper : Option Bytes) where
  walked :
      (items : Store) (k v : Bytes)
      → In (k, v) (items_of m lower upper items)
      → (found_in m k ≡ some v) × (in_range lower upper k ≡ true)
  unfolding items_of
  walked [] k v h = elim h [ ]
  walked ((j, w) ∷ items) k v h =
      go (in_range lower upper j) refl (found_in m j) refl (walked items k v) h
    where
      go :
          (b : Bool)
          → in_range lower upper j ≡ b
          → (o : Option Bytes) → found_in m j ≡ o
          → (In (k, v) (items_of m lower upper items)
              → (found_in m k ≡ some v) × (in_range lower upper k ≡ true))
          → In
              (k, v)
              (if b
                then add_item j o (items_of m lower upper items)
                else items_of m lower upper items)
          → (found_in m k ≡ some v) × (in_range lower upper k ≡ true)
      go false e o f ih h = ih h
      go true e none f ih h = ih h
      go true e (some x) f ih (here p) =
          let a : k ≡ j = ap (λ (q : Bytes × Bytes). q.0) p in
          let b : v ≡ x = ap (λ (q : Bytes × Bytes). q.1) p in (rw (a, b) f, rw a e)
      go true e (some x) f ih (there t) = ih t

  walks :
      (items : Store) (k v : Bytes)
      → found_in m k ≡ some v
      → in_range lower upper k ≡ true
      → (w : Bytes) → found_in items k ≡ some w
      → In (k, v) (items_of m lower upper items)
  unfolding items_of Map.lookup
  walks [] k v f r w h = absurd (false-none h)
    where
      false-none : {w : Bytes} → ◌≡◌ {A = Option Bytes} none (some w) → ⊥
      false-none e = ground arith
  walks ((j, x) ∷ items) k v f r w h = elim (bytes_discrete j k) [
    | yes p ↦ rw (p, r, f) (here refl)
    | no p ↦ grows (in_range lower upper j) j (found_in m j) (walks items k v f r w (ground arith))
  ]

abbrev pub written : Bool → List BatchOp → Store → Option Error × Store
written false ops m = (none, run_ops ops m)
written true ops m = (some (other []), m)

-- `broken` says whether the writes fail.
unfoldable pub memory_commit : Bool → Store → List BatchOp → Option Error × Store
unfolding run_ops
memory_commit broken m ops = written broken ops m

unfoldable pub answer_of : Option Bytes → Result Bytes
answer_of o = or_error not_found o

pub answer_of-ok : (o : Option Bytes) (v : Bytes) → answer_of o ≡ ok v → o ≡ some v
unfolding answer_of
answer_of-ok o v h = ground arith

pub answer_of-not_found : (o : Option Bytes) → answer_of o ≡ err not_found → o ≡ none
unfolding answer_of
answer_of-not_found o h = ground arith

pub commits-ok :
    (broken : Bool) (m : Store) (ops : List BatchOp)
    → (memory_commit broken m ops).0 ≡ none
    → found_in (memory_commit broken m ops).1 ≡ apply_batch ops (found_in m)
unfolding memory_commit
commits-ok false m ops h = found_in-run_ops ops m
commits-ok true m ops h = absurd (not_some h)
  where
    not_some : ◌≡◌ {A = Option Error} (some (other [])) none → ⊥
    not_some e = ground arith

pub commits-err :
    (broken : Bool) (m : Store) (ops : List BatchOp) (e : Error)
    → (memory_commit broken m ops).0 ≡ some e
    → found_in (memory_commit broken m ops).1 ≡ found_in m
unfolding memory_commit
commits-err false m ops e h = absurd (not_none h)
  where
    not_none : {e : Error} → ◌≡◌ {A = Option Error} none (some e) → ⊥
    not_none e = ground arith
commits-err true m ops e h = refl

pub one-op :
    (broken : Bool) (m : Store) (op : BatchOp)
    → (memory_commit broken m (op ∷ [])).0 ≡ none
    → found_in (memory_commit broken m (op ∷ [])).1 ≡ apply_op op (found_in m)
one-op broken m op h = commits-ok broken m (op ∷ []) h ∙ (unfold apply_batch in refl)

pub scanned-ok :
    (m : Store) (lower : Bytes) (upper : Option Bytes) (l : List (Bytes × Bytes))
    → ok (items_of m lower upper m) ≡ ok l
    → (k v : Bytes) → In (k, v) l ↔ ((found_in m k ≡ some v) × (in_range lower upper k ≡ true))
scanned-ok m lower upper l e k v =
    rw (← ok_inj e) (walked m lower upper m k v, λ (f, r). walks m lower upper m k v f r v f)
  where
    ok_inj : {a b : List (Bytes × Bytes)} → ok a ≡ ok b → a ≡ b
    ok_inj e = cc

abbrev pub memory_engine : Bool → Engine
memory_engine broken = record {
  Db = Store;
  contents = λ m k. Map.lookup bytes_discrete k m;
  get = λ m k. answer_of (Map.lookup bytes_discrete k m);
  set_key = λ m k v o. memory_commit broken m (set k v ∷ []);
  delete_key = λ m k o. memory_commit broken m (delete k ∷ []);
  commit = λ m ops o. memory_commit broken m ops;
  scan = λ m lower upper. ok (items_of m lower upper m);
  get-ok = λ m k v h. answer_of-ok (Map.lookup bytes_discrete k m) v h;
  get-not_found = λ m k h. answer_of-not_found (Map.lookup bytes_discrete k m) h;
  set-ok = λ m k v o h. one-op broken m (set k v) h;
  set-err = λ m k v o e h. commits-err broken m (set k v ∷ []) e h;
  delete-ok = λ m k o h. one-op broken m (delete k) h;
  delete-err = λ m k o e h. commits-err broken m (delete k ∷ []) e h;
  commit-ok = λ m b o h. commits-ok broken m b h;
  commit-err = λ m b o e h. commits-err broken m b e h;
  scan-ok = λ m lower upper l e k v. scanned-ok m lower upper l e k v;
}
