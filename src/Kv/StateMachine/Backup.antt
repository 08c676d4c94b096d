-- ===== src/Kv/StateMachine/Backup.antt =====
-- A dump restored into another store, of internal/kv/state_machine.go.
use distributed_kv.Common.{
  ℕ, ◌≡◌, refl, ap, sym, ◌∙◌, ◌⊎◌, inl, inr, Option, none, some, Bytes, bytes_discrete, arith, ite,
  Error, true, List, [], ◌∷◌, ◌++◌, Result, ok, err, >>=-eq-ok, In, here, there, Option-cases, drop,
}
use mathlib.Core.Path.{fun_ext}
use distributed_kv.Common.Map
use distributed_kv.Common.Map.{Map, lookup-insert, lookup-delete}
use distributed_kv.Storage.{
  Engine, Contents, set, delete, apply_op, apply_batch, in_range, prefix_upper_bound, bytes_lt,
  bump,
}
use distributed_kv.Raft.Log.Keys.{apply_batch-append}
use distributed_kv.Kv.StateMachine.{
  StateMachine, Snapshot, Pairs, data_prefix, data_key, dump_pairs, dump, clear_ops, pair_ops,
  restore_items, restore, finish,
}
use distributed_kv.Kv.StateMachine.View.{view}

-- A key in the range that a dump walks is a data key.
data_key-of_in_range :
    (k : Bytes)
    → in_range data_prefix (prefix_upper_bound data_prefix) k ≡ true
    → (key : Bytes) × (k ≡ data_key key)
unfolding in_range prefix_upper_bound bytes_lt bump
data_key-of_in_range [] h = cc
data_key-of_in_range (a ∷ []) h = absurd (ground arith)
data_key-of_in_range (a ∷ b ∷ key) h =
    let p : a ≡ 100 = ground arith in let q : b ≡ 47 = ground arith in (key, rw (p, q) refl)

data_key-in_range :
    (key : Bytes) → in_range data_prefix (prefix_upper_bound data_prefix) (data_key key) ≡ true
unfolding in_range prefix_upper_bound bytes_lt bump
data_key-in_range key = ground arith

data_key_injective : (a b : Bytes) → data_key a ≡ data_key b → a ≡ b
data_key_injective a b e = ap (λ (k : Bytes). drop 2 k) e

-- No key stands twice.
abbrev IsDistinct : Pairs → Type 0
IsDistinct [] = Unit
IsDistinct ((k, v) ∷ m) = (Map.lookup bytes_discrete k m ≡ none) × IsDistinct m

delete-IsDistinct :
    (k : Bytes) (m : Pairs) → IsDistinct m → IsDistinct (Map.delete bytes_discrete k m)
unfolding Map.delete
delete-IsDistinct k [] d = tt
delete-IsDistinct k ((j, v) ∷ m) d = at (delete-IsDistinct k m d.1) (bytes_discrete j k)
  where
    at :
        IsDistinct (Map.delete bytes_discrete k m)
        → (e : Dec (j ≡ k))
        → IsDistinct
            (ite e (Map.delete bytes_discrete k m) ((j, v) ∷ Map.delete bytes_discrete k m))
    at ih (yes p) = ih
    at ih (no p) = (ground (arith, lookup-delete bytes_discrete k j m, d.0), ih)

insert-IsDistinct :
    (k v : Bytes) (m : Pairs) → IsDistinct m → IsDistinct (Map.insert bytes_discrete k v m)
unfolding Map.insert
insert-IsDistinct k v m d =
    (ground (arith, lookup-delete bytes_discrete k k m), delete-IsDistinct k m d)

dump_pairs-IsDistinct :
    (items : List (Bytes × Bytes)) (acc : Pairs)
    → IsDistinct acc
    → IsDistinct (dump_pairs items acc)
unfolding dump_pairs
dump_pairs-IsDistinct [] acc d = d
dump_pairs-IsDistinct ((k, v) ∷ items) acc d =
    dump_pairs-IsDistinct items (Map.insert bytes_discrete (drop 2 k) v acc)
      (insert-IsDistinct (drop 2 k) v acc d)

-- Every item is a data key with what the store holds there.
abbrev AllFrom : Contents → List (Bytes × Bytes) → Type 0
AllFrom c [] = Unit
AllFrom c ((k, v) ∷ items) = ((key : Bytes) × (k ≡ data_key key) × (c k ≡ some v)) × AllFrom c items

-- A dump has at each key what the store holds, if the walk met all that it holds.
lookup-dump_pairs :
    (c : Contents) (items : List (Bytes × Bytes)) (acc : Pairs) (key : Bytes)
    → AllFrom c items
    → (Map.lookup bytes_discrete key acc ≡ c (data_key key))
      ⊎ ((v : Bytes) × In (data_key key, v) items)
    → Map.lookup bytes_discrete key (dump_pairs items acc) ≡ c (data_key key)
unfolding dump_pairs
lookup-dump_pairs c [] acc key all (inl h) = h
lookup-dump_pairs c [] acc key all (inr (v, m)) = elim m [ ]
lookup-dump_pairs c ((k, v) ∷ items) acc key all h =
    let (own, p, q) = all.0 in
    let l = lookup-insert bytes_discrete own key v acc in
    rw p (
      lookup-dump_pairs c items (Map.insert bytes_discrete own v acc) key all.1
        (met own p q (bytes_discrete own key) l h))
  where
    met :
        (own : Bytes)
        → k ≡ data_key own
        → c k ≡ some v
        → (d : Dec (own ≡ key))
        → Map.lookup bytes_discrete key (Map.insert bytes_discrete own v acc)
          ≡ ite d (some v) (Map.lookup bytes_discrete key acc)
        → (Map.lookup bytes_discrete key acc ≡ c (data_key key))
          ⊎ ((w : Bytes) × In (data_key key, w) ((k, v) ∷ items))
        → (Map.lookup bytes_discrete key (Map.insert bytes_discrete own v acc) ≡ c (data_key key))
          ⊎ ((w : Bytes) × In (data_key key, w) items)
    met own p q (yes e) l h = inl (l ∙ sym q ∙ ap c (p ∙ ap (λ (a : Bytes). data_key a) e))
    met own p q (no e) l (inl h) = inl (l ∙ h)
    met own p q (no e) l (inr (w, here x)) =
        absurd (e (data_key_injective own key (sym p ∙ sym (ap (λ (z : Bytes × Bytes). z.0) x))))
    met own p q (no e) l (inr (w, there m)) = inr (w, m)

module _ ⦃E : Engine⦄ where
  -- What is cleared is gone.
  cleared :
      (items : List (Bytes × Bytes)) (c : Contents) (k : Bytes)
      → (c k ≡ none) ⊎ ((v : Bytes) × In (k, v) items)
      → apply_batch (clear_ops items) c k ≡ none
  unfolding apply_batch
  cleared [] c k (inl h) = h
  cleared [] c k (inr (v, m)) = elim m [ ]
  cleared ((j, w) ∷ items) c k h =
      cleared items (apply_op (delete j) c) k (go (bytes_discrete j k) h)
    where
      go :
          (d : Dec (j ≡ k))
          → (c k ≡ none) ⊎ ((v : Bytes) × In (k, v) ((j, w) ∷ items))
          → (ite d none (c k) ≡ none) ⊎ ((v : Bytes) × In (k, v) items)
      go (yes p) h = inl refl
      go (no p) (inl h) = inl h
      go (no p) (inr (v, here e)) = absurd (p (sym (ap (λ (x : Bytes × Bytes). x.0) e)))
      go (no p) (inr (v, there m)) = inr (v, m)

  abbrev over : Option Bytes → Option Bytes → Option Bytes
  over none o = o
  over (some v) o = some v

  -- What is written is found, and the rest stays.
  written :
      (m : Pairs) (c : Contents) (key : Bytes)
      → IsDistinct m
      → apply_batch (pair_ops m) c (data_key key)
        ≡ over (Map.lookup bytes_discrete key m) (c (data_key key))
  unfolding apply_batch Map.lookup
  written [] c key d = refl
  written ((j, w) ∷ m) c key d =
      written m (apply_op (set (data_key j) w) c) key d.1 ∙ go (bytes_discrete j key)
    where
      go :
          (e : Dec (j ≡ key))
          → over (Map.lookup bytes_discrete key m) (apply_op (set (data_key j) w) c (data_key key))
            ≡ over (ite e (some w) (Map.lookup bytes_discrete key m)) (c (data_key key))
      go (yes p) = ground (arith, d.0, p)
      go (no p) = ground (arith, data_key_injective j key)

  open E use {Db, contents, scan, scan-ok, commit, commit-ok}

  scanned-AllFrom :
      (c : Contents) (items : List (Bytes × Bytes))
      → ((k v : Bytes)
          → In (k, v) items
          → (c k ≡ some v) × (in_range data_prefix (prefix_upper_bound data_prefix) k ≡ true))
      → AllFrom c items
  scanned-AllFrom c [] h = tt
  scanned-AllFrom c ((k, v) ∷ items) h =
      let (f, r) = h k v (here refl) in
      let (key, p) = data_key-of_in_range k r in
      ((key, p, f), scanned-AllFrom c items (λ j w m. h j w (there m)))

  -- The walk of the data keys meets all that a store holds.
  met_all :
      (db : Db) (items : List (Bytes × Bytes)) (key : Bytes)
      → scan db data_prefix (prefix_upper_bound data_prefix) ≡ ok items
      → (contents db (data_key key) ≡ none) ⊎ ((v : Bytes) × In (data_key key, v) items)
  met_all db items key h = elim (Option-cases (contents db (data_key key))) [
    | inl e ↦ inl e
    | inr (v, e) ↦ inr (v, (scan-ok db _ _ items h (data_key key) v).1 (e, data_key-in_range key))
  ]

  -- What a dump holds at a key.
  lookup-dump :
      (s : StateMachine) (snap : Snapshot) (key : Bytes)
      → dump s ≡ ok snap
      → (Map.lookup bytes_discrete key snap.pairs ≡ view s key) × IsDistinct snap.pairs
  unfolding dump
  lookup-dump s snap key h =
      let (items, a, b) =
        >>=-eq-ok (scan s.engine data_prefix (prefix_upper_bound data_prefix))
          (λ items. ok (record { pairs = dump_pairs items [] })) h in
      let q : dump_pairs items [] ≡ snap.pairs = ap (λ (r : Result Snapshot). pairs_of r) b in
      rw (← q) (
        lookup-dump_pairs (contents s.engine) items [] key
            (scanned-AllFrom (contents s.engine) items
              (λ k v. (scan-ok s.engine _ _ items a k v).0))
            (elim (met_all s.engine items key a) [
              | inl e ↦ inl (unfold Map.lookup in sym e)
              | inr m ↦ inr m
            ]),
        dump_pairs-IsDistinct items [] tt,
      )
    where
      pairs_of : Result Snapshot → Pairs
      pairs_of (ok s) = s.pairs
      pairs_of (err _) = []

  -- If Dump of one state machine succeeds and Restore of that dump into another returns no error,
  -- then the other holds afterwards at every key what the first one holds, whatever it held
  -- before.
  pub view-restore-dump :
      (s t : StateMachine) (snap : Snapshot) (index : ℕ)
      → dump s ≡ ok snap
      → (restore t snap index).0 ≡ none
      → view (restore t snap index).1 ≡ view s
  unfolding restore
  view-restore-dump s t snap index h g =
      fun_ext λ key. go key (scan t.engine data_prefix (prefix_upper_bound data_prefix)) refl g
    where
      over-none : (o : Option Bytes) → over o none ≡ o
      over-none none = refl
      over-none (some v) = refl

      finished :
          (o : Option Error × Db)
          → (finish o t index).0 ≡ none
          → (o.0 ≡ none) × ((finish o t index).1.engine ≡ o.1)
      finished (none, db) e = (refl, refl)
      finished (some x, db) e = cc

      go :
          (key : Bytes) (r : Result (List (Bytes × Bytes)))
          → scan t.engine data_prefix (prefix_upper_bound data_prefix) ≡ r
          → (restore_items t snap index r).0 ≡ none
          → view (restore_items t snap index r).1 key ≡ view s key
      go key (err e) q f = cc
      go key (ok items) q f =
          let (a, b) =
            finished
              (commit t.engine (clear_ops items ++ pair_ops snap.pairs) (record { sync = true }))
              f in
          let (l, d) = lookup-dump s snap key h in
          ap (λ (db : Db). contents db (data_key key)) b
          ∙ ap (λ (c : Contents). c (data_key key)) (commit-ok t.engine _ _ a)
          ∙ ap (λ (c : Contents). c (data_key key))
              (apply_batch-append (clear_ops items) (pair_ops snap.pairs) (contents t.engine))
          ∙ written snap.pairs (apply_batch (clear_ops items) (contents t.engine)) key d
          ∙ ap (over (Map.lookup bytes_discrete key snap.pairs))
              (cleared items (contents t.engine) (data_key key) (met_all t.engine items key q))
          ∙ over-none (Map.lookup bytes_discrete key snap.pairs)
          ∙ l
