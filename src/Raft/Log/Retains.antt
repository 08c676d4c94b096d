-- ===== src/Raft/Log/Retains.antt =====
-- The batches of internal/raft/log.go on what the engine holds: a suffix deleted, a prefix deleted,
-- consecutive entries written, and metadata written.
use distributed_kv.Common.{
  ℕ, zero, suc, ◌+◌, ◌-◌, ◌≤◌, ◌<◌, ◌≡◌, refl, ap, inl, inr, true, false, none, some, List, [], ◌∷◌,
  Bytes, arith, u64_mod, count_from, upto, length, get_elem?, if◌then◌else◌, ok, ltb, dec_le,
}
use distributed_kv.Storage.{
  Codec, Contents, BatchOp, set, apply_op, apply_batch, in_range, prefix_upper_bound,
}
use distributed_kv.Raft.Entry.{Entry}
use distributed_kv.Raft.Log.{log_prefix, log_key}
use distributed_kv.Raft.Log.Writes.{delete_keys, encode_sets}
use distributed_kv.Raft.Log.Keys.{
  entry_at, within, IsMeta, IsContiguous, log_key-ne-meta, meta-in_range, apply_batch-delete_keys,
  delete_keys-found, apply_batch-encode_sets, encode_sets-found,
}
use distributed_kv.Raft.Log.Valid.{Retains}

-- Consecutive entries: the one at each place has the index of that place.
pub get_elem?-IsContiguous :
    (a i : ℕ) (es : List Entry)
    → IsContiguous a es
    → i < length es
    → (e : Entry) × (get_elem? es i ≡ some e) × (e.index ≡ a + i)
get_elem?-IsContiguous a i [] h lt = absurd (omega arith)
get_elem?-IsContiguous a zero (x ∷ xs) h lt = (x, refl, omega (arith, h.0))
get_elem?-IsContiguous a (suc i) (x ∷ xs) h lt =
    let (e, p, q) = get_elem?-IsContiguous (suc a) i xs h.1 (omega arith) in
    (e, p, omega (arith, q))

module _ ⦃C : Codec Entry⦄ {c : Contents} {index last_index : ℕ}
    (h : Retains c index last_index) where
  -- The contents after a run of indices is deleted.
  abbrev without : ℕ → ℕ → Contents
  without a n = apply_batch (delete_keys (count_from a n)) c

  without-entry :
      (a n i : ℕ)
      → a + n ≤ u64_mod
      → i < u64_mod
      → entry_at (without a n) i ≡ (if within a n i then none else entry_at c i)
  without-entry a n i fits hi = ground (arith, apply_batch-delete_keys a n i c fits hi)

  -- What a deletion of `a …` leaves stands outside the run.
  without-keys :
      (a n : ℕ) (k v : Bytes)
      → a + n ≤ u64_mod
      → without a n k ≡ some v
      → in_range log_prefix (prefix_upper_bound log_prefix) k ≡ true
      → (i : ℕ) × (k ≡ log_key i)
        × (i < u64_mod)
        × (index < i)
        × (i ≤ last_index)
        × (within a n i ≡ false)
  without-keys a n k v fits f r =
      let (i, p, q, s, t) = h.keys k v (delete_keys-found a n k v c f) r in
      (i, p, q, s, t, ground (arith, apply_batch-delete_keys a n i c fits q))

  -- Deleting everything from `a` on leaves the log up to `a`.
  pub Retains-delete_suffix :
      (a : ℕ)
      → index < a
      → a ≤ last_index + 1
      → last_index < u64_mod
      → Retains (apply_batch (delete_keys (upto a last_index)) c) index (a - 1)
  Retains-delete_suffix a lo hi fits = record {
    inside = λ i p q.
        let (e, x, y) = h.inside i p (omega arith) in
        (e, ground (arith, without-entry a (suc last_index - a) i), y);
    keys = λ k v f r.
        let (i, p, q, s, t, u) = without-keys a (suc last_index - a) k v (omega arith) f r in
        (i, p, q, s, ground arith);
  }

  -- Deleting a prefix moves the boundary.
  pub Retains-delete_prefix :
      (b m : ℕ)
      → index ≤ b
      → last_index < u64_mod
      → b < u64_mod
      → m ≡ (if ltb last_index b then last_index else b)
      → Retains
          (apply_batch (delete_keys (upto (index + 1) m)) c)
          b
          (if ltb last_index b then b else last_index)
  Retains-delete_prefix b m lo fits fitb em = record {
    inside = λ i p q.
        let (e, x, y) = h.inside i (omega arith) (ground arith) in
        (e, ground (arith, without-entry (index + 1) (suc m - (index + 1)) i), y);
    keys = λ k v f r.
        let (i, p, q, s, t, u) =
          without-keys (index + 1) (suc m - (index + 1)) k v (ground arith) f r in
        (i, p, q, ground arith, ground arith);
  }

  -- Consecutive entries written behind the last one.
  pub Retains-encode_sets :
      (es : List Entry) (ops : List BatchOp)
      → index ≤ last_index
      → IsContiguous (suc last_index) es
      → last_index + length es < u64_mod
      → encode_sets es ≡ ok ops
      → Retains (apply_batch ops c) index (last_index + length es)
  Retains-encode_sets es ops lo cont fits enc = record {
    inside = λ i p q. at i p q;
    keys = λ k v f r. elim (encode_sets-found (suc last_index) es ops k v c cont enc f) [
      | inl (i, p, q, s) ↦ (i, p, omega arith, omega arith, omega arith)
      | inr g ↦ let (i, p, q, s, t) = h.keys k v g r in (i, p, q, s, omega arith)
    ];
  }
    where
      written :
          (i : ℕ)
          → i < u64_mod
          → entry_at (apply_batch ops c) i ≡ (
              if within (suc last_index) (length es) i
              then get_elem? es (i - suc last_index)
              else entry_at c i)
      written i hi = apply_batch-encode_sets (suc last_index) i es ops c cont (omega arith) hi enc

      at :
          (i : ℕ)
          → index < i
          → i ≤ last_index + length es
          → (e : Entry) × (entry_at (apply_batch ops c) i ≡ some e) × (e.index ≡ i)
      at i p q = elim (dec_le i last_index) [
        | yes old ↦ let (e, x, y) = h.inside i p old in (e, ground (arith, written i), y)
        | no new ↦
            let (e, x, y) =
              get_elem?-IsContiguous (suc last_index) (i - suc last_index) es cont (omega arith) in
            (e, ground (arith, written i), omega arith)
      ]

  -- Writing a metadata key changes nothing of the log.
  pub Retains-set_meta : (k v : Bytes) → IsMeta k → Retains (apply_op (set k v) c) index last_index
  Retains-set_meta k v m = record {
    inside =
        λ i p q. let (e, x, y) = h.inside i p q in (e, ground (arith, log_key-ne-meta i k m), y);
    keys = λ j w f r.
        h.keys j w
          (ground (
            arith,
            meta-in_range k m,
            ap (in_range log_prefix (prefix_upper_bound log_prefix)) {x = k} {y = j},
          ))
          r;
  }
