-- ===== src/Raft/Log/Keys.antt =====
-- The keys of the log in the engine: logKey and the keys of the metadata in internal/raft/log.go.
use distributed_kv.Common.{
  >>=-eq-ok, ◌>>=◌, ℕ, zero, suc, ◌+◌, ◌-◌, ◌≤◌, ◌<◌, ◌≡◌, ◌≢◌, ap, refl, sym, ◌⊎◌, inl, inr, Bool,
  true, false, ◌&&◌, Option, none, some, List, [], ◌∷◌, ◌++◌, arith, ltb, leb, if◌then◌else◌,
  count_from, Bytes, bytes_discrete, u64_mod, put_uint64, uint64-put_uint64, get_elem?, length,
  Result, ok, err,
}
use distributed_kv.Storage.{
  Codec, Contents, BatchOp, set, delete, apply_op, apply_batch, in_range, prefix_upper_bound,
}
use distributed_kv.Raft.Entry.{Entry}
use distributed_kv.Raft.Log.{
  log_prefix, log_key, index_from_log_key, key_term, key_voted_for, key_last_included_index,
  key_last_included_term,
}
use distributed_kv.Raft.Log.Writes.{delete_keys, encode_sets}

-- indexFromLogKey reads an index below 2^64 back from its key.
pub index_from_log_key-log_key : (i : ℕ) → i < u64_mod → index_from_log_key (log_key i) ≡ some i
index_from_log_key-log_key i h = uint64-put_uint64 i h

pub log_key_injective : (i j : ℕ) → i < u64_mod → j < u64_mod → log_key i ≡ log_key j → i ≡ j
log_key_injective i j hi hj e =
    cc (index_from_log_key-log_key i hi, index_from_log_key-log_key j hj, ap index_from_log_key e)

-- Every key of the log lies in the range that OpenPersistentLog walks.
pub log_key-in_range :
    (i : ℕ) → in_range log_prefix (prefix_upper_bound log_prefix) (log_key i) ≡ true
unfolding in_range prefix_upper_bound put_uint64
log_key-in_range i = refl

abbrev pub IsMeta : Bytes → Type 0
IsMeta k =
    (k ≡ key_term)
    ⊎ (k ≡ key_voted_for)
    ⊎ (k ≡ key_last_included_index)
    ⊎ (k ≡ key_last_included_term)

pub log_key-ne-meta : (i : ℕ) (k : Bytes) → IsMeta k → log_key i ≢ k
log_key-ne-meta i k m e = ground arith

pub apply_batch-append :
    (a b : List BatchOp) (c : Contents) → apply_batch (a ++ b) c ≡ apply_batch b (apply_batch a c)
unfolding apply_batch
apply_batch-append [] b c = refl
apply_batch-append (op ∷ a) b c = apply_batch-append a b (apply_op op c)

-- `j` is one of the `n` indices from `a` on.
abbrev pub within : ℕ → ℕ → ℕ → Bool
within a n j = leb a j && ltb j (a + n)

-- Deleting a run of indices empties their keys, and no other key of the log.
pub apply_batch-delete_keys :
    (a n j : ℕ) (c : Contents)
    → a + n ≤ u64_mod
    → j < u64_mod
    → apply_batch (delete_keys (count_from a n)) c (log_key j)
      ≡ (if within a n j then none else c (log_key j))
unfolding apply_batch
apply_batch-delete_keys a zero j c h hj = ground arith
apply_batch-delete_keys a (suc n) j c h hj = ground (
  arith,
  apply_batch-delete_keys (suc a) n j (apply_op (delete (log_key a)) c),
  log_key_injective a j,
)

pub delete_keys-other :
    (a n : ℕ) (k : Bytes) (c : Contents)
    → ((i : ℕ) → log_key i ≢ k)
    → apply_batch (delete_keys (count_from a n)) c k ≡ c k
unfolding apply_batch
delete_keys-other a zero k c h = refl
delete_keys-other a (suc n) k c h =
    ground (arith, h a, delete_keys-other (suc a) n k (apply_op (delete (log_key a)) c) h)

-- What is found after a deletion was there before it.
pub delete_keys-found :
    (a n : ℕ) (k v : Bytes) (c : Contents)
    → apply_batch (delete_keys (count_from a n)) c k ≡ some v
    → c k ≡ some v
unfolding apply_batch
delete_keys-found a zero k v c h = h
delete_keys-found a (suc n) k v c h =
    ground (arith, delete_keys-found (suc a) n k v (apply_op (delete (log_key a)) c))

-- The entries of a list have the indices from `a` on, in order.
abbrev pub IsContiguous : ℕ → List Entry → Type 0
IsContiguous a [] = Unit
IsContiguous a (e ∷ es) = (e.index ≡ a) × IsContiguous (suc a) es

pub get_elem?-suc :
    (xs : List Entry) (x : Entry) (i : ℕ) → i ≢ 0 → get_elem? (x ∷ xs) i ≡ get_elem? xs (i - 1)
get_elem?-suc xs x zero h = absurd (h refl)
get_elem?-suc xs x (suc i) h = ap (get_elem? xs) (omega arith)

-- No metadata key lies in the range of the log.
pub meta-in_range :
    (k : Bytes) → IsMeta k → in_range log_prefix (prefix_upper_bound log_prefix) k ≡ false
unfolding in_range prefix_upper_bound
meta-in_range k m = ground arith

module _ ⦃C : Codec Entry⦄ where
  abbrev pub decoded : Result Entry → Option Entry
  decoded (ok e) = some e
  decoded (err _) = none

  abbrev pub decode_at : Option Bytes → Option Entry
  decode_at none = none
  decode_at (some b) = decoded (Codec.decode C b)

  -- The entry that the engine holds at an index.
  abbrev pub entry_at : Contents → ℕ → Option Entry
  entry_at c i = decode_at (c (log_key i))

  -- Writing consecutive entries puts each at its index and leaves the other indices.
  pub apply_batch-encode_sets :
      (a j : ℕ) (es : List Entry) (ops : List BatchOp) (c : Contents)
      → IsContiguous a es
      → a + length es ≤ u64_mod
      → j < u64_mod
      → encode_sets es ≡ ok ops
      → entry_at (apply_batch ops c) j
        ≡ (if within a (length es) j then get_elem? es (j - a) else entry_at c j)
  unfolding apply_batch encode_sets
  apply_batch-encode_sets a j [] ops c h hn hj e = ground arith
  apply_batch-encode_sets a j (x ∷ xs) ops c h hn hj e =
      let (b, eb, e1) =
        >>=-eq-ok (Codec.encode C x)
          (λ b. encode_sets xs >>= λ ops. ok (set (log_key x.index) b ∷ ops)) e in
      let (ops', eo, e2) =
        >>=-eq-ok (encode_sets xs) (λ ops. ok (set (log_key x.index) b ∷ ops)) e1 in
      let ih =
        apply_batch-encode_sets (suc a) j xs ops' (apply_op (set (log_key x.index) b) c) h.1
          (omega arith) hj eo in
      ground (
        arith,
        ih,
        e2,
        h.0,
        Codec.decode-encode C x b eb,
        log_key_injective x.index j,
        get_elem?-suc xs x (j - a),
      )

  pub encode_sets-other :
      (a : ℕ) (es : List Entry) (ops : List BatchOp) (k : Bytes) (c : Contents)
      → ((i : ℕ) → log_key i ≢ k)
      → encode_sets es ≡ ok ops
      → apply_batch ops c k ≡ c k
  unfolding apply_batch encode_sets
  encode_sets-other a [] ops k c h e = ground arith
  encode_sets-other a (x ∷ xs) ops k c h e =
      let (b, eb, e1) =
        >>=-eq-ok (Codec.encode C x)
          (λ b. encode_sets xs >>= λ ops. ok (set (log_key x.index) b ∷ ops)) e in
      let (ops', eo, e2) =
        >>=-eq-ok (encode_sets xs) (λ ops. ok (set (log_key x.index) b ∷ ops)) e1 in
      ground (
        arith,
        e2,
        h x.index,
        encode_sets-other a xs ops' k (apply_op (set (log_key x.index) b) c) h eo,
      )

  -- A key that is found after the writing is that of an entry, or was there before.
  pub encode_sets-found :
      (a : ℕ) (es : List Entry) (ops : List BatchOp) (k v : Bytes) (c : Contents)
      → IsContiguous a es
      → encode_sets es ≡ ok ops
      → apply_batch ops c k ≡ some v
      → ((i : ℕ) × (k ≡ log_key i) × (a ≤ i) × (i < a + length es)) ⊎ (c k ≡ some v)
  unfolding apply_batch encode_sets
  encode_sets-found a [] ops k v c h e f = inr (ground arith)
  encode_sets-found a (x ∷ xs) ops k v c h e f =
      let (b, eb, e1) =
        >>=-eq-ok (Codec.encode C x)
          (λ b. encode_sets xs >>= λ ops. ok (set (log_key x.index) b ∷ ops)) e in
      let (ops', eo, e2) =
        >>=-eq-ok (encode_sets xs) (λ ops. ok (set (log_key x.index) b ∷ ops)) e1 in
      elim (encode_sets-found (suc a) xs ops' k v (apply_op (set (log_key x.index) b) c) h.1 eo
        (ground (arith, e2))) [
          | inl (i, p, q, r) ↦ inl (i, p, omega arith, omega arith)
          | inr g ↦ elim (bytes_discrete (log_key x.index) k) [
            | yes p ↦ inl (x.index, sym p, omega (arith, h.0), omega (arith, h.0))
            | no p ↦ inr (ground arith)
          ]
        ]
