-- ===== src/Examples/Codecs.antt =====
-- Codecs for entries, pairs and snapshot metadata, and an empty directory of files.
use distributed_kv.Common.{
  ℕ, zero, suc, ◌≡◌, refl, [], ◌∷◌, ◌++◌, Bytes, Result, ok, err, other, length, ◌>>=◌,
}
use distributed_kv.Storage.{Codec}
use distributed_kv.Kv.StateMachine.{Pairs}
use distributed_kv.Raft.Entry.{Entry, EntryType, noop, put, delete, unrecognized}
use distributed_kv.Raft.SnapshotStore.{SnapshotMeta}

-- The first `n` bytes, and the rest.
unfoldable pub split : ℕ → Bytes → Result (Bytes × Bytes)
split zero r = ok ([], r)
split (suc n) [] = err (other [])
split (suc n) (x ∷ r) = split n r >>= λ (a, b). ok (x ∷ a, b)

split-append : (a r : Bytes) → split (length a) (a ++ r) ≡ ok (a, r)
unfolding split
split-append [] r = refl
split-append (x ∷ a) r = rw (split-append a r)

-- A byte string with its length in front.
abbrev pub framed : Bytes → Bytes → Bytes
framed a r = length a ∷ a ++ r

unfoldable pub unframe : Bytes → Result (Bytes × Bytes)
unfolding split
unframe [] = err (other [])
unframe (n ∷ r) = split n r

unframe-framed : (a r : Bytes) → unframe (framed a r) ≡ ok (a, r)
unfolding unframe
unframe-framed a r = split-append a r

abbrev pub type_code : EntryType → ℕ
type_code noop = 0
type_code put = 1
type_code delete = 2
type_code (unrecognized n) = suc (suc (suc n))

abbrev pub type_of : ℕ → EntryType
type_of zero = noop
type_of (suc zero) = put
type_of (suc (suc zero)) = delete
type_of (suc (suc (suc n))) = unrecognized n

type_of-type_code : (t : EntryType) → type_of (type_code t) ≡ t
type_of-type_code noop = refl
type_of-type_code put = refl
type_of-type_code delete = refl
type_of-type_code (unrecognized n) = refl

abbrev pub encode_entry : Entry → Bytes
encode_entry e =
    e.index
    ∷ e.term
    ∷ type_code e.entry_type
    ∷ framed e.key (framed e.value (framed e.client_request_id []))

unfoldable pub decode_entry : Bytes → Result Entry
unfolding unframe
decode_entry (i ∷ t ∷ c ∷ r) = do
  k ← unframe r
  v ← unframe k.1
  q ← unframe v.1
  ok (record {
    index = i;
    term = t;
    entry_type = type_of c;
    key = k.0;
    value = v.0;
    client_request_id = q.0;
  })
decode_entry _ = err (other [])

pub decode_entry-encode_entry : (e : Entry) → decode_entry (encode_entry e) ≡ ok e
unfolding decode_entry
decode_entry-encode_entry e = rw (
  split-append e.key (framed e.value (framed e.client_request_id [])),
  split-append e.value (framed e.client_request_id []),
  split-append e.client_request_id [],
  type_of-type_code e.entry_type,
)

instance abbrev pub entry_codec : Codec Entry
entry_codec = record {
  encode = λ e. ok (encode_entry e);
  decode = decode_entry;
  decode-encode = λ e b h. cc (decode_entry-encode_entry e);
}

-- Each pair framed, behind their number.
abbrev pub encode_items : Pairs → Bytes
encode_items [] = []
encode_items ((k, v) ∷ m) = framed k (framed v (encode_items m))

unfoldable pub decode_items : ℕ → Bytes → Result Pairs
unfolding unframe
decode_items zero r = ok []
decode_items (suc n) r = do
  k ← unframe r
  v ← unframe k.1
  m ← decode_items n v.1
  ok ((k.0, v.0) ∷ m)

decode_items-encode_items : (m : Pairs) → decode_items (length m) (encode_items m) ≡ ok m
unfolding decode_items
decode_items-encode_items [] = refl
decode_items-encode_items ((k, v) ∷ m) = rw (
  split-append k (framed v (encode_items m)),
  split-append v (encode_items m),
  decode_items-encode_items m,
)

unfoldable pub decode_pairs : Bytes → Result Pairs
unfolding decode_items
decode_pairs [] = err (other [])
decode_pairs (n ∷ r) = decode_items n r

pub decode_pairs-encode : (m : Pairs) → decode_pairs (length m ∷ encode_items m) ≡ ok m
unfolding decode_pairs
decode_pairs-encode m = decode_items-encode_items m

instance abbrev pub pairs_codec : Codec Pairs
pairs_codec = record {
  encode = λ m. ok (length m ∷ encode_items m);
  decode = decode_pairs;
  decode-encode = λ m b h. cc (decode_pairs-encode m);
}

unfoldable pub decode_meta : Bytes → Result SnapshotMeta
decode_meta (i ∷ t ∷ []) = ok (record { last_included_index = i; last_included_term = t })
decode_meta _ = err (other [])

pub decode_meta-encode :
    (m : SnapshotMeta) → decode_meta (m.last_included_index ∷ m.last_included_term ∷ []) ≡ ok m
unfolding decode_meta
decode_meta-encode m = refl

instance abbrev pub meta_codec : Codec SnapshotMeta
meta_codec = record {
  encode = λ m. ok (m.last_included_index ∷ m.last_included_term ∷ []);
  decode = decode_meta;
  decode-encode = λ m b h. cc (decode_meta-encode m);
}
