-- ===== src/Raft/Log.antt =====
-- internal/raft/log.go: the durable Raft log, how it is opened and read. The mutex makes each
-- method atomic.
pub mod Writes
pub mod Keys
pub mod Cache
pub mod Valid
pub mod Retains
pub mod Preserve
pub mod Append
pub mod Compact
pub mod Recover
pub mod Reads
pub mod Votes
pub mod Runs
pub mod Gap
pub mod Sound
pub mod Kept
use distributed_kv.Common.{
  ℕ, ◌+◌, ◌-◌, ◌%◌, Bool, true, false, Option, none, some, List, [], ◌∷◌, ◌++◌, map, ltb, leb, ◌==◌,
  ℕ_discrete, length, last, drop, upto, Bytes, codes, add64, sub64, put_uint64, uint64, Error,
  not_found, compacted, panicked, Result, ok, err, or_error, ◌>>=◌, if◌then◌else◌,
}
use distributed_kv.Common.Map
use distributed_kv.Common.Map.{Map}
use distributed_kv.Storage.{Engine, Codec, BatchOp, set, delete, prefix_upper_bound}
use distributed_kv.Raft.Entry.{Entry}

abbrev pub log_prefix : Bytes
log_prefix = codes "l/"

abbrev pub key_term : Bytes
key_term = codes "m/currentTerm"

abbrev pub key_voted_for : Bytes
key_voted_for = codes "m/votedFor"

abbrev pub key_last_included_index : Bytes
key_last_included_index = codes "m/lastIncludedIndex"

abbrev pub key_last_included_term : Bytes
key_last_included_term = codes "m/lastIncludedTerm"

abbrev pub log_key : ℕ → Bytes
log_key index = log_prefix ++ put_uint64 index

abbrev pub index_from_log_key : Bytes → Option ℕ
index_from_log_key k = uint64 (drop 2 k)

-- A value that is read on opening; a missing key leaves the default.
abbrev pub or_default {ℓ} : {A : Type ℓ} → A → (Bytes → Result A) → Result Bytes → Result A
or_default d parse (ok v) = parse v
or_default d parse (err not_found) = ok d
or_default d parse (err e) = err e

-- A byte string read as a word: binary.BigEndian.Uint64 panics on a short one.
abbrev pub word : Bytes → Result ℕ
word b = or_error panicked (uint64 b)

-- The loop of OpenPersistentLog over the keys of the log.
unfoldable pub walk_last : List (Bytes × Bytes) → ℕ → Result ℕ
walk_last [] last_index = ok last_index
walk_last ((k, _) ∷ items) last_index = or_error panicked (index_from_log_key k) >>= λ idx.
    walk_last items (if ltb last_index idx then idx else last_index)

module _ ⦃E : Engine⦄ ⦃C : Codec Entry⦄ where
  open E use {Db, get, commit, scan}
  open C use {encode, decode}

  pub record PersistentLog : Type 0 where
    pub engine : Db
    pub first_index : ℕ
    pub last_index : ℕ
    pub last_included_index : ℕ
    pub last_included_term : ℕ
    pub current_term : ℕ
    pub voted_for : Bytes
    pub tail_cache : Map ℕ Entry
    pub tail_cache_limit : ℕ

  unfoldable pub open_persistent_log : Db → Result PersistentLog
  unfolding walk_last
  open_persistent_log db = do
    term ← or_default 0 word (get db key_term)
    voted ← or_default [] ok (get db key_voted_for)
    included_index ← or_default 0 word (get db key_last_included_index)
    included_term ← or_default 0 word (get db key_last_included_term)
    items ← scan db log_prefix (prefix_upper_bound log_prefix)
    last_idx ← walk_last items included_index
    ok (record {
      engine = db;
      first_index = add64 included_index 1;
      last_index = last_idx;
      last_included_index = included_index;
      last_included_term = included_term;
      current_term = term;
      voted_for = voted;
      tail_cache = [];
      tail_cache_limit = 4096;
    })

  unfoldable pub get_locked : PersistentLog → ℕ → Result Entry
  get_locked pl index =
      if leb index pl.last_included_index
      then err (compacted index pl.last_included_index)
      else (get pl.engine (log_key index) >>= decode)

  abbrev pub or_else {ℓ} : {A : Type ℓ} → Option A → Result A → Result A
  or_else (some a) r = ok a
  or_else none r = r

  -- PersistentLog.Get
  unfoldable pub get_entry : PersistentLog → ℕ → Result Entry
  unfolding get_locked
  get_entry pl index = or_else (Map.lookup ℕ_discrete index pl.tail_cache) (get_locked pl index)

  abbrev pub term_or_zero : Result Entry → ℕ
  term_or_zero (ok e) = e.term
  term_or_zero (err _) = 0

  unfoldable pub last_term : PersistentLog → ℕ
  unfolding get_entry
  last_term pl =
      if pl.last_index == pl.last_included_index
      then pl.last_included_term
      else term_or_zero (get_entry pl pl.last_index)

  abbrev pub found_term : Result Entry → Option ℕ
  found_term (ok e) = some e.term
  found_term (err _) = none

  -- TermAt; `none` is (0, false).
  unfoldable pub term_at : PersistentLog → ℕ → Option ℕ
  unfolding get_entry
  term_at pl index =
      if index == pl.last_included_index
      then some pl.last_included_term
      else if ltb index pl.first_index
      then none
      else if ltb pl.last_index index
      then none
      else found_term (get_entry pl index)

  unfoldable pub collect : PersistentLog → List ℕ → Result (List Entry)
  unfolding get_entry
  collect pl [] = ok []
  collect pl (i ∷ is) = get_entry pl i >>= λ e. collect pl is >>= λ es. ok (e ∷ es)

  unfoldable pub range : PersistentLog → ℕ → ℕ → Result (List Entry)
  unfolding collect
  range pl from to = if ltb to from then ok [] else collect pl (upto from to)
