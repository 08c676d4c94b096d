-- ===== src/Examples/LogRuns.antt =====
-- The theorems on the log at concrete logs.
use distributed_kv.Common.{
  ◌+◌, ◌-◌, ◌≤◌, ◌<◌, ◌≡◌, refl, false, none, some, List, [], ◌∷◌, codes, arith, ok, length, ltb,
  get_elem?, if◌then◌else◌, ◌⊎◌, suc,
}
use distributed_kv.Raft.Entry.{Entry}
use distributed_kv.Raft.Log.{open_persistent_log, range, term_at}
use distributed_kv.Raft.Log.Keys.{IsContiguous}
use distributed_kv.Raft.Log.Valid.{IsValid, held}
use distributed_kv.Raft.Log.Writes.{append_entries, encode_sets, compact_prefix, set_term_and_vote}
use distributed_kv.Raft.Log.Append.{append_entries-held}
use distributed_kv.Raft.Log.Runs.{
  Writes-recover, written, then_, appends, compacts, votes, blank, reopened,
}
use distributed_kv.Common.Map
use distributed_kv.Raft.Log.Reads.{IsSlice, range_lem, term_at_lem}
use distributed_kv.Examples.Memory.{memory_commit}
use distributed_kv.Examples.Codecs.{entry_codec}
use distributed_kv.Examples.Nodes.{
  engine, engine-IsReadable, first_entry, second_entry, two_entries, two_entries-IsValid,
}

append_entries-held_example :
    (held (append_entries two_entries (second_entry ∷ []) false).1 2
      ≡ (if ltb 2 2 then held two_entries 2 else get_elem? (second_entry ∷ []) (2 - 2)))
    × ((append_entries two_entries (second_entry ∷ []) false).1.last_index ≡ 2 + 0)
unfolding append_entries encode_sets memory_commit
append_entries-held_example =
    append_entries-held two_entries second_entry [] two_entries-IsValid (refl, tt) (omega arith)
      (omega arith) (omega arith) false 2 refl (omega arith)

Writes-recover_example :
    IsValid (set_term_and_vote (compact_prefix two_entries 1 1).1 5 (codes "n2")).1
    × (open_persistent_log [] ≡ ok (blank []))
    × (open_persistent_log
          (set_term_and_vote (compact_prefix two_entries 1 1).1 5 (codes "n2")).1.engine
        ≡ ok (reopened (set_term_and_vote (compact_prefix two_entries 1 1).1 5 (codes "n2")).1))
unfolding Map.lookup
Writes-recover_example =
    Writes-recover (engine-IsReadable false) [] (λ k. refl)
      (then_
        (then_
          (then_ (written (blank [])) (
            appends (blank []) first_entry (second_entry ∷ []) false (refl, (refl, tt))
              (omega arith) (omega arith) (omega arith)))
          (compacts two_entries 1 1 (omega arith) (omega arith)))
        (votes (compact_prefix two_entries 1 1).1 5 (codes "n2") (omega arith)))

range_lem_example :
    (es : List Entry) × (range two_entries 1 2 ≡ ok es)
    × IsContiguous 1 es
    × IsSlice two_entries 1 es
    × (length es ≡ suc 2 - 1)
unfolding append_entries encode_sets memory_commit
range_lem_example =
    range_lem two_entries two_entries-IsValid (engine-IsReadable false two_entries.engine) 1 2
      (omega arith) (omega arith)

term_at_lem_example :
    (2 ≡ two_entries.last_included_index
      → term_at two_entries 2 ≡ some two_entries.last_included_term)
    × (two_entries.last_included_index < 2
        → 2 ≤ two_entries.last_index
        → (e : Entry) × (held two_entries 2 ≡ some e) × (term_at two_entries 2 ≡ some e.term))
    × ((2 < two_entries.last_included_index) ⊎ (two_entries.last_index < 2)
        → term_at two_entries 2 ≡ none)
term_at_lem_example =
    term_at_lem two_entries two_entries-IsValid (engine-IsReadable false two_entries.engine) 2
