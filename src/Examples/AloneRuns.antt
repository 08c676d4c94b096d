-- ===== src/Examples/AloneRuns.antt =====
-- A cluster of one node in memory, which elects itself and serves a put.
use distributed_kv.Common.{◌≡◌, ◌≢◌, true, false, refl, [], codes, arith, none}
use distributed_kv.Common.Map
use distributed_kv.Kv.StateMachine.{new_state_machine}
use distributed_kv.Raft.Entry.{put}
use distributed_kv.Raft.Propose.{propose, sent}
use distributed_kv.Raft.Apply.{apply_committed}
use distributed_kv.Raft.Election.{start_election}
use distributed_kv.Raft.Sound.First.{first-IsSound}
use distributed_kv.Raft.Alone.{IsEncoder, IsSound-IsReady}
use distributed_kv.Raft.Alone.Puts.{IsPut}
use distributed_kv.Raft.Alone.Elected.{
  IsAlone, Leads, alone-serves, become_candidate-Stands, become_leader-Leads,
}
use distributed_kv.Raft.Lifecycle.{become_candidate}
use distributed_kv.Raft.Leader.{become_leader}
use distributed_kv.Raft.Log.Writes.{set_term_and_vote}
use distributed_kv.Raft.Steps.{stand, lead}
use distributed_kv.Raft.Process.{
  Process, new_process, start, stop, apply_signalled, Rounds, at_start, next, handled,
}
use distributed_kv.Raft.Process.Wakes.{committed-wakes, stop-panics_never}
use distributed_kv.Examples.Memory.{memory_commit}
use distributed_kv.Examples.Codecs.{entry_codec, pairs_codec, meta_codec, encode_entry}
use distributed_kv.Examples.Files.{memory_files, no_files}
use distributed_kv.Examples.Nodes.{engine, engine-IsReadable, engine-IsReliable, settings}
use distributed_kv.Examples.LifeRuns.{newborn, newborn-started, candidate}
use distributed_kv.Examples.ClusterRuns.{engine-IsWritable}
use distributed_kv.Examples.WriterRuns.{silent}

entry_codec-IsEncoder : IsEncoder entry_codec
entry_codec-IsEncoder = record { bytes_of = λ e. (encode_entry e, refl) }

newborn-IsAlone : IsAlone newborn
newborn-IsAlone = record {
  no_peers = refl;
  sound =
      first-IsSound (engine-IsReadable false) (codes "n1") [] settings [] (new_state_machine [])
        no_files (codes "addr") (λ k. unfold Map.lookup in refl) newborn-started;
  not_compacted = omega arith;
  applied_committed = omega arith;
  commits_held = omega arith;
}

alone-serves_example :
    Leads newborn (start_election silent newborn [] (λ n. n))
    × IsPut (start_election silent newborn [] (λ n. n)) (codes "a") (codes "b") (
        propose silent
          (start_election silent newborn [] (λ n. n))
          apply_committed
          (sent none)
          put
          (codes "a")
          (codes "b")
          [])
alone-serves_example =
    alone-serves engine-IsReliable entry_codec-IsEncoder engine-IsWritable silent newborn []
      (λ n. n) (codes "a") (codes "b") [] newborn-IsAlone (omega arith) (omega arith)

-- It stands and leads; its no-op is committed, and the apply loop has not run.
abbrev leading : Process
leading = record (start (new_process newborn)) { node = become_leader silent candidate }

leading-Leads : Leads newborn (become_leader silent candidate)
leading-Leads =
    become_leader-Leads engine-IsReliable entry_codec-IsEncoder silent newborn candidate
      (become_candidate-Stands engine-IsReliable entry_codec-IsEncoder newborn newborn-IsAlone
        (omega arith))
      (unfold become_candidate in refl)
      (unfold become_candidate set_term_and_vote memory_commit in omega arith)

abbrev to_leading : Rounds (start (new_process newborn)) leading
to_leading =
    next
      (next (at_start (start (new_process newborn)))
        (handled (start (new_process newborn)) (stand newborn (omega arith))))
      (handled (record (start (new_process newborn)) { node = candidate }) (lead silent candidate))

committed-wakes_example :
    (leading.node.commit_advanced ≡ true)
    × ((apply_signalled leading).node.last_applied ≡ leading.node.commit_index)
committed-wakes_example =
    committed-wakes engine-IsWritable (engine-IsReadable false) (codes "n1") [] settings []
      (new_state_machine []) no_files (codes "addr") newborn-started to_leading ((tt, tt), tt)
      (omega
        (arith, leading-Leads.same_applied, leading-Leads.all_committed, leading-Leads.noop_last))
      (IsSound-IsReady (become_leader silent candidate).log
        (become_leader silent candidate).last_applied (become_leader silent candidate).commit_index
        leading-Leads.alone.sound leading-Leads.alone.not_compacted
        leading-Leads.alone.commits_held)

stop-panics_never_example : stop leading ≢ none
stop-panics_never_example = stop-panics_never to_leading
