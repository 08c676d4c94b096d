-- ===== src/Raft/ReadIndex/Acks.antt =====
-- How many acknowledgements confirm leadership in internal/raft/readindex.go.
use distributed_kv.Common.{
  ℕ, suc, ◌+◌, ◌-◌, ◌≤◌, ◌<◌, ◌*◌, ◌≡◌, refl, Option, none, some, List, [], ◌∷◌, Error, arith, ◌==◌,
  if◌then◌else◌, length,
}
use distributed_kv.Raft.State.{Node}
use distributed_kv.Raft.ReadIndex.{
  Beat, answer, context_done, stopping, meanwhile, on_heartbeat, verdict, drain, collect_acks,
  confirm_leadership, needed_acks,
}
use distributed_kv.Storage.{Engine, Codec}
use distributed_kv.Kv.StateMachine.{Pairs}
use distributed_kv.Raft.Entry.{Entry}
use distributed_kv.Raft.SnapshotStore.{FileSystem, SnapshotMeta}

module _ ⦃E : Engine⦄ ⦃C : Codec Entry⦄ ⦃P : Codec Pairs⦄ ⦃M : Codec SnapshotMeta⦄
    ⦃F : FileSystem⦄ where
  -- The acknowledgements among the first `waiting` answers, up to the end of the context or a stop.
  pub acks : Node → ℕ → ℕ → List (Beat Node) → ℕ
  acks n term waiting [] = 0
  acks n term waiting (answer r ∷ rest) =
      let (acked, n') = on_heartbeat n term r in
      let later = acks n' term (waiting - 1) rest in
      if waiting == 0 then 0 else if acked then suc later else later
  acks n term waiting (meanwhile f ∷ rest) = acks (f n) term waiting rest
  acks n term waiting (context_done e ∷ rest) = 0
  acks n term waiting (stopping ∷ rest) = 0

  outcome-drain :
      (n : Node) (term : ℕ) (outcome : Option Error) (beats : List (Beat Node))
      → (drain n term outcome beats).0 ≡ outcome
  unfolding drain
  outcome-drain n term outcome [] = refl
  outcome-drain n term outcome (answer r ∷ rest) =
      outcome-drain (on_heartbeat n term r).1 term outcome rest
  outcome-drain n term outcome (meanwhile f ∷ rest) = outcome-drain (f n) term outcome rest
  outcome-drain n term outcome (context_done e ∷ rest) = outcome-drain n term outcome rest
  outcome-drain n term outcome (stopping ∷ rest) = outcome-drain n term outcome rest

  collect_acks-enough :
      (n : Node) (term needed confirmed waiting : ℕ) (beats : List (Beat Node))
      → (collect_acks n term needed confirmed waiting beats).0 ≡ none
      → needed ≤ confirmed + acks n term waiting beats
  unfolding collect_acks acks
  collect_acks-enough n term needed confirmed waiting [] h = ground arith
  collect_acks-enough n term needed confirmed waiting (meanwhile f ∷ rest) h =
      collect_acks-enough (f n) term needed confirmed waiting rest h
  collect_acks-enough n term needed confirmed waiting (context_done e ∷ rest) h = ground (
    arith,
    outcome-drain n term (verdict needed confirmed) rest,
    outcome-drain n term (some e) rest,
  )
  collect_acks-enough n term needed confirmed waiting (stopping ∷ rest) h = ground (
    arith,
    outcome-drain n term (verdict needed confirmed) rest,
    outcome-drain n term (some Error.node_stopping) rest,
  )
  collect_acks-enough n term needed confirmed waiting (answer r ∷ rest) h = ground (
    arith,
    outcome-drain n term (verdict needed confirmed) (answer r ∷ rest),
    collect_acks-enough (on_heartbeat n term r).1 term needed confirmed (waiting - 1) rest,
    collect_acks-enough (on_heartbeat n term r).1 term needed (confirmed + 1) (waiting - 1) rest,
  )

  -- If confirmLeadership returns no error, the node itself and the peers whose acknowledgement
  -- arrived before the loop ended are more than half of the cluster, where an answer with a later
  -- term, an error, and what comes after the end of the context or a stop does not count.
  pub confirm_leadership-majority :
      (n : Node) (term : ℕ) (beats : List (Beat Node))
      → (confirm_leadership n term beats).0 ≡ none
      → length n.peers + 1 < 2 * (1 + acks n term (length n.peers) beats)
  unfolding confirm_leadership
  confirm_leadership-majority n term beats h =
      omega (
        arith,
        collect_acks-enough n term (needed_acks (length n.peers)) 1 (length n.peers) beats h,
      )
