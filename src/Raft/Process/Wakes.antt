-- ===== src/Raft/Process/Wakes.antt =====
-- The apply loop of internal/raft/node_lifecycle.go is woken, and Stop may be called again.
use distributed_kv.Common.{
  ◌≤◌, ◌<◌, ◌≡◌, ◌≢◌, sym, subst, true, false, Option, none, some, List, Bytes, Result, ok, err,
  arith, >>=-eq-ok,
}
use distributed_kv.Storage.{Engine, Codec}
use distributed_kv.Kv.StateMachine.{Pairs, StateMachine, Snapshot}
use distributed_kv.Kv.StateMachine.View.{IsWritable}
use distributed_kv.Raft.Entry.{Entry}
use distributed_kv.Raft.SnapshotStore.{FileSystem, SnapshotMeta, load_latest}
use distributed_kv.Raft.Log.{open_persistent_log}
use distributed_kv.Raft.Log.Recover.{IsReadable}
use distributed_kv.Raft.Types.{PeerInfo, Options}
use distributed_kv.Raft.State.{Node, new_node, restored, fresh_node}
use distributed_kv.Raft.Apply.{apply_committed}
use distributed_kv.Raft.Apply.Ready.{IsReady}
use distributed_kv.Raft.Apply.Progress.{apply_committed-bounds}
use distributed_kv.Raft.Apply.Refines.{apply_committed-Replays}
use distributed_kv.Raft.Steps.{
  Step, vote, append, install, stand, step_down, lead, replicate, answered, advance, apply, propose,
}
use distributed_kv.Raft.Signals.{marks, IsAwake, IsAwake-even}
use distributed_kv.Raft.Signals.Installs.{handle_install_snapshot-IsAwake}
use distributed_kv.Raft.Signals.Handlers.{
  marks-become_follower, marks-become_candidate, marks-handle_request_vote,
  handle_append_entries-IsAwake, marks-on_append_response, try_advance_commit_index-IsAwake,
  broadcast_append_entries-IsAwake, become_leader-IsAwake, marks-begin_propose,
}
use distributed_kv.Raft.Process.{
  Process, new_process, start, stop, close_channel, apply_signalled, Round, handled, signalled,
  ticked, timer_reset, apply_ends, timer_ends, stop_called, Rounds, at_start, next,
}

module _ ⦃E : Engine⦄ ⦃C : Codec Entry⦄ ⦃P : Codec Pairs⦄ ⦃M : Codec SnapshotMeta⦄
    ⦃F : FileSystem⦄ where
  -- The log holds what applyCommitted goes through.
  abbrev pub CanApply : Node → Type 0
  CanApply n = IsReady n.log n.last_applied n.commit_index

  abbrev pub SmoothStep : {a b : Node} → Step a b → Type 0
  SmoothStep (apply n) = CanApply n
  SmoothStep (vote n req) = Unit
  SmoothStep (append n req) = Unit
  SmoothStep (install n req) = Unit
  SmoothStep (stand n h) = Unit
  SmoothStep (step_down n term id addr) = Unit
  SmoothStep (lead T n) = Unit
  SmoothStep (replicate T n) = Unit
  SmoothStep (answered n peer term es r) = Unit
  SmoothStep (advance n term) = Unit
  SmoothStep (propose n type key value id) = Unit

  abbrev pub SmoothRound : {p q : Process} → Round p q → Type 0
  SmoothRound (handled p s) = SmoothStep s
  SmoothRound (signalled p runs token) = CanApply p.node
  SmoothRound (ticked p runs) = CanApply p.node
  SmoothRound (timer_reset p runs token) = Unit
  SmoothRound (apply_ends p runs closed) = Unit
  SmoothRound (timer_ends p runs closed) = Unit
  SmoothRound (stop_called p h) = Unit

  -- Every run of applyCommitted finds what it goes through.
  abbrev pub Smooth : {p q : Process} → Rounds p q → Type 0
  Smooth (at_start p) = Unit
  Smooth (next rs r) = Smooth rs × SmoothRound r

  module _ (w : IsWritable E) (r : (d : Engine.Db E) → IsReadable d) where
    apply_committed-all :
        (n : Node)
        → n.last_applied ≤ n.commit_index
        → CanApply n
        → ((apply_committed n).last_applied ≡ n.commit_index)
          × ((apply_committed n).commit_index ≡ n.commit_index)
    apply_committed-all n le can =
        let p = apply_committed-Replays w r n le can in
        let (_, _, same) = apply_committed-bounds n le in (omega (arith, p.reaches), same)

    apply_committed-IsAwake :
        (n : Node)
        → n.last_applied ≤ n.commit_index
        → CanApply n
        → IsAwake (marks (apply_committed n))
    apply_committed-IsAwake n le can =
        let (a, b) = apply_committed-all n le can in
        record { ordered = omega (arith, a, b); awake = λ h. absurd (omega (arith, a, b)) }

    Step-IsAwake :
        {a b : Node} (s : Step a b) → SmoothStep s → IsAwake (marks a) → IsAwake (marks b)
    Step-IsAwake (vote n req) can a = subst IsAwake (sym (marks-handle_request_vote n req)) a
    Step-IsAwake (append n req) can a = handle_append_entries-IsAwake n req a
    Step-IsAwake (install n req) can a = handle_install_snapshot-IsAwake n req a
    Step-IsAwake (stand n h) can a = subst IsAwake (sym (marks-become_candidate n)) a
    Step-IsAwake (step_down n term id addr) can a =
        subst IsAwake (sym (marks-become_follower n term id addr)) a
    Step-IsAwake (lead T n) can a = become_leader-IsAwake T n a
    Step-IsAwake (replicate T n) can a = broadcast_append_entries-IsAwake T n a
    Step-IsAwake (answered n peer term es r) can a =
        subst IsAwake (sym (marks-on_append_response n peer term es r)) a
    Step-IsAwake (advance n term) can a = try_advance_commit_index-IsAwake n term a
    Step-IsAwake (apply n) can a = apply_committed-IsAwake n a.ordered can
    Step-IsAwake (propose n type key value id) can a =
        subst IsAwake (sym (marks-begin_propose n type key value id)) a

    stop-node : (p q : Process) → stop p ≡ some q → q.node ≡ p.node
    unfolding stop close_channel
    stop-node p q h = ground arith

    Round-IsAwake :
        {p q : Process} (t : Round p q)
        → SmoothRound t
        → IsAwake (marks p.node)
        → IsAwake (marks q.node)
    Round-IsAwake (handled p s) can a = Step-IsAwake s can a
    Round-IsAwake (signalled p runs token) can a =
        apply_committed-IsAwake (record p.node { commit_advanced = false }) a.ordered can
    Round-IsAwake (ticked p runs) can a = apply_committed-IsAwake p.node a.ordered can
    Round-IsAwake (timer_reset p runs token) can a = a
    Round-IsAwake (apply_ends p runs closed) can a = a
    Round-IsAwake (timer_ends p runs closed) can a = a
    Round-IsAwake (stop_called p {q} h) can a =
        subst (λ (n : Node). IsAwake (marks n)) (sym (stop-node p q h)) a

    Rounds-IsAwake :
        {p q : Process} (ts : Rounds p q)
        → Smooth ts
        → IsAwake (marks p.node)
        → IsAwake (marks q.node)
    Rounds-IsAwake (at_start p) can a = a
    Rounds-IsAwake (next ts t) can a = Round-IsAwake t can.1 (Rounds-IsAwake ts can.0 a)

    new_node-IsAwake :
        (id : Bytes) (peers : List PeerInfo) (opts : Options) (db : Engine.Db E) (sm : StateMachine)
        (disk : FileSystem.Disk F) (addr : Bytes) {n : Node}
        → new_node id peers opts db sm disk addr ≡ ok n
        → IsAwake (marks n)
    unfolding new_node
    new_node-IsAwake id peers opts db sm disk addr h =
        let (log, opened, rest) = >>=-eq-ok (open_persistent_log db) _ h in
        of_restored (fresh_node id peers opts log sm disk addr) (IsAwake-even 0 false)
          (load_latest disk) rest
      where
        same : {x y : Node} → Result.ok x ≡ Result.ok y → x ≡ y
        same e = cc

        of_restored :
            (a : Node)
            → IsAwake (marks a)
            → (o : Result (Option (Snapshot × SnapshotMeta))) {b : Node} → restored a o ≡ ok b
            → IsAwake (marks b)
        of_restored a i (err e) h = cc
        of_restored a i (ok none) h = subst (λ (n : Node). IsAwake (marks n)) (same h) i
        of_restored a i (ok (some (snap, meta))) {b} h =
            subst IsAwake
              (let q : record {
                applied = meta.last_included_index;
                committed = meta.last_included_index;
                pending = a.commit_advanced;
              }
                    ≡ marks b =
                  ground arith in
                q)
              (IsAwake-even meta.last_included_index a.commit_advanced)

    -- If the engine's single writes and its reads do not fail, then after Start on a node that
    -- NewNode made and any sequence of its handlers, rounds of the apply loop, resets of the
    -- timer, ends of the two loops and calls of Stop, in which applyCommitted always finds a
    -- well-formed log that is not compacted beyond lastApplied, reaches the commit index and has
    -- terms below 2^64, wherever a committed entry is not applied yet, a token lies in
    -- commitAdvancedCh, and the round of the apply loop that takes it applies everything up to the
    -- commit index, if the log is such a one then too.
    pub committed-wakes :
        (id : Bytes) (peers : List PeerInfo) (opts : Options) (db : Engine.Db E) (sm : StateMachine)
        (disk : FileSystem.Disk F) (addr : Bytes) {a : Node} {p : Process}
        → new_node id peers opts db sm disk addr ≡ ok a
        → (ts : Rounds (start (new_process a)) p) → Smooth ts
        → p.node.last_applied < p.node.commit_index
        → CanApply p.node
        → (p.node.commit_advanced ≡ true)
          × ((apply_signalled p).node.last_applied ≡ p.node.commit_index)
    committed-wakes id peers opts db sm disk addr {p = p} made ts can lt now =
        let a = Rounds-IsAwake ts can (new_node-IsAwake id peers opts db sm disk addr made) in
        (
          a.awake lt,
          (apply_committed-all (record p.node { commit_advanced = false }) a.ordered now).0,
        )

  -- stopCh is closed only by the call that stopOnce lets through.
  record StopsOnce (p : Process) : Type 0 where
    pub by_first : p.stop_closed ≡ true → p.stop_done ≡ true

  Round-StopsOnce : {p q : Process} → Round p q → StopsOnce p → StopsOnce q
  unfolding stop close_channel
  Round-StopsOnce (handled p s) i = record { by_first = i.by_first }
  Round-StopsOnce (signalled p runs token) i = record { by_first = i.by_first }
  Round-StopsOnce (ticked p runs) i = record { by_first = i.by_first }
  Round-StopsOnce (timer_reset p runs token) i = record { by_first = i.by_first }
  Round-StopsOnce (apply_ends p runs closed) i = record { by_first = i.by_first }
  Round-StopsOnce (timer_ends p runs closed) i = record { by_first = i.by_first }
  Round-StopsOnce (stop_called p {q} h) i = record { by_first = λ c. ground (arith, i.by_first) }

  Rounds-StopsOnce : {p q : Process} → Rounds p q → StopsOnce p → StopsOnce q
  Rounds-StopsOnce (at_start p) i = i
  Rounds-StopsOnce (next ts t) i = Round-StopsOnce t (Rounds-StopsOnce ts i)

  -- After Start on a node and any sequence of its handlers, rounds of the apply loop, resets of
  -- the timer, ends of the two loops and calls of Stop, a further call of Stop does not panic.
  pub stop-panics_never :
      {n : Node} {p : Process} → Rounds (start (new_process n)) p → stop p ≢ none
  unfolding stop close_channel
  stop-panics_never ts h =
      let i = Rounds-StopsOnce ts (record { by_first = λ c. absurd (cc) }) in
      ground (arith, i.by_first)
