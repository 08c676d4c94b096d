-- ===== src/Raft/Writers/Told.antt =====
-- The writers that wait on a node of internal/raft, over any sequence of its handlers.
use distributed_kv.Common.{
  dec_lt, ℕ, ◌+◌, ◌≤◌, ◌≡◌, refl, ap, ◌∙◌, sym, subst, false, Option, none, some, List, [], Bytes,
  arith, Result, ok, err, >>=-eq-ok,
}
use distributed_kv.Storage.{Engine, Codec}
use distributed_kv.Kv.StateMachine.{Pairs, StateMachine, Snapshot}
use distributed_kv.Raft.Entry.{Entry}
use distributed_kv.Raft.SnapshotStore.{FileSystem, SnapshotMeta, load_latest}
use distributed_kv.Raft.Log.{open_persistent_log}
use distributed_kv.Raft.Types.{Role, PeerInfo, Options, candidate, leader, follower}
use distributed_kv.Raft.State.{
  Node, current_term, is_leader, is_role, new_node, restored, fresh_node,
}
use distributed_kv.Raft.Steps.{
  Step, vote, append, install as installed, stand, step_down, lead, replicate, answered, advance,
  apply, propose, Reach, here as at_start, next,
}
use distributed_kv.Raft.Writers.{
  waiting, told, Books, books, TellsOnce, LeaderWaits, TellsOnce-role,
}
use distributed_kv.Raft.Writers.Local.{
  become_follower-Keeps, handle_request_vote-Keeps, handle_append_entries-Keeps,
  on_append_response-Keeps, begin_propose-Keeps,
}
use distributed_kv.Raft.Writers.Loops.{
  apply_committed-Keeps, books-try_advance_commit_index, broadcast_append_entries-Keeps,
  become_leader-Keeps,
}
use distributed_kv.Raft.Writers.Installs.{
  books-handle_install_snapshot, books-stale_install, books-become_candidate,
}

module _ ⦃E : Engine⦄ ⦃C : Codec Entry⦄ ⦃P : Codec Pairs⦄ ⦃M : Codec SnapshotMeta⦄
    ⦃F : FileSystem⦄ where
  -- A snapshot from a leader, or a candidacy, changes the role only.
  role-TellsOnce : (a b : Books) (r : Role) → b ≡ record a { role = r } → TellsOnce a → TellsOnce b
  role-TellsOnce a b r e t = subst TellsOnce (sym e) (TellsOnce-role a r t)

  role-LeaderWaits :
      (a b : Books) (r : Role)
      → b ≡ record a { role = r }
      → is_role a.role leader ≡ false
      → LeaderWaits a
      → LeaderWaits b
  role-LeaderWaits a b r e l w h = ap (λ (x : Books). x.waiters) e ∙ w l

  Step-TellsOnce : {a b : Node} → Step a b → TellsOnce (books a) → TellsOnce (books b)
  Step-TellsOnce (vote n req) t = (handle_request_vote-Keeps n req).tells t
  Step-TellsOnce (append n req) t = (handle_append_entries-Keeps n req).tells t
  Step-TellsOnce (installed n req) t = elim (dec_lt req.term (current_term n)) [
    | yes p ↦ subst TellsOnce (sym (books-stale_install n req p)) t
    | no p ↦
        role-TellsOnce (books n) _ follower (books-handle_install_snapshot n req (omega arith)) t
  ]
  Step-TellsOnce (stand n h) t = role-TellsOnce (books n) _ candidate (books-become_candidate n) t
  Step-TellsOnce (step_down n term id addr) t = (become_follower-Keeps n term id addr).tells t
  Step-TellsOnce (lead T n) t = (become_leader-Keeps T n).tells t
  Step-TellsOnce (replicate T n) t = (broadcast_append_entries-Keeps T n).tells t
  Step-TellsOnce (answered n peer term es r) t = (on_append_response-Keeps n peer term es r).tells t
  Step-TellsOnce (advance n term) t =
      subst TellsOnce (sym (books-try_advance_commit_index n term)) t
  Step-TellsOnce (apply n) t = (apply_committed-Keeps n).tells t
  Step-TellsOnce (propose n type key value id) t = (begin_propose-Keeps n type key value id).tells t

  Reach-TellsOnce : {a b : Node} → Reach a b → TellsOnce (books a) → TellsOnce (books b)
  Reach-TellsOnce (at_start n) t = t
  Reach-TellsOnce (next r s) t = Step-TellsOnce s (Reach-TellsOnce r t)

  -- Snapshots and candidacies of nodes that are no leaders.
  abbrev pub Deposed : {a b : Node} → Step a b → Type 0
  Deposed (installed n req) = is_leader n ≡ false
  Deposed (stand n h) = is_leader n ≡ false
  Deposed (vote n req) = Unit
  Deposed (append n req) = Unit
  Deposed (step_down n term id addr) = Unit
  Deposed (lead T n) = Unit
  Deposed (replicate T n) = Unit
  Deposed (answered n peer term es r) = Unit
  Deposed (advance n term) = Unit
  Deposed (apply n) = Unit
  Deposed (propose n type key value id) = Unit

  Step-LeaderWaits :
      {a b : Node} (s : Step a b) → Deposed s → LeaderWaits (books a) → LeaderWaits (books b)
  Step-LeaderWaits (vote n req) d w = (handle_request_vote-Keeps n req).waits w
  Step-LeaderWaits (append n req) d w = (handle_append_entries-Keeps n req).waits w
  Step-LeaderWaits (installed n req) d w = elim (dec_lt req.term (current_term n)) [
    | yes p ↦ λ h. ap (λ (x : Books). x.waiters) (books-stale_install n req p) ∙ w d
    | no p ↦
        role-LeaderWaits (books n) _ follower (books-handle_install_snapshot n req (omega arith)) d
          w
  ]
  Step-LeaderWaits (stand n h) d w =
      role-LeaderWaits (books n) _ candidate (books-become_candidate n) d w
  Step-LeaderWaits (step_down n term id addr) d w = (become_follower-Keeps n term id addr).waits w
  Step-LeaderWaits (lead T n) d w = (become_leader-Keeps T n).waits w
  Step-LeaderWaits (replicate T n) d w = (broadcast_append_entries-Keeps T n).waits w
  Step-LeaderWaits (answered n peer term es r) d w =
      (on_append_response-Keeps n peer term es r).waits w
  Step-LeaderWaits (advance n term) d w =
      subst LeaderWaits (sym (books-try_advance_commit_index n term)) w
  Step-LeaderWaits (apply n) d w = (apply_committed-Keeps n).waits w
  Step-LeaderWaits (propose n type key value id) d w =
      (begin_propose-Keeps n type key value id).waits w

  -- Any number of such steps.
  pub data Orderly : Node → Node → Type 0 where
    none_yet : (n : Node) → Orderly n n
    after : {a b c : Node} → Orderly a b → (s : Step b c) → Deposed s → Orderly a c

  Orderly-LeaderWaits : {a b : Node} → Orderly a b → LeaderWaits (books a) → LeaderWaits (books b)
  Orderly-LeaderWaits (none_yet n) w = w
  Orderly-LeaderWaits (after o s d) w = Step-LeaderWaits s d (Orderly-LeaderWaits o w)

  pub new_books : Books
  new_books = record { waiters = []; sent = []; next = 0; role = follower }

  books-new_node :
      (id : Bytes) (peers : List PeerInfo) (opts : Options) (db : Engine.Db E) (sm : StateMachine)
      (disk : FileSystem.Disk F) (addr : Bytes) {n : Node}
      → new_node id peers opts db sm disk addr ≡ ok n
      → books n ≡ new_books
  unfolding new_node new_books
  books-new_node id peers opts db sm disk addr h =
      let (log, opened, rest) = >>=-eq-ok (open_persistent_log db) _ h in
      of_restored (fresh_node id peers opts log sm disk addr) (load_latest disk) rest
    where
      same : {x y : Node} → Result.ok x ≡ Result.ok y → x ≡ y
      same e = cc

      of_restored :
          (a : Node) (o : Result (Option (Snapshot × SnapshotMeta))) {b : Node}
          → restored a o ≡ ok b
          → books b ≡ books a
      of_restored a (err e) h = cc
      of_restored a (ok none) h = ap books (sym (same h))
      of_restored a (ok (some (snap, meta))) h = ground arith

  new_books-TellsOnce : TellsOnce new_books
  unfolding waiting told new_books
  new_books-TellsOnce = record { once = λ ch. omega arith; fresh = λ ch h. omega arith }

  module _ (id : Bytes) (peers : List PeerInfo) (opts : Options) (db : Engine.Db E)
      (sm : StateMachine) (disk : FileSystem.Disk F) (addr : Bytes) {a : Node}
      (made : new_node id peers opts db sm disk addr ≡ ok a) where
    -- After any sequence of handlers on a node that NewNode made, a channel of Propose either
    -- still waits for its message at one index or was sent one message, or neither: never two of
    -- them.
    pub told_once :
        {b : Node} (ch : ℕ) → Reach a b → waiting ch b.write_waiters + told ch b.delivered ≤ 1
    told_once ch run =
        (Reach-TellsOnce run (
            subst TellsOnce (sym (books-new_node id peers opts db sm disk addr made))
              new_books-TellsOnce)).once
          ch

    -- After any sequence of handlers on a node that NewNode made, in which no snapshot is
    -- installed on a leader and no leader becomes a candidate, a node that is not the leader has
    -- no waiting writers.
    pub only_leaders_wait : {b : Node} → Orderly a b → is_leader b ≡ false → b.write_waiters ≡ []
    only_leaders_wait run = Orderly-LeaderWaits run (
        subst LeaderWaits (sym (books-new_node id peers opts db sm disk addr made))
          (unfold new_books in λ h. refl))
