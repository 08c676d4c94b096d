-- ===== src/Server/Reads.antt =====
-- What a client may conclude from an answer to Get of internal/server/client_server.go.
use distributed_kv.Common.{
  ℕ, ◌+◌, ◌*◌, ◌<◌, ◌≡◌, refl, true, Option, none, some, List, Bytes, Error, not_leader, wrapped,
  Result, ok, err, length, Bool-cases, inl, inr,
}
use distributed_kv.Storage.{Engine, Codec}
use distributed_kv.Kv.StateMachine.{Pairs, get_value}
use distributed_kv.Raft.Entry.{Entry}
use distributed_kv.Raft.SnapshotStore.{FileSystem, SnapshotMeta}
use distributed_kv.Raft.State.{Node, current_term, is_leader}
use distributed_kv.Raft.Waiters.{ReadWakeup}
use distributed_kv.Raft.ReadIndex.{Beat, linearizable_read, confirm_leadership, after_confirm}
use distributed_kv.Raft.ReadIndex.Acks.{acks, confirm_leadership-majority}
use distributed_kv.Server.ClientServer.{
  status_ok, status_of, status_for, GetRequest, after_read, found_response, get,
}

status_of-ne-ok : (e : Error) → status_of e ≡ status_ok → ⊥
unfolding status_of
status_of-ne-ok not_leader h = cc
status_of-ne-ok Error.deadline_exceeded h = cc
status_of-ne-ok Error.read_index_timeout h = cc
status_of-ne-ok Error.proposal_dropped h = cc
status_of-ne-ok (wrapped text e) h = status_of-ne-ok e h
status_of-ne-ok Error.not_found h = cc
status_of-ne-ok Error.canceled h = cc
status_of-ne-ok Error.node_stopping h = cc
status_of-ne-ok Error.panicked h = cc
status_of-ne-ok (Error.compacted i j) h = cc
status_of-ne-ok (Error.other text) h = cc

module _ (error_text : Error → Bytes) ⦃E : Engine⦄ ⦃C : Codec Entry⦄ ⦃P : Codec Pairs⦄
    ⦃M : Codec SnapshotMeta⦄ ⦃F : FileSystem⦄ where
  found_response-ok :
      (r : Result (Option Bytes))
      → (found_response error_text r).status ≡ status_ok
      → r ≡ ok (some (found_response error_text r).value)
  found_response-ok (err e) h = cc
  found_response-ok (ok none) h = cc
  found_response-ok (ok (some v)) h = refl

  after_read-ok :
      (key : Bytes) (r : Option Error × Node)
      → (after_read error_text key r).0.status ≡ status_ok
      → (r.0 ≡ none)
        × (get_value (after_read error_text key r).1.sm key
            ≡ ok (some (after_read error_text key r).0.value))
  unfolding status_for
  after_read-ok key (some e, n) h = absurd (status_of-ne-ok e h)
  after_read-ok key (none, n) h = (refl, found_response-ok (get_value n.sm key) h)

  after_confirm-ok :
      (i : ℕ) (wakeup : ReadWakeup) (others : Node → Node) (r : Option Error × Node)
      → (after_confirm i wakeup others r).0 ≡ none
      → r.0 ≡ none
  after_confirm-ok i wakeup others (some e, n) h = h
  after_confirm-ok i wakeup others (none, n) h = refl

  -- If Get answers a linearizable request with OK, then the node was leader, more than half of the
  -- cluster, itself included, acknowledged it in its term before the check ended, and the value is
  -- what its state machine holds at the key.
  pub get-confirmed :
      (n : Node) (beats : List (Beat Node)) (others : Node → Node) (wakeup : ReadWakeup)
      (req : GetRequest)
      → req.linearizable ≡ true
      → (get error_text n beats others wakeup req).0.status ≡ status_ok
      → (is_leader n ≡ true)
        × (length n.peers + 1 < 2 * (1 + acks n (current_term n) (length n.peers) beats))
        × (get_value (get error_text n beats others wakeup req).1.sm req.key
            ≡ ok (some (get error_text n beats others wakeup req).0.value))
  unfolding get linearizable_read
  get-confirmed n beats others wakeup req l h =
      let (e, v) = after_read-ok req.key (linearizable_read n beats others wakeup) (rw l at h) in
      elim (Bool-cases (is_leader n)) [
        | inl t ↦ (
          t,
          confirm_leadership-majority n (current_term n) beats (
              after_confirm-ok n.commit_index wakeup others
                (confirm_leadership n (current_term n) beats) (rw t at e)),
          rw l v,
        )
        | inr t ↦ absurd (not_err (rw t at e))
      ]
    where
      not_err : ◌≡◌ {A = Option Error} (some not_leader) none → ⊥
      not_err q = cc
