-- ===== src/Kv/StateMachine/Reads.antt =====
-- Reads after applied operations, of internal/kv/state_machine.go.
use distributed_kv.Common.{
  ℕ, ◌≡◌, refl, Option, none, some, Bytes, bytes_discrete, arith, ite, Error, ok, false,
}
use distributed_kv.Storage.{Engine}
use distributed_kv.Kv.StateMachine.{
  StateMachine, data_key, found_value, get_value, apply_put, apply_delete, finish,
}
use distributed_kv.Raft.Log.Recover.{IsReadable, answer}

module _ ⦃E : Engine⦄ (r : (d : Engine.Db E) → IsReadable d) where
  open E use {Db, contents, get, set_key, delete_key, set-ok, delete-ok}

  -- Get is the engine's content at the key.
  pub get_value_lem :
      (s : StateMachine) (key : Bytes) → get_value s key ≡ ok (contents s.engine (data_key key))
  unfolding get_value
  get_value_lem s key =
      rw ((r s.engine).reads (data_key key)) (found (contents s.engine (data_key key)))
    where
      found : (o : Option Bytes) → found_value (answer o) ≡ ok o
      found none = refl
      found (some v) = refl

  finish-engine :
      (o : Option Error × Db) (s : StateMachine) (index : ℕ)
      → (finish o s index).0 ≡ none
      → (o.0 ≡ none)
        × ((finish o s index).1.engine ≡ o.1)
        × ((finish o s index).1.last_applied ≡ index)
  finish-engine (none, db) s index h = (refl, refl, refl)
  finish-engine (some e, db) s index h = cc

  -- If the engine's reads do not fail and ApplyPut returns no error, Get afterwards returns the
  -- new value at the key and what it returned before at every other key.
  pub get_value-apply_put :
      (s : StateMachine) (index : ℕ) (key value other_key : Bytes)
      → (apply_put s index key value).0 ≡ none
      → get_value (apply_put s index key value).1 other_key
        ≡ ite (bytes_discrete key other_key) (ok (some value)) (get_value s other_key)
  unfolding apply_put
  get_value-apply_put s index key value j h =
      let (a, b, c) =
        finish-engine (set_key s.engine (data_key key) value (record { sync = false })) s index h in
      let s' = finish (set_key s.engine (data_key key) value (record { sync = false })) s index in
      rw (get_value_lem s'.1 j, get_value_lem s j, b, set-ok s.engine _ _ _ a)
        (elim (bytes_discrete key j) [ yes p ↦ ground (arith) | no p ↦ ground (arith) ])

  -- If the engine's reads do not fail and ApplyDelete returns no error, Get afterwards finds
  -- nothing at the key and returns what it returned before at every other key.
  pub get_value-apply_delete :
      (s : StateMachine) (index : ℕ) (key other_key : Bytes)
      → (apply_delete s index key).0 ≡ none
      → get_value (apply_delete s index key).1 other_key
        ≡ ite (bytes_discrete key other_key) (ok none) (get_value s other_key)
  unfolding apply_delete
  get_value-apply_delete s index key j h =
      let (a, b, c) =
        finish-engine (delete_key s.engine (data_key key) (record { sync = false })) s index h in
      let s' = finish (delete_key s.engine (data_key key) (record { sync = false })) s index in
      rw (get_value_lem s'.1 j, get_value_lem s j, b, delete-ok s.engine _ _ a)
        (elim (bytes_discrete key j) [ yes p ↦ ground (arith) | no p ↦ ground (arith) ])
