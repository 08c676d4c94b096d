-- ===== src/Kv/StateMachine/View.antt =====
-- The key-value store of internal/kv/state_machine.go as a function from keys to values.
use distributed_kv.Common.{
  ℕ, ◌≡◌, refl, ap, ◌∙◌, Option, none, some, Bytes, bytes_discrete, arith, ite, Error, false, List,
  [], ◌∷◌,
}
use mathlib.Core.Path.{fun_ext}
use distributed_kv.Storage.{Engine, WriteOptions, Contents}
use distributed_kv.Raft.Entry.{Entry, EntryType, noop, put, delete, unrecognized}
use distributed_kv.Kv.StateMachine.{StateMachine, data_key, apply_put, apply_delete, finish}

-- What an entry means to a client: a value at a key, or none.
abbrev pub effect_of : EntryType → Entry → Contents → Contents
effect_of put e c key = ite (bytes_discrete e.key key) (some e.value) (c key)
effect_of delete e c key = ite (bytes_discrete e.key key) none (c key)
effect_of noop e c key = c key
effect_of (unrecognized _) e c key = c key

abbrev pub effect : Entry → Contents → Contents
effect e = effect_of e.entry_type e

-- The entries in turn.
unfoldable pub replay : List Entry → Contents → Contents
replay [] c = c
replay (e ∷ es) c = replay es (effect e c)

-- An engine whose single writes do not fail.
pub record IsWritable (E : Engine) : Type 0 where
  pub sets :
      (d : Engine.Db E) (k v : Bytes) (o : WriteOptions) → (Engine.set_key E d k v o).0 ≡ none
  pub deletes :
      (d : Engine.Db E) (k : Bytes) (o : WriteOptions) → (Engine.delete_key E d k o).0 ≡ none

module _ ⦃E : Engine⦄ where
  open E use {Db, contents, set_key, delete_key, set-ok, delete-ok}

  abbrev pub view : StateMachine → Contents
  view s key = contents s.engine (data_key key)

  finish-ok :
      (o : Option Error × Db) (s : StateMachine) (index : ℕ)
      → o.0 ≡ none
      → ((finish o s index).0 ≡ none) × ((finish o s index).1.engine ≡ o.1)
  finish-ok (none, db) s index h = (refl, refl)
  finish-ok (some e, db) s index h = cc

  pub view-apply_put :
      (w : IsWritable E) (s : StateMachine) (index : ℕ) (key value : Bytes)
      → ((apply_put s index key value).0 ≡ none)
        × (view (apply_put s index key value).1
            ≡ (λ k. ite (bytes_discrete key k) (some value) (view s k)))
  unfolding apply_put
  view-apply_put w s index key value =
      let done = w.sets s.engine (data_key key) value (record { sync = false }) in
      let (a, b) =
        finish-ok (set_key s.engine (data_key key) value (record { sync = false })) s index done in
      (
        a,
        fun_ext λ k.
            ap (λ (d : Db). contents d (data_key k)) b
            ∙ ap (λ (c : Contents). c (data_key k))
                (set-ok s.engine (data_key key) value (record { sync = false }) done)
            ∙ (elim (bytes_discrete key k) [ yes p ↦ ground arith | no p ↦ ground arith ]),
      )

  pub view-apply_delete :
      (w : IsWritable E) (s : StateMachine) (index : ℕ) (key : Bytes)
      → ((apply_delete s index key).0 ≡ none)
        × (view (apply_delete s index key).1 ≡ (λ k. ite (bytes_discrete key k) none (view s k)))
  unfolding apply_delete
  view-apply_delete w s index key =
      let done = w.deletes s.engine (data_key key) (record { sync = false }) in
      let (a, b) =
        finish-ok (delete_key s.engine (data_key key) (record { sync = false })) s index done in
      (
        a,
        fun_ext λ k.
            ap (λ (d : Db). contents d (data_key k)) b
            ∙ ap (λ (c : Contents). c (data_key k))
                (delete-ok s.engine (data_key key) (record { sync = false }) done)
            ∙ (elim (bytes_discrete key k) [ yes p ↦ ground arith | no p ↦ ground arith ]),
      )
