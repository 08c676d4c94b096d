-- ===== src/Raft/Log/Reads.antt =====
-- What the reading methods of internal/raft/log.go return of a well-formed log.
use distributed_kv.Common.{
  inl, inr, ◌⊎◌, ℕ, zero, suc, ◌+◌, ◌-◌, ◌≤◌, ◌<◌, ◌≡◌, refl, Option, none, some, List, [], ◌∷◌,
  arith, get_elem?, sym, ap, ◌∙◌, Option-cases, ok, ◌>>=◌, count_from, length, lt→leb, le→ltb,
  lt→ltb, dec_lt, Bytes,
}
use distributed_kv.Storage.{Engine, Codec}
use distributed_kv.Raft.Entry.{Entry}
use distributed_kv.Raft.Log.{PersistentLog, log_key, get_entry, collect, range, term_at}
use distributed_kv.Raft.Log.Keys.{IsContiguous, decode_at}
use distributed_kv.Raft.Log.Cache.{cached_at}
use distributed_kv.Raft.Log.Valid.{IsValid, held}
use distributed_kv.Raft.Log.Recover.{IsReadable, answer}

module _ ⦃C : Codec Entry⦄ where
  decode-answer :
      (o : Option Bytes) (e : Entry) → decode_at o ≡ some e → (answer o >>= Codec.decode C) ≡ ok e
  decode-answer o e h = ground arith

module _ ⦃E : Engine⦄ ⦃C : Codec Entry⦄ where
  -- The log holds the entries from the index on.
  abbrev pub IsSlice : PersistentLog → ℕ → List Entry → Type 0
  IsSlice pl from es = (k : ℕ) (x : Entry) → get_elem? es k ≡ some x → held pl (from + k) ≡ some x

  IsSlice-cons :
      (pl : PersistentLog) (from : ℕ) (x : Entry) (es : List Entry)
      → held pl from ≡ some x
      → IsSlice pl (suc from) es
      → IsSlice pl from (x ∷ es)
  IsSlice-cons pl from x es h s zero y e =
      let q : from ≡ from + 0 = omega arith in ap (λ i. held pl i) (sym q) ∙ h ∙ e
  IsSlice-cons pl from x es h s (suc k) y e =
      let q : suc from + k ≡ from + suc k = omega arith in ap (λ i. held pl i) (sym q) ∙ s k y e

module _ ⦃E : Engine⦄ ⦃C : Codec Entry⦄ (pl : PersistentLog) (v : IsValid pl)
    (r : IsReadable pl.engine) where
  -- For an index behind the boundary and up to the end of a well-formed log, where the engine's
  -- reads do not fail, Get returns the entry that the engine holds there, cached or not, and the
  -- entry has that index.
  pub get_entry_lem :
      (i : ℕ)
      → pl.last_included_index < i
      → i ≤ pl.last_index
      → (e : Entry) × (get_entry pl i ≡ ok e) × (held pl i ≡ some e) × (e.index ≡ i)
  unfolding get_entry
  get_entry_lem i lo hi =
      let (e, h, x) = v.retains.inside i lo hi in
      (
        e,
        elim (Option-cases (cached_at pl.tail_cache i)) [
          | inl c ↦
              rw (c, lt→leb i pl.last_included_index lo, r.reads (log_key i)) (decode-answer _ e h)
          | inr (d, c) ↦ let (g, _, _) = v.coherent i d c in rw c (ground arith)
        ],
        h,
        x,
      )

  collect_lem :
      (from n : ℕ)
      → pl.last_included_index < from
      → from + n ≤ pl.last_index + 1
      → (es : List Entry) × (collect pl (count_from from n) ≡ ok es)
        × IsContiguous from es
        × IsSlice pl from es
        × (length es ≡ n)
  unfolding collect
  collect_lem from zero lo hi = ([], refl, tt, λ k x h. cc, refl)
  collect_lem from (suc n) lo hi =
      let (x, g, h, i) = get_entry_lem from lo (omega arith) in
      let (es, e, c, s, k) = collect_lem (suc from) n (omega arith) (omega arith) in
      (x ∷ es, rw (g, e), (i, c), IsSlice-cons pl from x es h s, omega (arith, k))

  -- For bounds behind the boundary and up to the end of a well-formed log, where the engine's
  -- reads do not fail, Range succeeds with consecutive entries from the lower bound on, each the
  -- one that the log holds at its index, as many as the bounds say, and none if they cross.
  pub range_lem :
      (from to : ℕ)
      → pl.last_included_index < from
      → to ≤ pl.last_index
      → (es : List Entry) × (range pl from to ≡ ok es)
        × IsContiguous from es
        × IsSlice pl from es
        × (length es ≡ suc to - from)
  unfolding range
  range_lem from to lo hi = elim (dec_lt to from) [
    | yes p ↦ ([], rw (lt→ltb _ _ p), tt, λ k x h. cc, omega arith)
    | no p ↦
        let (es, e, c, s, n) = collect_lem from (suc to - from) lo (omega arith) in
        (es, rw (le→ltb to from (omega arith)) e, c, s, n)
  ]

  -- On a well-formed log whose engine's reads do not fail, TermAt gives the boundary's term at the
  -- boundary, the term of the held entry behind it up to the end, and no term below the boundary
  -- or beyond the end.
  pub term_at_lem :
      (i : ℕ)
      → (i ≡ pl.last_included_index → term_at pl i ≡ some pl.last_included_term)
        × (pl.last_included_index < i
            → i ≤ pl.last_index
            → (e : Entry) × (held pl i ≡ some e) × (term_at pl i ≡ some e.term))
        × ((i < pl.last_included_index) ⊎ (pl.last_index < i) → term_at pl i ≡ none)
  unfolding term_at
  term_at_lem i = (
    λ p. ground arith,
    λ p q. let (e, g, h, x) = get_entry_lem i p q in (e, h, ground (arith, v.first)),
    λ p. ground (arith, v.first, v.ordered),
  )
