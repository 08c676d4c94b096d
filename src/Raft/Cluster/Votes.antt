-- ===== src/Raft/Cluster/Votes.antt =====
-- Counting the votes of a cluster.
use distributed_kv.Common.{
  ℕ, ◌+◌, ◌<◌, ◌≡◌, refl, true, List, [], ◌∷◌, Bytes, bytes_discrete, arith, In, here, there,
  Bool-cases, inl, inr, length, ◌==◌,
}
use distributed_kv.Raft.Cluster.{Grant, gave, votes_for}

-- A vote that is found was given.
pub gave-In :
    (gs : List Grant) (v : Bytes) (term : ℕ) (x : Bytes)
    → gave gs v term x ≡ true
    → In (record { voter = v; term = term; candidate = x }) gs
unfolding gave
gave-In [] v term x h = cc
gave-In (g ∷ gs) v term x h = elim (bytes_discrete g.voter v) [
  | no p ↦ there (gave-In gs v term x (ground arith))
  | yes p ↦ elim (bytes_discrete g.candidate x) [
    | no q ↦ there (gave-In gs v term x (ground arith))
    | yes q ↦ elim (Bool-cases (g.term == term)) [
      | inr e ↦ there (gave-In gs v term x (ground arith))
      | inl e ↦ let same : g.term ≡ term = ground arith in here (rw (← p, ← q, ← same) refl)
    ]
  ]
]

-- If two candidates have more votes than there are members, a member gave its vote to both.
pub common_voter :
    (gs : List Grant) (members : List Bytes) (term : ℕ) (x y : Bytes)
    → length members < votes_for gs members term x + votes_for gs members term y
    → (v : Bytes) × (gave gs v term x ≡ true) × (gave gs v term y ≡ true)
unfolding votes_for
common_voter gs [] term x y h = absurd (omega arith)
common_voter gs (v ∷ vs) term x y h = elim (Bool-cases (gave gs v term x)) [
  | inl a ↦ elim (Bool-cases (gave gs v term y)) [
    | inl b ↦ (v, a, b)
    | inr b ↦ common_voter gs vs term x y (ground arith)
  ]
  | inr a ↦ common_voter gs vs term x y (ground arith)
]
