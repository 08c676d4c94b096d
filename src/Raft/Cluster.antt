-- ===== src/Raft/Cluster.antt =====
-- A cluster of nodes of internal/raft and the votes that they have given, by HandleRequestVote and, as
-- candidates, to themselves. Its nodes move one read or write at a time.
pub mod Votes
pub mod Safety
use distributed_kv.Common.{
  ℕ, suc, ◌+◌, ◌≢◌, Bool, true, false, ◌&&◌, List, [], ◌∷◌, ◌++◌, Bytes, bytes_discrete, eq_bytes,
  ◌==◌, ite, if◌then◌else◌,
}
use distributed_kv.Storage.{Engine, Codec}
use distributed_kv.Raft.Entry.{Entry}
use distributed_kv.Raft.Ballots.{
  Pending, candidacy, discovery, ballot, Voter, Part, reads_term, finds_later, finds_free, writes,
  changes_log, crashes, Undisturbed,
}

-- A vote that a node gave to a candidate.
pub record Grant : Type 0 where
  pub voter : Bytes
  pub term : ℕ
  pub candidate : Bytes

-- Whether the vote of `voter` in `term` for `candidate` is among the votes given.
unfoldable pub gave : List Grant → Bytes → ℕ → Bytes → Bool
gave [] voter term candidate = false
gave (g ∷ gs) voter term candidate =
    let rest = gave gs voter term candidate in
    if eq_bytes g.voter voter && (g.term == term) && eq_bytes g.candidate candidate
    then true
    else rest

-- How many of the members gave it.
unfoldable pub votes_for : List Grant → List Bytes → ℕ → Bytes → ℕ
unfolding gave
votes_for gs [] term candidate = 0
votes_for gs (v ∷ vs) term candidate =
    let rest = votes_for gs vs term candidate in if gave gs v term candidate then suc rest else rest

-- The vote that a call of SetTermAndVote gives.
abbrev pub given : Bytes → Bytes → Pending → List Grant
given voter id (candidacy term) = record { voter = voter; term = term; candidate = id } ∷ []
given voter id (discovery term) = []
given voter id (ballot term candidate) =
    record { voter = voter; term = term; candidate = candidate } ∷ []

-- Candidates have ids, as config.Load demands.
abbrev pub Named : Bytes → Pending → Type 0
Named id (candidacy term) = id ≢ []
Named id (discovery term) = Unit
Named id (ballot term candidate) = candidate ≢ []

module _ ⦃E : Engine⦄ ⦃C : Codec Entry⦄ where
  pub record Cluster : Type 0 where
    pub voter : Bytes → Voter
    pub grants : List Grant

  abbrev pub with_voter : Cluster → Bytes → Voter → List Grant → Cluster
  with_voter c v u gs = record { voter = λ w. ite (bytes_discrete v w) u (c.voter w); grants = gs }

  abbrev pub granted_by : Bytes → {u w : Voter} → Part u w → List Grant
  granted_by v (writes u before p after e fits) = given v u.id p
  granted_by v (reads_term u) = []
  granted_by v (finds_later u term lt fits) = []
  granted_by v (finds_free u term candidate free fits) = []
  granted_by v (changes_log u w l) = []
  granted_by v (crashes u h) = []

  abbrev pub NamedPart : {u w : Voter} → Part u w → Type 0
  NamedPart (writes u before p after e fits) = Named u.id p
  NamedPart (reads_term u) = Unit
  NamedPart (finds_later u term lt fits) = Unit
  NamedPart (finds_free u term candidate free fits) = Unit
  NamedPart (changes_log u w l) = Unit
  NamedPart (crashes u h) = Unit

  -- One read or write of one node, or its restart.
  pub data Turn : Cluster → Cluster → Type 0 where
    takes :
        (c : Cluster) (v : Bytes) {u : Voter} (p : Part (c.voter v) u)
        → Turn c (with_voter c v u (granted_by v p ++ c.grants))

  pub data Turns : Cluster → Cluster → Type 0 where
    at_start : (c : Cluster) → Turns c c
    later : {a b c : Cluster} → Turns a b → Turn b c → Turns a c

  -- No turn meets a race, and candidates have ids.
  abbrev pub Fair : {a b : Cluster} → Turn a b → Type 0
  Fair (takes c v p) = Undisturbed p × NamedPart p

  abbrev pub AllFair : {a b : Cluster} → Turns a b → Type 0
  AllFair (at_start c) = Unit
  AllFair (later ts t) = AllFair ts × Fair t
