-- ===== src/Raft/Cluster/Safety.antt =====
-- Election safety: the votes of internal/raft/election.go over a cluster.
use distributed_kv.Common.{
  ℕ, ◌+◌, ◌≤◌, ◌≡◌, ◌≢◌, refl, sym, ◌∙◌, List, [], Bytes, bytes_discrete, arith, In, length, ite,
}
use distributed_kv.Raft.Log.{PersistentLog}
use distributed_kv.Raft.Log.Votes.{KeepsVote}
use distributed_kv.Raft.Log.Valid.{IsValid}
use distributed_kv.Raft.Election.{needed_votes}
use distributed_kv.Raft.Election.Grants.{IsReliable}
use distributed_kv.Raft.Election.Count.{needed_votes_majority}
use distributed_kv.Raft.Ballots.{Voter}
use distributed_kv.Raft.Cluster.{Grant, votes_for, Cluster, with_voter}
use distributed_kv.Raft.Cluster.Votes.{gave-In, common_voter}
use distributed_kv.Storage.{Engine, Codec}
use distributed_kv.Raft.Entry.{Entry}

module _ ⦃E : Engine⦄ ⦃C : Codec Entry⦄ where
  -- What the node that gave a vote still knows of it.
  pub record Remembers (n : PersistentLog) (g : Grant) : Type 0 where
    pub named : g.candidate ≢ []
    pub not_later : g.term ≤ n.current_term
    pub kept : g.term ≡ n.current_term → n.voted_for ≡ g.candidate

  Remembers-KeepsVote :
      (a b : PersistentLog) (g : Grant) → KeepsVote a b → Remembers a g → Remembers b g
  Remembers-KeepsVote a b g k r = record {
    named = r.named;
    not_later = omega (arith, k.term_le, r.not_later);
    kept = λ e.
        let t : g.term ≡ a.current_term = omega (arith, k.term_le, r.not_later) in
        let w = r.kept t in k.vote_kept (omega arith) (λ z. r.named (sym w ∙ z)) ∙ w;
  }

  -- The votes given agree with what the voters know, and no voter gave two in one term.
  pub record Honest (c : Cluster) : Type 0 where
    pub remembered : (g : Grant) → In g c.grants → Remembers (c.voter g.voter).log g
    pub once :
        (g h : Grant)
        → In g c.grants
        → In h c.grants
        → g.voter ≡ h.voter
        → g.term ≡ h.term
        → g.candidate ≡ h.candidate

  module _ (c : Cluster) (v : Bytes) (u : Voter) (k : KeepsVote (c.voter v).log u.log)
      (i : Honest c) where
    moved :
        (g : Grant)
        → Remembers (c.voter g.voter).log g
        → Remembers ((with_voter c v u c.grants).voter g.voter).log g
    moved g r = at (bytes_discrete v g.voter)
      where
        at : (d : Dec (v ≡ g.voter)) → Remembers (ite d u (c.voter g.voter)).log g
        at (yes p) = Remembers-KeepsVote (c.voter v).log u.log g k (rw p r)
        at (no p) = r

    pub Honest-quiet : Honest (with_voter c v u c.grants)
    Honest-quiet = record { remembered = λ g m. moved g (i.remembered g m); once = i.once }

  pub Honest-unique :
      {c : Cluster} (members : List Bytes) (peers term : ℕ) (x y : Bytes)
      → Honest c
      → length members ≡ peers + 1
      → needed_votes peers ≤ votes_for c.grants members term x
      → needed_votes peers ≤ votes_for c.grants members term y
      → x ≡ y
  Honest-unique {c = c} members peers term x y honest size a b =
      let (v, p, q) =
        common_voter c.grants members term x y (omega (arith, needed_votes_majority peers)) in
      honest.once _ _ (gave-In c.grants v term x p) (gave-In c.grants v term y q) refl refl

  module _ (r : IsReliable E) where
    AllValid : Cluster → Type 0
    AllValid c = (v : Bytes) → IsValid (c.voter v).log
