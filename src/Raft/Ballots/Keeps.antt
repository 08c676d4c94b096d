-- ===== src/Raft/Ballots/Keeps.antt =====
-- What undisturbed reads and writes of the term and the vote keep.
use distributed_kv.Common.{◌≡◌, sym, ◌∙◌, ap, inl, inr, [], Bytes, ok}
use distributed_kv.Storage.{Engine, Codec}
use distributed_kv.Raft.Entry.{Entry}
use distributed_kv.Raft.Log.{PersistentLog}
use distributed_kv.Raft.Log.Valid.{IsValid}
use distributed_kv.Raft.Log.Preserve.{set_term_and_vote-IsValid}
use distributed_kv.Raft.Log.Recover.{IsReadable, open-recovers}
use distributed_kv.Raft.Log.Runs.{
  Write, appends, truncates, compacts, rebases, votes, restarts, Write-IsValid, reopened,
}
use distributed_kv.Raft.Log.Votes.{
  KeepsVote, KeepsVote-same, KeepsVote-refl, set_term_and_vote-KeepsVote, append_entries-KeepsVote,
  truncate_suffix-KeepsVote, compact_prefix-KeepsVote, restore_snapshot_boundary-KeepsVote,
}
use distributed_kv.Raft.Ballots.{
  Pending, candidacy, discovery, ballot, Voter, Part, reads_term, finds_later, finds_free, writes,
  changes_log, crashes, Parts, none_yet, then_part, LeavesVote, Current, Undisturbed, term_of,
  vote_of, write_pending,
}

module _ ⦃E : Engine⦄ ⦃C : Codec Entry⦄ where
  Write-KeepsVote : {a b : PersistentLog} (w : Write a b) → LeavesVote w → KeepsVote a b
  Write-KeepsVote (appends pl e es sync cont lo hi fits) l = append_entries-KeepsVote pl _ sync
  Write-KeepsVote (truncates pl from lo) l = truncate_suffix-KeepsVote pl from
  Write-KeepsVote (compacts pl index term hi ht) l = compact_prefix-KeepsVote pl index term
  Write-KeepsVote (rebases pl index term hi ht) l =
      restore_snapshot_boundary-KeepsVote pl index term
  Write-KeepsVote (votes pl term voted_for ht) l = absurd l
  Write-KeepsVote (restarts pl h) l = absurd l

  write_pending-KeepsVote :
      (id : Bytes) (log : PersistentLog) (p : Pending)
      → Current log p
      → KeepsVote log (write_pending id log p)
  write_pending-KeepsVote id log (candidacy term) c =
      set_term_and_vote-KeepsVote log term id (inl c)
  write_pending-KeepsVote id log (discovery term) c =
      set_term_and_vote-KeepsVote log term [] (inl c)
  write_pending-KeepsVote id log (ballot term candidate) c =
      set_term_and_vote-KeepsVote log term candidate (inr c)

  module _ (r : (d : Engine.Db E) → IsReadable d) where
    pub Part-IsValid : {u v : Voter} → Part u v → IsValid u.log → IsValid v.log
    Part-IsValid (reads_term u) i = i
    Part-IsValid (finds_later u term lt fits) i = i
    Part-IsValid (finds_free u term candidate free fits) i = i
    Part-IsValid (writes u before p after e fits) i =
        set_term_and_vote-IsValid u.log (term_of p) (vote_of u.id p) fits i
    Part-IsValid (changes_log u w l) i = Write-IsValid r w i
    Part-IsValid (crashes u h) i = Write-IsValid r (restarts u.log h) i

    pub Part-KeepsVote :
        {u v : Voter} (p : Part u v) → Undisturbed p → IsValid u.log → KeepsVote u.log v.log
    Part-KeepsVote (reads_term u) c i = KeepsVote-refl u.log
    Part-KeepsVote (finds_later u term lt fits) c i = KeepsVote-refl u.log
    Part-KeepsVote (finds_free u term candidate free fits) c i = KeepsVote-refl u.log
    Part-KeepsVote (writes u before p after e fits) c i = write_pending-KeepsVote u.id u.log p c
    Part-KeepsVote (changes_log u w l) c i = Write-KeepsVote w l
    Part-KeepsVote (crashes u {pl} h) c i =
        let same : reopened u.log ≡ pl =
          by_answer (sym (open-recovers u.log i (r u.log.engine)) ∙ h) in
        KeepsVote-same u.log pl (sym (ap (λ (x : PersistentLog). x.current_term) same))
          (sym (ap (λ (x : PersistentLog). x.voted_for) same))
      where
        by_answer : {x y : PersistentLog} → ok x ≡ ok y → x ≡ y
        by_answer e = cc

    pub Parts-IsValid : {u v : Voter} → Parts u v → IsValid u.log → IsValid v.log
    Parts-IsValid (none_yet u) i = i
    Parts-IsValid (then_part ps p) i = Part-IsValid p (Parts-IsValid ps i)
