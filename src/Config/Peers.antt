-- ===== src/Config/Peers.antt =====
-- The list of peers of internal/config/config.go, written and read back.
use distributed_kv.Common.{
  ℕ, ◌≡◌, ◌≢◌, refl, false, List, [], ◌∷◌, ◌++◌, Bytes, some, ok, arith, eq_bytes, bytes_discrete,
  ◌>>=◌,
}
use distributed_kv.Config.Text.{split, split_first, trim_space}
use distributed_kv.Config.{Peer, parse_peer, parse_parts, parse_peers}

-- The text `id=raftAddr|clientAddr` of a peer.
abbrev pub peer_text : Peer → Bytes
peer_text p = p.id ++ (b'=' ∷ (p.raft_addr ++ (b'|' ∷ p.client_addr)))

-- The value of PEERS for a list of peers.
pub peers_text : List Peer → Bytes
peers_text [] = []
peers_text (p ∷ []) = peer_text p
peers_text (p ∷ q ∷ ps) = peer_text p ++ b',' ∷ peers_text (q ∷ ps)

-- The byte `c` is not in the string.
abbrev pub Without : ℕ → Bytes → Type 0
Without c [] = Unit
Without c (x ∷ s) = (x ≢ c) × Without c s

-- The separators stand in no field where they would be taken for one, and the text has no white
-- space at its ends.
pub record IsPlain (p : Peer) : Type 0 where
  pub id_plain : Without b'=' p.id
  pub raft_plain : Without b'|' p.raft_addr
  pub no_comma : Without b',' (peer_text p)
  pub trimmed : trim_space (peer_text p) ≡ peer_text p

abbrev pub AllPlain : List Peer → Type 0
AllPlain [] = Unit
AllPlain (p ∷ ps) = IsPlain p × AllPlain ps

split_first-append : (c : ℕ) (s r : Bytes) → Without c s → split_first c (s ++ c ∷ r) ≡ some (s, r)
unfolding split_first
split_first-append c [] r h = ground arith
split_first-append c (x ∷ s) r h = ground (arith, split_first-append c s r h.1, h.0)

split-plain : (c : ℕ) (s : Bytes) → Without c s → split c s ≡ s ∷ []
unfolding split
split-plain c [] h = refl
split-plain c (x ∷ s) h = ground (arith, split-plain c s h.1, h.0)

split-append : (c : ℕ) (s r : Bytes) → Without c s → split c (s ++ c ∷ r) ≡ s ∷ split c r
unfolding split
split-append c [] r h = ground arith
split-append c (x ∷ s) r h = ground (arith, split-append c s r h.1, h.0)

parse_peer-peer_text : (p : Peer) → IsPlain p → parse_peer (peer_text p) ≡ ok p
unfolding parse_peer
parse_peer-peer_text p h =
    rw
      (
        split_first-append b'=' p.id (p.raft_addr ++ (b'|' ∷ p.client_addr)) h.id_plain,
        split_first-append b'|' p.raft_addr p.client_addr h.raft_plain,
      )
      refl

peer_text-ne-nil : (p : Peer) → eq_bytes (peer_text p) [] ≡ false
peer_text-ne-nil p = go p.id
  where
    go : (a : Bytes) → eq_bytes (a ++ (b'=' ∷ (p.raft_addr ++ (b'|' ∷ p.client_addr)))) [] ≡ false
    go [] = ground arith
    go (x ∷ a) = ground arith

parse_part :
    (p : Peer) (rest : List Bytes)
    → IsPlain p
    → parse_parts (peer_text p ∷ rest) ≡ (parse_parts rest >>= λ ps. ok (p ∷ ps))
unfolding parse_parts
parse_part p rest h = rw (h.trimmed, peer_text-ne-nil p, parse_peer-peer_text p h) refl

-- parsePeers reads a list of peers back from their specifications joined by commas, if the id has
-- no equals sign, the Raft address no bar, no field a comma, and a specification no white space at
-- its ends.
pub parse_peers-peers_text : (ps : List Peer) → AllPlain ps → parse_peers (peers_text ps) ≡ ok ps
unfolding parse_peers peers_text bytes_discrete
parse_peers-peers_text [] h = unfold split parse_parts trim_space in refl
parse_peers-peers_text (p ∷ []) h =
    rw (split-plain b',' (peer_text p) h.0.no_comma, parse_part p [] h.0)
      (unfold parse_parts in refl)
parse_peers-peers_text (p ∷ q ∷ ps) h =
    rw
      (
        split-append b',' (peer_text p) (peers_text (q ∷ ps)) h.0.no_comma,
        parse_part p (split b',' (peers_text (q ∷ ps))) h.0,
      )
      (rw (parse_peers-peers_text (q ∷ ps) h.1) refl)
