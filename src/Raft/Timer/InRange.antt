-- ===== src/Raft/Timer/InRange.antt =====
-- The timeouts that internal/raft/node_lifecycle.go arms.
use distributed_kv.Common.{ℕ, ◌<◌, ◌≡◌, true, false, arith, u64_mod, ◌^◌, sub64}
use distributed_kv.Config.{signed_lt}
use distributed_kv.Raft.Types.{Options}
use distributed_kv.Raft.Timer.{election_timeout, next_timeout}

-- rand.Int63n(n) for a positive int64 n
abbrev pub DrawsBelow : (ℕ → ℕ) → Type 0
DrawsBelow draw = (span : ℕ) → 0 < span → span < 2 ^ 63 → draw span < span

pub next_timeout-in_range :
    (opts : Options) (draw : ℕ → ℕ)
    → opts.election_timeout_min < u64_mod
    → opts.election_timeout_max < u64_mod
    → signed_lt opts.election_timeout_min opts.election_timeout_max ≡ true
    → DrawsBelow draw
    → (signed_lt (next_timeout opts draw) opts.election_timeout_min ≡ false)
      × (signed_lt (next_timeout opts draw) opts.election_timeout_max ≡ true)
unfolding next_timeout election_timeout
next_timeout-in_range opts draw a b h d =
    let lo : ℕ = opts.election_timeout_min in
    let hi : ℕ = opts.election_timeout_max in
    let span : ℕ = sub64 (sub64 hi lo) 0 in ground (arith, d span)
