-- ===== src/Main/Timeouts.antt =====
-- The election timeouts of a node that was started with a configuration that Load accepts.
use distributed_kv.Common.{ℕ, ◌<◌, ◌≡◌, true, false, u64_mod, ok}
use distributed_kv.Config.{Config, Sources, signed_lt, load}
use distributed_kv.Config.Usable.{load-IsUsable}
use distributed_kv.Raft.Timer.{next_timeout}
use distributed_kv.Raft.Timer.InRange.{DrawsBelow, next_timeout-in_range}
use distributed_kv.Main.{options_of}

-- For a configuration that Load accepts, with timeouts that fit in 64 bits, and a random source
-- that draws below the positive int64 bound that it is given, every election timeout that the
-- timer loop arms is not below the minimum and below the maximum, as int64, also where their
-- difference overflows.
pub next_timeout-load :
    (src : Sources) (cfg : Config) (draw : ℕ → ℕ)
    → load src ≡ ok cfg
    → cfg.election_timeout_min < u64_mod
    → cfg.election_timeout_max < u64_mod
    → DrawsBelow draw
    → (signed_lt (next_timeout (options_of cfg) draw) cfg.election_timeout_min ≡ false)
      × (signed_lt (next_timeout (options_of cfg) draw) cfg.election_timeout_max ≡ true)
next_timeout-load src cfg draw h a b d =
    let u = load-IsUsable src cfg h in
    next_timeout-in_range (options_of cfg) draw a b u.timeouts_ordered d
