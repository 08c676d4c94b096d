-- ===== src/Config.antt =====
-- internal/config/config.go: the configuration of a node from its environment.
pub mod Text
pub mod Peers
pub mod Usable
use distributed_kv.Common.{
  ℕ, ◌+◌, ◌*◌, ◌%◌, ◌^◌, Bool, true, false, List, [], ◌∷◌, Bytes, codes, Option, none, some, Error,
  other, Result, ok, err, wrap_error, ◌>>=◌, if◌then◌else◌, eq_bytes, u64_mod, add64, ltb, not,
}
use distributed_kv.Config.Text.{split, split_first, trim_space, atoi, parse_uint, parse_bool}

pub record Peer : Type 0 where
  pub id : Bytes
  pub raft_addr : Bytes
  pub client_addr : Bytes

-- Durations and the int field are int64, held in two's complement.
pub record Config : Type 0 where
  pub node_id : Bytes
  pub raft_addr : Bytes
  pub client_addr : Bytes
  pub peers : List Peer
  pub data_dir : Bytes
  pub election_timeout_min : ℕ
  pub election_timeout_max : ℕ
  pub heartbeat_interval : ℕ
  pub snapshot_threshold : ℕ
  pub replication_batch_max_entries : ℕ
  pub fsync_on_append : Bool

-- a < b on int64
abbrev pub signed_lt : ℕ → ℕ → Bool
signed_lt a b = ltb (add64 a (2 ^ 63)) (add64 b (2 ^ 63))

-- time.Duration(n) * time.Millisecond
abbrev pub milliseconds : ℕ → ℕ
milliseconds n = (n * 1000000) % u64_mod

unfoldable pub default_config : Config
default_config = record {
  node_id = [];
  raft_addr = [];
  client_addr = [];
  peers = [];
  data_dir = codes "./data";
  election_timeout_min = milliseconds 300;
  election_timeout_max = milliseconds 600;
  heartbeat_interval = milliseconds 75;
  snapshot_threshold = 10000;
  replication_batch_max_entries = 512;
  fsync_on_append = true;
}

abbrev pub invalid_peer : Error
invalid_peer = other (codes "invalid peer spec, want id=raftAddr|clientAddr")

abbrev pub peer_addrs : Bytes → Option (Bytes × Bytes) → Result Peer
peer_addrs id none = err invalid_peer
peer_addrs id (some (raft_addr, client_addr)) =
    ok (record { id = id; raft_addr = raft_addr; client_addr = client_addr })

abbrev pub peer_spec : Option (Bytes × Bytes) → Result Peer
peer_spec none = err invalid_peer
peer_spec (some (id, addrs)) = peer_addrs id (split_first b'|' addrs)

-- One part of the list, trimmed: `id=raftAddr|clientAddr`.
unfoldable pub parse_peer : Bytes → Result Peer
parse_peer part = peer_spec (split_first b'=' part)

unfoldable pub parse_parts : List Bytes → Result (List Peer)
unfolding parse_peer
parse_parts [] = ok []
parse_parts (raw ∷ rest) =
    let part = trim_space raw in
    let others = parse_parts rest in
    if eq_bytes part [] then others else (parse_peer part >>= λ p. others >>= λ ps. ok (p ∷ ps))

unfoldable pub parse_peers : Bytes → Result (List Peer)
unfolding parse_parts
parse_peers s = parse_parts (split b',' s)

-- What Load reads: the environment, empty for a variable that is not set, the file system, and
-- json.Unmarshal into a given value.
pub record Sources : Type 0 where
  pub getenv : Bytes → Bytes
  pub read_file : Bytes → Result Bytes
  pub unmarshal : Bytes → Config → Result Config

-- if v := os.Getenv(name); v != "" { … }
abbrev pub override : Sources → Bytes → (Bytes → Config → Result Config) → Config → Result Config
override src name apply cfg =
    let v = src.getenv name in if eq_bytes v [] then ok cfg else apply v cfg

abbrev pub from_file : Sources → Bytes → Config → Result Config
from_file src path cfg = do
  b ← wrap_error (codes "reading config file") (src.read_file path)
  wrap_error (codes "parsing config file") (src.unmarshal b cfg)

abbrev pub parsed {ℓ} : {A : Type ℓ} → Bytes → Result A → (A → Config) → Result Config
parsed text r set = wrap_error text r >>= λ a. ok (set a)

-- The checks at the end of Load.
unfoldable pub validate : Config → Result Config
validate cfg =
    if eq_bytes cfg.node_id []
    then err (other (codes "NODE_ID is required"))
    else if eq_bytes cfg.raft_addr []
    then err (other (codes "RAFT_ADDR is required"))
    else if eq_bytes cfg.client_addr []
    then err (other (codes "CLIENT_ADDR is required"))
    else if signed_lt cfg.election_timeout_min cfg.election_timeout_max
    then ok cfg
    else err (other (codes "ELECTION_TIMEOUT_MIN_MS must be < ELECTION_TIMEOUT_MAX_MS"))

-- The defaults, the file and the variables, each over the ones before.
unfoldable pub gather : Sources → Result Config
unfolding parse_peers default_config
gather src = do
  c1 ← override src (codes "CONFIG_FILE") (from_file src) default_config
  c2 ← override src (codes "NODE_ID") (λ v c. ok (record c { node_id = v })) c1
  c3 ← override src (codes "RAFT_ADDR") (λ v c. ok (record c { raft_addr = v })) c2
  c4 ← override src (codes "CLIENT_ADDR") (λ v c. ok (record c { client_addr = v })) c3
  c5 ← override src (codes "DATA_DIR") (λ v c. ok (record c { data_dir = v })) c4
  c6 ←
      override src (codes "PEERS")
        (λ v c. parsed (codes "parsing PEERS") (parse_peers v) (λ ps. record c { peers = ps })) c5
  c7 ←
      override src (codes "SNAPSHOT_THRESHOLD")
        (λ v c.
          parsed (codes "parsing SNAPSHOT_THRESHOLD") (parse_uint v)
            (λ n. record c { snapshot_threshold = n }))
        c6
  c8 ←
      override src (codes "REPLICATION_BATCH_MAX_ENTRIES")
        (λ v c.
          parsed (codes "parsing REPLICATION_BATCH_MAX_ENTRIES") (atoi v)
            (λ n. record c { replication_batch_max_entries = n }))
        c7
  c9 ←
      override src (codes "ELECTION_TIMEOUT_MIN_MS")
        (λ v c.
          parsed (codes "parsing ELECTION_TIMEOUT_MIN_MS") (atoi v)
            (λ n. record c { election_timeout_min = milliseconds n }))
        c8
  c10 ←
      override src (codes "ELECTION_TIMEOUT_MAX_MS")
        (λ v c.
          parsed (codes "parsing ELECTION_TIMEOUT_MAX_MS") (atoi v)
            (λ n. record c { election_timeout_max = milliseconds n }))
        c9
  c11 ←
      override src (codes "HEARTBEAT_INTERVAL_MS")
        (λ v c.
          parsed (codes "parsing HEARTBEAT_INTERVAL_MS") (atoi v)
            (λ n. record c { heartbeat_interval = milliseconds n }))
        c10
  override src (codes "FSYNC_ON_APPEND")
      (λ v c.
        parsed (codes "parsing FSYNC_ON_APPEND") (parse_bool v)
          (λ b. record c { fsync_on_append = b }))
      c11

-- Load; the configuration beside an error, which no caller uses, is left out.
unfoldable pub load : Sources → Result Config
unfolding gather validate
load src = gather src >>= validate
