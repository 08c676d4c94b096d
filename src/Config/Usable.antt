-- ===== src/Config/Usable.antt =====
-- What Load of internal/config/config.go guarantees.
use distributed_kv.Common.{
  ◌≡◌, ◌≢◌, true, false, [], Result, ok, err, >>=-eq-ok, arith, eq_bytes, Bytes, Bool-cases, inl,
  inr, other,
}
use distributed_kv.Config.{Config, Sources, signed_lt, validate, gather, load}

pub record IsUsable (cfg : Config) : Type 0 where
  pub named : cfg.node_id ≢ []
  pub raft_listens : cfg.raft_addr ≢ []
  pub client_listens : cfg.client_addr ≢ []
  pub timeouts_ordered : signed_lt cfg.election_timeout_min cfg.election_timeout_max ≡ true

eq_bytes-ne : (a b : Bytes) → eq_bytes a b ≡ false → a ≢ b
eq_bytes-ne a b h e = ground arith

validate-IsUsable : (c cfg : Config) → validate c ≡ ok cfg → IsUsable cfg
unfolding validate
validate-IsUsable c cfg h = elim (Bool-cases (eq_bytes c.node_id [])) [
  | inl a ↦ absurd (not_ok (rw a at h))
  | inr a ↦ elim (Bool-cases (eq_bytes c.raft_addr [])) [
    | inl b ↦ absurd (not_ok (rw (a, b) at h))
    | inr b ↦ elim (Bool-cases (eq_bytes c.client_addr [])) [
      | inl d ↦ absurd (not_ok (rw (a, b, d) at h))
      | inr d ↦ elim (Bool-cases (signed_lt c.election_timeout_min c.election_timeout_max)) [
        | inr e ↦ absurd (not_ok (rw (a, b, d, e) at h))
        | inl e ↦ rw (← same (rw (a, b, d, e) at h)) (record {
          named = eq_bytes-ne c.node_id [] a;
          raft_listens = eq_bytes-ne c.raft_addr [] b;
          client_listens = eq_bytes-ne c.client_addr [] d;
          timeouts_ordered = e;
        })
      ]
    ]
  ]
]
  where
    not_ok : {x : Bytes} → ◌≡◌ {A = Result Config} (err (other x)) (ok cfg) → ⊥
    not_ok q = cc

    same : ok c ≡ ok cfg → c ≡ cfg
    same q = cc

pub load-IsUsable : (src : Sources) (cfg : Config) → load src ≡ ok cfg → IsUsable cfg
unfolding load
load-IsUsable src cfg h =
    let (c, _, v) = >>=-eq-ok (gather src) validate h in validate-IsUsable c cfg v
