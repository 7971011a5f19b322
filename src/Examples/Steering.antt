-- ===== src/Examples/Steering.antt =====
-- The rings and weights of src/wan_manager.c for two lines, one healthy and one down, on a ring of
-- seven slots.
use flux_wan.Base.{
  ℕ, ◌+◌, ◌≡◌, refl, List, [], ◌∷◌, true, false, some, length, get_elem?, All, arith,
}
use flux_wan.Config.{static, WanState, down, healthy, Wan, Metrics, ProberConfig}
use flux_wan.Maglev.{Member, is_eligible, active_members, build_single_maglev_ring}
use flux_wan.Maglev.Ring.{Usable, build-Usable}
use flux_wan.WanManager.{Ctx, Effect, Code, done, rebalance, rebalanced}
use flux_wan.WanManager.Steering.{rebalance-steers, admits, AllServed}

abbrev pub metrics : Metrics
metrics = record { rtt_ms = 20; jitter_ms = 2; packet_loss = 0; last_probe_time = 0 }

abbrev pub line : ℕ → ℕ → WanState → Wan
line id weight s = record {
  id = id;
  name = 119 ∷ 97 ∷ 110 ∷ (48 + id) ∷ [];
  type = static;
  ip_addr = 10 + id;
  gateway = 1;
  table_id = 100 + id;
  config_weight = 5;
  dynamic_weight = weight;
  bandwidth_down_mbps = 100;
  state = s;
  enabled = true;
  probe_target_ip = 8;
  metrics = metrics;
  ifindex = id;
  mtu = 1500;
  proxy_enabled = false;
}

abbrev pub lines : List Wan
lines = line 1 100 healthy ∷ line 2 0 down ∷ []

abbrev pub fresh : ℕ → Member
fresh m = record { w_idx = 0; offset = 0; skip = 0; next = 0; weight = 0; cum_weight = 0 }

one_active : active_members lines (0 ∷ 1 ∷ []) ≡ 1
unfolding active_members is_eligible
one_active = refl

build-Usable_example :
    (ring : List ℕ) × (build_single_maglev_ring 7 lines fresh (0 ∷ 1 ∷ []) ≡ some ring)
    × (length ring ≡ 7)
    × All (Usable lines (0 ∷ 1 ∷ [])) ring
build-Usable_example =
    build-Usable 7 lines fresh (0 ∷ 1 ∷ []) (omega arith) (omega arith, (omega arith, tt))
      (omega (arith, one_active))

abbrev prober : ProberConfig
prober = record {
  timeout_ms = 1000;
  max_acceptable_rtt_ms = 200;
  max_acceptable_loss = 640;
  dynamic_latency_steering = true;
}

abbrev pub ctx : Ctx
ctx = record {
  config = record {
    wans = lines;
    groups = record { id = 1; wan_member_indices = 1 ∷ 0 ∷ []; maglev_ring = [] } ∷ [];
    prober = prober;
    telegram = record { enabled = false; notify_on_failover = false; notify_on_recovery = false };
    lan_ip = 1;
  };
  has_bpf = true;
  maglev_lut = [];
}

rebalance-steers_example :
    (r : Ctx × List Effect × Code) × (rebalance 7 fresh true ctx ≡ some r)
    × (r.2 ≡ done)
    × (r.0.config.wans ≡ rebalanced ctx.config)
    × (length r.0.maglev_lut ≡ 7)
    × All (λ i. admits (get_elem? ctx.config.wans i) ≡ true) r.0.maglev_lut
    × AllServed (rebalanced ctx.config) ctx.config.groups r.0.config.groups
rebalance-steers_example =
    rebalance-steers 7 fresh ctx 0 (omega arith) ((omega arith, (omega arith, tt)), tt) refl refl
      refl
