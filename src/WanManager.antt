-- ===== src/WanManager.antt =====
-- src/wan_manager.c: weights, rings, health updates and the event log.
-- Calls that leave the process are recorded in order as effects. `ctx->bpf` may be absent.
pub mod Weights
pub mod Steering
pub mod Health
pub mod Watchdog
pub mod Links
pub mod Addresses
pub mod Failover
pub mod Lease
pub mod Binding
pub mod LeaseFile
use flux_wan.Base.{
  ℕ, zero, suc, ◌+◌, ◌*◌, ◌/◌, List, [], ◌∷◌, ◌++◌, map, Bool, true, false, not, ◌&&◌, ◌||◌, Option,
  none, some, u32, ltb, leb, ◌==◌, if◌then◌else◌, length,
}
use flux_wan.Config.{
  WanState, down, degraded, healthy, draining, Wan, Group, ProberConfig, Config, Metrics,
}
use flux_wan.Maglev.{Member, maglev_ring_size, build_single_maglev_ring, is_up}

pub data Effect : Type 0 where
  update_wan_map : ℕ → Wan → Effect
  update_maglev_lut : List ℕ → Effect
  update_group_maglev_lut : ℕ → List ℕ → Effect
  update_policy_routes : Effect
  update_ctrl_map : ℕ → ℕ → Effect
  net_apply_configuration : Effect
  log_state_change : ℕ → WanState → Effect
  telegram_failover : ℕ → WanState → Effect
  telegram_recovery : ℕ → Effect

pub record Ctx : Type 0 where
  pub config : Config
  pub has_bpf : Bool
  pub maglev_lut : List ℕ

abbrev is_healthy : WanState → Bool
is_healthy healthy = true
is_healthy _ = false

abbrev is_down : WanState → Bool
is_down down = true
is_down _ = false

abbrev when {ℓ} : {A : Type ℓ} → Bool → List A → List A
when b l = if b then l else []

-- The first loop of `wan_manager_rebalance`.
unfoldable pub min_healthy_rtt : ℕ → List Wan → ℕ
min_healthy_rtt best [] = best
min_healthy_rtt best (w ∷ ws) =
    let counts = w.enabled && (is_healthy w.state && ltb 0 w.metrics.rtt_ms) in
    min_healthy_rtt (if counts && ltb w.metrics.rtt_ms best then w.metrics.rtt_ms else best) ws

abbrev pub base_weight : Wan → ℕ
base_weight w =
    let base = if ltb 0 w.bandwidth_down_mbps then w.bandwidth_down_mbps else w.config_weight in
    if base == 0 then 1 else base

abbrev pub at_least_one : ℕ → ℕ
at_least_one n = if n == 0 then 1 else n

-- The weight of a degraded and of a healthy line.
unfoldable pub state_weight : WanState → ℕ → ℕ
state_weight degraded base = at_least_one (base / 4)
state_weight _ base = base

-- The latency penalty.
unfoldable pub steer : ProberConfig → ℕ → ℕ → ℕ → ℕ
steer p min_rtt rtt weight =
    if p.dynamic_latency_steering && (ltb min_rtt 999999 && ltb (u32 (min_rtt + 60)) rtt)
    then at_least_one (u32 (weight * min_rtt) / rtt)
    else weight

-- The body of the second loop, for one WAN.
unfoldable pub rebalance_wan : ProberConfig → ℕ → Wan → Wan
rebalance_wan p min_rtt w =
    let weight = steer p min_rtt w.metrics.rtt_ms (state_weight w.state (base_weight w)) in
    if not w.enabled || is_down w.state
    then record w { dynamic_weight = 0; state = if not w.enabled then down else w.state }
    else (if is_up w.state
        then record w { dynamic_weight = weight }
        else record w { dynamic_weight = 0 })

abbrev map_updates : ℕ → List Wan → List Effect
map_updates i [] = []
map_updates i (w ∷ ws) = update_wan_map i w ∷ map_updates (suc i) ws

unfoldable pub indices : ℕ → ℕ → List ℕ
indices i zero = []
indices i (suc n) = i ∷ indices (suc i) n

-- The group loop of `wan_manager_generate_maglev_lut`. A group without members keeps its ring.
unfoldable pub group_rings :
    ℕ → List Wan → (ℕ → Member) → List Group → Option (List Group × List Effect)
group_rings size wans stale [] = some ([], [])
group_rings size wans stale (g ∷ gs) =
    let rest = group_rings size wans stale gs in
    if length g.wan_member_indices == 0
    then elim rest [ none ↦ none | some (gs', es) ↦ some (g ∷ gs', es) ]
    else (elim (build_single_maglev_ring size wans stale g.wan_member_indices) [
      | none ↦ none
      | some ring ↦ elim rest [
        | none ↦ none
        | some (gs', es) ↦
            some (record g { maglev_ring = ring } ∷ gs', update_group_maglev_lut g.id ring ∷ es)
      ]
    ])

abbrev pub with_rings : Ctx → List ℕ → List Group → List Effect → Ctx × List Effect
with_rings ctx lut gs es = (
  record ctx { config = record (ctx.config) { groups = gs }; maglev_lut = lut },
  when ctx.has_bpf (update_maglev_lut lut ∷ es ++ update_policy_routes ∷ []),
)

-- `wan_manager_generate_maglev_lut`. `none` stands for a loop that does not end.
unfoldable pub generate_maglev_lut : ℕ → (ℕ → Member) → Ctx → Option (Ctx × List Effect)
unfolding indices group_rings
generate_maglev_lut size stale ctx =
    let wans = ctx.config.wans in
    let built : Option (Ctx × List Effect) =
      elim (build_single_maglev_ring size wans stale (indices 0 (length wans))) [
        | none ↦ none
        | some lut ↦ elim (group_rings size wans stale ctx.config.groups) [
          | none ↦ none
          | some (gs, es) ↦ some (with_rings ctx lut gs es)
        ]
      ] in
    if length wans == 0 then some (ctx, []) else built

unfoldable pub active_count : List Wan → ℕ
active_count [] = 0
active_count (w ∷ ws) =
    if w.enabled && not (is_down w.state) then suc (active_count ws) else active_count ws

abbrev pub rebalanced : Config → List Wan
rebalanced c = map (rebalance_wan c.prober (min_healthy_rtt 999999 c.wans)) c.wans

abbrev with_wans : Ctx → List Wan → Ctx
with_wans ctx ws = record ctx { config = record (ctx.config) { wans = ws } }

abbrev no_weight : Wan → Wan
no_weight w = record w { dynamic_weight = 0 }

-- What one rebalancing sends out, in order; `es` is what the ring generation sends.
abbrev pub rebalance_effects : Ctx → List Wan → List Effect → List Effect
rebalance_effects ctx ws es =
    when ctx.has_bpf (map_updates 0 ws)
    ++ (es
        ++ (when ctx.has_bpf (update_ctrl_map ctx.config.lan_ip (active_count ws) ∷ [])
            ++ net_apply_configuration ∷ []))

pub data Code : Type 0 where
  done unlicensed : Code

-- `wan_manager_rebalance`; the flag is what `license_is_authorized` says.
unfoldable pub rebalance : ℕ → (ℕ → Member) → Bool → Ctx → Option (Ctx × List Effect × Code)
unfolding generate_maglev_lut
rebalance size stale authorized ctx =
    let off = map no_weight ctx.config.wans in
    let ws = rebalanced ctx.config in
    if authorized
    then (elim (generate_maglev_lut size stale (with_wans ctx ws)) [
      | none ↦ none
      | some (ctx', es) ↦ some (ctx', rebalance_effects ctx ws es, done)
    ])
    else some (with_wans ctx off, when ctx.has_bpf (map_updates 0 off), unlicensed)
