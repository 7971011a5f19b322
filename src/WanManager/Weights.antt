-- ===== src/WanManager/Weights.antt =====
-- The weights that `wan_manager_rebalance` (src/wan_manager.c) gives.
use flux_wan.Base.{ℕ, ◌*◌, ◌/◌, ◌≤◌, ◌<◌, ◌≡◌, ◌&&◌, u32, if◌then◌else◌, arith}
use native.Mathlib.Nat.{div-le_of_le-mul}
use flux_wan.Config.{WanState, down, degraded, Wan, ProberConfig}
use flux_wan.Maglev.{is_up, is_eligible}
use flux_wan.WanManager.{base_weight, state_weight, steer, rebalance_wan}

state_weight_bounds :
    (s : WanState) (base : ℕ) → 0 < base → (0 < state_weight s base) × (state_weight s base ≤ base)
unfolding state_weight
state_weight_bounds degraded base h = ground arith
state_weight_bounds _ base h = (h, omega arith)

scaled_le : (weight min_rtt rtt : ℕ) → min_rtt ≤ rtt → u32 (weight * min_rtt) / rtt ≤ weight
scaled_le weight min_rtt rtt h =
    let scale : weight * min_rtt ≤ rtt * weight = grind arith in div-le_of_le-mul rtt (omega arith)

steer_bounds :
    (p : ProberConfig) (min_rtt rtt weight : ℕ)
    → 0 < weight
    → (0 < steer p min_rtt rtt weight) × (steer p min_rtt rtt weight ≤ weight)
unfolding steer
steer_bounds p min_rtt rtt weight h = ground (arith, scaled_le weight min_rtt rtt)

-- A rebalanced WAN takes new flows exactly if it is enabled and neither down nor draining, its
-- weight is then at most the configured one, and it is 0 otherwise. A disabled WAN goes down.
pub rebalance_wan_lem :
    (p : ProberConfig) (min_rtt : ℕ) (w : Wan)
    → let w' = rebalance_wan p min_rtt w in
      (is_eligible w' ≡ w.enabled && is_up w.state)
      × (w'.dynamic_weight ≤ (if w.enabled && is_up w.state then base_weight w else 0))
      × (w'.state ≡ (if w.enabled then w.state else down))
unfolding rebalance_wan is_eligible
rebalance_wan_lem p min_rtt w =
    let base : 0 < base_weight w = ground arith in
    let before = state_weight_bounds w.state (base_weight w) base in
    let after =
      steer_bounds p min_rtt w.metrics.rtt_ms (state_weight w.state (base_weight w)) before.0 in
    ground arith
