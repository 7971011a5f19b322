-- ===== src/WanManager/Watchdog.antt =====
-- The dead-gateway watchdog of `wan_manager_periodic_tick` (src/wan_manager.c), with the resets of
-- `wan_manager_dhcp_renew`, for one enabled DHCP or WiFi WAN.
use flux_wan.Base.{
  ℕ, suc, ◌+◌, ◌*◌, ◌≤◌, ◌<◌, ◌^◌, ◌≡◌, refl, List, [], ◌∷◌, Bool, true, false, not, ◌&&◌, ◌||◌,
  u32, sub64, leb, if◌then◌else◌, length, All, arith,
}
use flux_wan.Config.{down, Wan}
use flux_wan.WanManager.Health.{same_state}

pub record Watch : Type 0 where
  pub dead_cycles : ℕ
  pub last_rebind_ms : ℕ
  pub last_renew_ms : ℕ

-- `packet_loss_pct >= 99.0f`, in the unit of `packet_loss`.
unfoldable pub is_dead : Wan → Bool
is_dead w = not w.proxy_enabled && (same_state w.state down || leb (99 * 32) w.metrics.packet_loss)

-- One tick; the flag says that the lease is given up and asked for again.
unfoldable pub watchdog_tick : Watch → ℕ → Bool → Watch × Bool
watchdog_tick w now dead =
    let cycles = u32 (w.dead_cycles + 1) in
    if dead
    then (if leb 15 cycles && leb 60000 (sub64 now w.last_rebind_ms)
        then (record { dead_cycles = 0; last_rebind_ms = now; last_renew_ms = 0 }, true)
        else (record w { dead_cycles = cycles }, false))
    else (record w { dead_cycles = 0 }, false)

-- How often a sequence of ticks, each a time and whether the gateway is dead, rebinds.
unfoldable pub rebinds : Watch → List (ℕ × Bool) → ℕ
rebinds w [] = 0
rebinds w ((now, dead) ∷ ticks) =
    let (w', hit) = watchdog_tick w now dead in
    let later = rebinds w' ticks in if hit then suc later else later

-- Fewer ticks than the dead cycles that are still missing do not rebind.
pub rebinds_few :
    (w : Watch) (ticks : List (ℕ × Bool)) → w.dead_cycles + length ticks < 15 → rebinds w ticks ≡ 0
unfolding rebinds watchdog_tick
rebinds_few w [] h = refl
rebinds_few w ((now, dead) ∷ ticks) h = ground (
  arith,
  rebinds_few (record w { dead_cycles = w.dead_cycles + 1 }) ticks,
  rebinds_few (record w { dead_cycles = 0 }) ticks,
)

rebinds_soon :
    (start : ℕ) (w : Watch) (ticks : List (ℕ × Bool))
    → w.last_rebind_ms ≡ start
    → start + 60000 < 2 ^ 64
    → All (λ t. (start ≤ t.0) × (t.0 < start + 60000)) ticks
    → rebinds w ticks ≡ 0
unfolding rebinds watchdog_tick
rebinds_soon start w [] e word all = refl
rebinds_soon start w ((now, dead) ∷ ticks) e word (h, all) = ground (
  arith,
  rebinds_soon start (record w { dead_cycles = u32 (w.dead_cycles + 1) }) ticks,
  rebinds_soon start (record w { dead_cycles = 0 }) ticks,
)

-- A healthy tick starts the count of dead cycles again, so that tick and up to fourteen further
-- ones do not rebind.
pub rebinds_recovered :
    (w : Watch) (now : ℕ) (ticks : List (ℕ × Bool))
    → length ticks < 15
    → rebinds w ((now, false) ∷ ticks) ≡ 0
unfolding rebinds watchdog_tick
rebinds_recovered w now ticks h = rebinds_few (record w { dead_cycles = 0 }) ticks (omega arith)

-- After a tick that rebinds, no sequence of ticks within 60 seconds of it rebinds again, on a clock
-- that does not reach 2^64.
pub rebinds-watchdog_tick :
    (w : Watch) (now : ℕ) (ticks : List (ℕ × Bool))
    → (watchdog_tick w now true).1 ≡ true
    → now + 60000 < 2 ^ 64
    → All (λ t. (now ≤ t.0) × (t.0 < now + 60000)) ticks
    → rebinds (watchdog_tick w now true).0 ticks ≡ 0
unfolding watchdog_tick
rebinds-watchdog_tick w now ticks hit word all =
    rebinds_soon now (watchdog_tick w now true).0 ticks (ground arith) word all
