-- ===== src/Examples/Links.antt =====
-- src/wan_manager.c with two healthy lines on a ring of seven slots: the first loses its PPPoE
-- session, the second gets a lease.
use flux_wan.Base.{◌≡◌, ◌≢◌, refl, List, [], ◌∷◌, true, some, length, All, arith}
use flux_wan.Config.{WanState, WanType}
use flux_wan.Pppoe.{Line}
use flux_wan.Examples.Steering.{line, ctx, fresh}
use flux_wan.WanManager.{Ctx}
use flux_wan.WanManager.Watchdog.{Watch}
use flux_wan.WanManager.Links.{LinkEffect, on_pppoe_disconnected}
use flux_wan.WanManager.Lease.{Check}
use flux_wan.WanManager.Failover.{on_pppoe_disconnected-avoids}
use flux_wan.WanManager.LeaseFile.{file_of}

abbrev client : Line
client = record {
  wan = record (line 2 10 WanState.healthy) { type = WanType.dhcp };
  netmask = 0;
  probe_target = [];
  ppp_username = [];
  ppp_password = [];
  custom_mac = [];
}

abbrev both : Ctx
both = record ctx {
  config = record (ctx.config) { wans = line 1 100 WanState.healthy ∷ client.wan ∷ [] };
}

on_pppoe_disconnected-avoids_example :
    (r : Ctx × List LinkEffect) × (on_pppoe_disconnected 7 fresh true both 0 (b'p' ∷ []) 1 ≡ some r)
    × (length r.0.maglev_lut ≡ 7)
    × All (λ j. j ≢ 0) r.0.maglev_lut
on_pppoe_disconnected-avoids_example =
    on_pppoe_disconnected-avoids 7 fresh both 0 (omega arith) ((omega arith, (omega arith, tt)), tt)
      (b'p' ∷ []) 1 1 refl refl (omega arith) refl refl

abbrev watch : Watch
watch = record { dead_cycles = 0; last_rebind_ms = 0; last_renew_ms = 1000 }

abbrev check : Check
check = record {
  running = true;
  lease = some (file_of 0x0500000a 0x00ffffff 0x0100000a);
  live_ip = some 0;
}
