-- ===== src/HealthCheck/Silence.antt =====
-- An uplink that does not reply is found by bpf/xdp_healthchecker.bpf.c.
use flux_wan.Base.{ℕ, ◌+◌, ◌≤◌, ◌<◌, ◌≡◌, ◌^◌, ◌∙◌, ap, true, false, some, arith}
use flux_wan.HealthCheck.{hc_probe_interval_ns, Result, Maps, probed, map_result, is_due, hc_tx}
use flux_wan.HealthCheck.Passes.{pass-results, pass-due}

-- An uplink with a verdict and a target that sends no reply is down after three passes whose probes
-- are due, half a second apart or more.
pub hc_tx-silent :
    (maps : Maps) (t1 t2 t3 k : ℕ) (r : Result)
    → k < 256
    → maps.results k ≡ some r
    → is_due maps t1 k ≡ true
    → t1 + hc_probe_interval_ns ≤ t2
    → t2 + hc_probe_interval_ns ≤ t3
    → t3 < 2 ^ 64
    → (q : Result) × ((hc_tx (hc_tx (hc_tx maps t1) t2) t3).results k ≡ some q)
      × (q.is_alive ≡ false)
hc_tx-silent maps t1 t2 t3 k r small e d h2 h3 b =
    let m1 = hc_tx maps t1 in
    let m2 = hc_tx m1 t2 in
    let d2 = pass-due maps t1 k small d t2 h2 (omega arith) in
    let d3 = pass-due m1 t2 k small d2 t3 h3 b in
    let r1 = pass-results maps t1 k small d ∙ ap (map_result (probed t1)) e in
    let r2 = pass-results m1 t2 k small d2 ∙ ap (map_result (probed t2)) r1 in
    let r3 = pass-results m2 t3 k small d3 ∙ ap (map_result (probed t3)) r2 in
    (probed t3 (probed t2 (probed t1 r)), r3, ground arith)
