-- ===== src/Examples/HealthCheck.antt =====
-- bpf/xdp_healthchecker.bpf.c with two uplinks that are probed: one has a verdict.
use flux_wan.Base.{
  ℕ, ◌≡◌, refl, List, [], ◌∷◌, true, false, Option, none, some, ◌==◌, if◌then◌else◌, arith,
}
use flux_wan.HealthCheck.{Target, Result, Maps, hc_tx}
use flux_wan.HealthCheck.Verdicts.{counts, missed, Event, reply, pass, run, run-counts}
use flux_wan.HealthCheck.Silence.{hc_tx-silent}

abbrev target : Target
target = record { gateway_ip = 0x010000c0; wan_ip = 0x050000c0 }

abbrev result : Result
result = record {
  last_probe_ns = 1;
  last_reply_ns = 2;
  rtt_us = 10;
  is_alive = true;
  probe_count = 1;
  reply_count = 1;
  miss_count = 0;
}

abbrev results : ℕ → Option Result
results k = if k == 0 then some result else none

abbrev maps : Maps
maps = record { targets = target ∷ target ∷ []; results = results; rate_limit = λ k. 0 }

hc_tx-silent_example :
    (q : Result) × ((hc_tx (hc_tx (hc_tx maps 500_000_000) 1_000_000_000) 1_500_000_000).results 0
      ≡ some q)
    × (q.is_alive ≡ false)
hc_tx-silent_example =
    hc_tx-silent maps 500_000_000 1_000_000_000 1_500_000_000 0 result (omega arith) refl refl
      (omega arith) (omega arith) (omega arith)

abbrev events : List Event
events = pass 500_000_000 ∷ reply 600_000_000 (0 ∷ []) ∷ pass 1_000_000_000 ∷ []

run-counts_example : counts ((run maps events).results 0) (missed maps 0 0 events) ≡ true
run-counts_example = run-counts maps events 0 0 (omega arith) refl
