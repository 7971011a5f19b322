-- ===== src/WanManager/Failover.antt =====
-- Where new flows go after a PPPoE session of src/wan_manager.c comes or goes.
use flux_wan.Base.{
  ℕ, ◌≤◌, ◌<◌, ◌≡◌, refl, subst, ◌∙◌, ◌≢◌, List, [], ◌∷◌, ◌++◌, map, true, false, some, ltb,
  get_elem?, get_elem?-set_self, get_elem?-set_other, set, length, length-set, All, arith,
}
use flux_wan.Config.{down, healthy, Wan, ProberConfig}
use flux_wan.Dhcp.Leases.{htonl}
use flux_wan.Pppoe.{Line}
use flux_wan.Maglev.{Member, is_up, is_eligible, eligible_at, max_wans}
use flux_wan.WanManager.{Ctx, Effect, Code, rebalance, rebalance_wan, min_healthy_rtt}
use flux_wan.WanManager.Weights.{rebalance_wan_lem}
use flux_wan.WanManager.Health.{put_wan}
use flux_wan.WanManager.Steering.{
  admits, GroupsInRange, GroupsInRange-of_length, rebalance-steers, eligible-rebalanced,
  get_elem?-map, lt_of_get_elem?,
}
use flux_wan.WanManager.Links.{
  LinkEffect, log_dropped, manager, Outside, connected_line, link_effects, on_pppoe_connected,
  on_pppoe_disconnected,
}

-- A list of WANs that may take new flows leaves out one that is down.
admitted-avoid :
    (ws : List Wan) (i : ℕ) (lut : List ℕ)
    → admits (get_elem? ws i) ≡ false
    → All (λ j. admits (get_elem? ws j) ≡ true) lut
    → All (λ j. j ≢ i) lut
admitted-avoid ws i [] h all = tt
admitted-avoid ws i (j ∷ lut) h (a, all) = (
  (λ e. let b = subst (λ x. admits (get_elem? ws x) ≡ true) e a in cc),
  admitted-avoid ws i lut h all,
)

-- Rebalancing an enabled and healthy WAN gives it a weight and keeps its address.
rebalance_wan-healthy :
    (p : ProberConfig) (min_rtt : ℕ) (w : Wan)
    → w.enabled ≡ true
    → w.state ≡ healthy
    → let w' = rebalance_wan p min_rtt w in
      (w'.state ≡ healthy)
      × (w'.ip_addr ≡ w.ip_addr)
      × (w'.gateway ≡ w.gateway)
      × (0 < w'.dynamic_weight)
unfolding rebalance_wan is_eligible
rebalance_wan-healthy p min_rtt w on s = ground (arith, rebalance_wan_lem p min_rtt w)

All-eligible :
    (p : ProberConfig) (min_rtt : ℕ) (ws : List Wan) (lut : List ℕ)
    → All (λ j. admits (get_elem? ws j) ≡ true) lut
    → All (λ j. eligible_at (map (rebalance_wan p min_rtt) ws) j ≡ true) lut
All-eligible p min_rtt ws [] all = tt
All-eligible p min_rtt ws (j ∷ lut) (a, all) =
    (eligible-rebalanced p min_rtt ws j ∙ a, All-eligible p min_rtt ws lut all)

-- A default ring of the full size, of WANs that may take new flows, and one of them: healthy, with
-- this address and gateway and with a weight.
pub record Serves (size : ℕ) (ctx : Ctx) (i ip gw : ℕ) : Type 0 where
  pub line : Wan
  pub width : length ctx.maglev_lut ≡ size
  pub usable : All (λ j. eligible_at ctx.config.wans j ≡ true) ctx.maglev_lut
  pub there : get_elem? ctx.config.wans i ≡ some line
  pub up : line.state ≡ healthy
  pub address : line.ip_addr ≡ ip
  pub route : line.gateway ≡ gw
  pub weighted : 0 < line.dynamic_weight

-- A WAN with a session is healthy, with the session's addresses.
connected_line-wan :
    (ip gw : ℕ) (line : Line)
    → let w = (connected_line ip gw line).wan in
      (w.state ≡ healthy)
      × (w.ip_addr ≡ htonl ip)
      × (w.gateway ≡ htonl gw)
      × (w.enabled ≡ line.wan.enabled)
unfolding connected_line
connected_line-wan ip gw line = ground arith

module _ (size : ℕ) (stale : ℕ → Member) (ctx : Ctx) (i : ℕ)
    (few : length ctx.config.wans ≤ max_wans)
    (groups : GroupsInRange ctx.config.wans ctx.config.groups) where
  -- With a licence, at most 256 WANs, group members that are indices of WANs, and another WAN that
  -- is enabled and neither down nor draining, the loss of the PPPoE session of a WAN ends with a
  -- default ring of the full size that does not name this WAN.
  pub on_pppoe_disconnected-avoids :
      (ppp_ifname : List ℕ) (attempt k : ℕ) {w v : Wan}
      → get_elem? ctx.config.wans i ≡ some w
      → get_elem? ctx.config.wans k ≡ some v
      → k ≢ i
      → v.enabled ≡ true
      → is_up v.state ≡ true
      → (r : Ctx × List LinkEffect) × (on_pppoe_disconnected size stale true ctx i ppp_ifname
            attempt
          ≡ some r)
        × (length r.0.maglev_lut ≡ size)
        × All (λ j. j ≢ i) r.0.maglev_lut
  on_pppoe_disconnected-avoids ppp_ifname attempt k {w} {v} there other ne on up =
      let lost = record w { state = down } in
      let ws = set ctx.config.wans i lost in
      let n = length-set ctx.config.wans i lost in
      let (r, e, d, same, width, usable, served) =
        rebalance-steers size stale (put_wan ctx i lost) k (rw n few)
          (GroupsInRange-of_length ctx.config.wans ws ctx.config.groups n groups)
          (get_elem?-set_other ctx.config.wans i k lost ne ∙ other) on up in
      let shut : admits (get_elem? ws i) ≡ false =
        rw (get_elem?-set_self ctx.config.wans i lost (lt_of_get_elem? ctx.config.wans i there))
          (ground arith) in
      let (ctx', es, code) = r in
      (
        (ctx', log_dropped w.id ppp_ifname attempt ∷ map manager es),
        unfold on_pppoe_disconnected in rw there (rw e refl),
        width,
        admitted-avoid ws i ctx'.maglev_lut shut usable,
      )

  -- Rebalancing after an enabled WAN has become healthy.
  pub rebalance-Serves :
      (linked : Wan)
      → i < length ctx.config.wans
      → linked.enabled ≡ true
      → linked.state ≡ healthy
      → (r : Ctx × List Effect × Code) × (rebalance size stale true (put_wan ctx i linked) ≡ some r)
        × Serves size r.0 i linked.ip_addr linked.gateway
  rebalance-Serves linked inside on s =
      let old = ctx.config.wans in
      let ws = set old i linked in
      let m = min_healthy_rtt 999999 ws in
      let p = ctx.config.prober in
      let here = get_elem?-set_self old i linked inside in
      let n = length-set old i linked in
      let (r, e, d, same, width, usable, served) =
        rebalance-steers size stale (put_wan ctx i linked) i (rw n few)
          (GroupsInRange-of_length old ws ctx.config.groups n groups) here on (rw s refl) in
      let kept = rebalance_wan-healthy p m linked on s in
      (
        r,
        e,
        record {
          line = rebalance_wan p m linked;
          width = width;
          usable = rw same (All-eligible p m ws r.0.maglev_lut usable);
          there = rw same (get_elem?-map (rebalance_wan p m) ws i here);
          up = kept.0;
          address = kept.1;
          route = kept.2;
          weighted = kept.3;
        },
      )

  -- With a licence, at most 256 WANs and group members that are indices of WANs, the new session of
  -- an enabled WAN ends with a default ring of the full size, of WANs that may take new flows. This
  -- WAN is one: it is healthy, has the address and the gateway of the session and a weight.
  pub on_pppoe_connected-Serves :
      (out : Outside) (line : Line) (ppp_ifname : List ℕ) (ip gw : ℕ)
      → get_elem? ctx.config.wans i ≡ some line.wan
      → line.wan.enabled ≡ true
      → (r : Ctx × List LinkEffect) × ((on_pppoe_connected size stale true out ctx i line ppp_ifname
            ip gw).0
          ≡ some r)
        × Serves size r.0 i (htonl ip) (htonl gw)
  on_pppoe_connected-Serves out line ppp_ifname ip gw there on =
      let linked = (connected_line ip gw line).wan in
      let known = connected_line-wan ip gw line in
      let inside = lt_of_get_elem? ctx.config.wans i there in
      let early : ltb i (length ctx.config.wans) ≡ true = ground (arith, inside) in
      let (r, e, s) = rebalance-Serves linked inside (known.3 ∙ on) known.0 in
      let (ctx', es, code) = r in
      (
        (ctx', link_effects out ppp_ifname gw linked ++ map manager es),
        unfold on_pppoe_connected in rw early (rw e refl),
        subst (λ a. Serves size ctx' i a (htonl gw)) known.1
            (subst (λ g. Serves size ctx' i linked.ip_addr g) known.2 s),
      )
