-- ===== src/WanManager/Binding.antt =====
-- What a new lease of src/wan_manager.c brings.
use flux_wan.Base.{
  ℕ, ◌+◌, ◌≤◌, ◌<◌, ◌^◌, ◌≡◌, refl, subst, ◌∙◌, List, [], ◌∷◌, ◌++◌, Bool, true, some, sub64, leb,
  if◌then◌else◌, get_elem?, length, arith,
}
use flux_wan.Config.{healthy}
use flux_wan.Pppoe.{Line}
use flux_wan.Maglev.{Member, max_wans}
use flux_wan.WanManager.{Ctx}
use flux_wan.WanManager.Steering.{GroupsInRange, lt_of_get_elem?}
use flux_wan.WanManager.Watchdog.{Watch, is_dead, watchdog_tick}
use flux_wan.WanManager.Links.{str_to_ip}
use flux_wan.WanManager.Lease.{
  Lease, DhcpEffect, Check, renew, bound, bound_effects, is_new, read_lease, use_lease,
  process_effects, manager, dhcp_engine,
}
use flux_wan.WanManager.Failover.{Serves, rebalance-Serves}

bound-wan :
    (l : Lease) (line : Line)
    → let w = (bound l line).wan in
      (w.state ≡ healthy)
      × (w.ip_addr ≡ str_to_ip l.ip_str)
      × (w.gateway ≡ str_to_ip l.gw_str)
      × (w.enabled ≡ line.wan.enabled)
unfolding bound
bound-wan l line = ground arith

-- After the watchdog the check is due if it was before it.
still_due :
    (watch : Watch) (now : ℕ) (dead : Bool)
    → watch.last_renew_ms + 2000 ≤ now
    → now < 2 ^ 64
    → leb 2000 (sub64 now (watchdog_tick watch now dead).0.last_renew_ms) ≡ true
unfolding watchdog_tick
still_due watch now dead h b = ground arith

module _ (size : ℕ) (stale : ℕ → Member) (ctx : Ctx) (i : ℕ)
    (few : length ctx.config.wans ≤ max_wans)
    (groups : GroupsInRange ctx.config.wans ctx.config.groups) where
  use_lease-Serves :
      (line : Line) (l : Lease)
      → get_elem? ctx.config.wans i ≡ some line.wan
      → line.wan.enabled ≡ true
      → is_new l line.wan ≡ true
      → (r : Ctx × List DhcpEffect) × ((use_lease size stale true ctx i line l).0 ≡ some r)
        × Serves size r.0 i (str_to_ip l.ip_str) (str_to_ip l.gw_str)
  use_lease-Serves line l there on fresh =
      let linked = (bound l line).wan in
      let known = bound-wan l line in
      let inside = lt_of_get_elem? ctx.config.wans i there in
      let (r, e, s) =
        rebalance-Serves size stale ctx i few groups linked inside (known.3 ∙ on) known.0 in
      let (ctx', es, code) = r in
      (
        (ctx', bound_effects l linked ++ (manager es ∷ [])),
        unfold use_lease in rw fresh (rw e refl),
        subst (λ a. Serves size ctx' i a (str_to_ip l.gw_str)) known.1
            (subst (λ g. Serves size ctx' i linked.ip_addr g) known.2 s),
      )

  -- With a licence, at most 256 WANs and group members that are indices of WANs: a tick two seconds
  -- or more after the last check of an enabled client WAN, with a lease file of another address or
  -- gateway, ends with a default ring of the full size, of WANs that may take new flows. This WAN is
  -- one: it is healthy, has the address and the gateway of the file and a weight.
  pub dhcp_engine-Serves :
      (now : ℕ) (check : Check) (line : Line) (watch : Watch) (lines : List (List ℕ))
      → get_elem? ctx.config.wans i ≡ some line.wan
      → line.wan.enabled ≡ true
      → check.lease ≡ some lines
      → is_new (read_lease lines) line.wan ≡ true
      → watch.last_renew_ms + 2000 ≤ now
      → now < 2 ^ 64
      → (r : Ctx × List DhcpEffect) × ((dhcp_engine size stale true now check ctx i line watch).0
          ≡ some r)
        × Serves size r.0 i
            (str_to_ip (read_lease lines).ip_str)
            (str_to_ip (read_lease lines).gw_str)
  dhcp_engine-Serves now check line watch lines there on file fresh h b =
      let (r, e, s) = use_lease-Serves line (read_lease lines) there on fresh in
      let due = still_due watch now (is_dead line.wan) h b in
      let rebinds = (watchdog_tick watch now (is_dead line.wan)).1 in
      let first = if rebinds then renew line.wan.name ∷ [] else [] in
      let (ctx', es) = r in
      (
        (ctx', (first ++ process_effects check line.wan) ++ es),
        unfold dhcp_engine in rw due (rw file (rw e refl)),
        s,
      )
