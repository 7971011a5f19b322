-- ===== src/Router/Dispatch.antt =====
-- The session lookup and the choice of a WAN in `xdp_router_func` (bpf/xdp_router.bpf.c). The two LRU
-- maps are functions from keys; that the kernel may drop entries of theirs is a step of its own.
pub mod Sessions
pub mod Runs
pub mod Eligible
pub mod Affinity
use flux_wan.Base.{
  ℕ, zero, suc, ◌+◌, ◌*◌, ◌%◌, List, [], ◌∷◌, Bool, true, false, not, ◌&&◌, ◌||◌, Option, none,
  some, bit_and, u64, ltb, ◌==◌, if◌then◌else◌, get_elem?,
}
use flux_wan.Router.{
  Flags, FlowKey, WanEntry, Session, Policy, Ctrl, GlobalStats, max_ebpf_wans, max_bpf_groups,
  maglev_ring_size, htons, hash_5tuple,
}

abbrev pub same_bit : Bool → Bool → Bool
same_bit true b = b
same_bit false b = not b

abbrev pub same_flags : Flags → Flags → Bool
same_flags a b =
    same_bit a.rst b.rst
    && same_bit a.fin b.fin
    && same_bit a.syn b.syn
    && same_bit a.icmp b.icmp
    && same_bit a.quic b.quic
    && same_bit a.pmtu b.pmtu

-- Keys of the maps are compared byte by byte, `pkt_flags` included.
unfoldable pub same_key : FlowKey → FlowKey → Bool
same_key a b =
    same_flags a.pkt_flags b.pkt_flags
    && a.src_ip == b.src_ip
    && a.dst_ip == b.dst_ip
    && a.src_port == b.src_port
    && a.dst_port == b.dst_port
    && a.proto == b.proto
    && a.quic_token == b.quic_token

abbrev pub SessionMap : Type 0
SessionMap = FlowKey → Option Session

unfoldable pub put : SessionMap → FlowKey → Session → SessionMap
put m key s k = if same_key key k then some s else m k

unfoldable pub erase : SessionMap → FlowKey → SessionMap
erase m key k = if same_key key k then none else m k

pub record Maps : Type 0 where
  pub local_lru : SessionMap
  pub sticky_flow : SessionMap
  pub wan_table : List WanEntry
  pub lpm_subnet : ℕ → Option ℕ
  pub policy_route : List Policy
  pub maglev_group : List ℕ
  pub maglev_lut : List ℕ
  pub ctrl : Option Ctrl
  pub stats : GlobalStats

-- DNS and NTP over UDP.
unfoldable pub is_dns_or_ntp : FlowKey → Bool
is_dns_or_ntp key =
    key.proto == 17
    && (key.dst_port == htons 53
        || key.src_port == htons 53
        || key.dst_port == htons 123
        || key.src_port == htons 123)

-- RST or FIN.
abbrev pub is_closing : FlowKey → Bool
is_closing key = key.pkt_flags.rst || key.pkt_flags.fin

abbrev pub fill_local : Maps → FlowKey → Option Session → Maps × Option Session
fill_local maps key none = (maps, none)
fill_local maps key (some s) = (record maps { local_lru = put maps.local_lru key s }, some s)

abbrev pub find_local : Maps → FlowKey → Option Session → Maps × Option Session
find_local maps key (some s) = (maps, some s)
find_local maps key none = fill_local maps key (maps.sticky_flow key)

unfoldable pub find_session : Maps → FlowKey → Maps × Option Session
find_session maps key =
    if is_dns_or_ntp key then (maps, none) else find_local maps key (maps.local_lru key)

-- What keeps a session: an active WAN that has a weight or is draining.
abbrev pub keeps_sessions : Option WanEntry → Bool
keeps_sessions none = false
keeps_sessions (some we) = we.is_active && (ltb 0 we.weight || we.is_draining)

-- What a new flow may go to.
abbrev pub is_eligible : Option WanEntry → Bool
is_eligible none = false
is_eligible (some we) = we.is_active && ltb 0 we.weight && not we.is_draining

abbrev pub evict : Maps → FlowKey → Maps
evict maps key =
    let st = maps.stats in
    let counted : GlobalStats = record st {
      total_session_evictions = u64 (st.total_session_evictions + 1);
    } in
    record maps {
      local_lru = erase maps.local_lru key;
      sticky_flow = erase maps.sticky_flow key;
      stats = counted;
    }

abbrev pub hit : Maps → Maps
hit maps =
    let st = maps.stats in
    let counted : GlobalStats = record st { total_sticky_hits = u64 (st.total_sticky_hits + 1) } in
    record maps { stats = counted }

-- The target of the session, or none where a dispatch is needed.
unfoldable pub on_session : Maps → FlowKey → Option Session → Maps × Option ℕ
on_session maps key none = (maps, none)
on_session maps key (some s) =
    if ltb s.wan_idx max_ebpf_wans
    then (if keeps_sessions (get_elem? maps.wan_table s.wan_idx)
        then (if is_closing key then (evict maps key, none) else (hit maps, some s.wan_idx))
        else (evict maps key, none))
    else (maps, none)

unfoldable pub find_group : List Policy → ℕ → ℕ
find_group [] src_ip = 0
find_group (pe ∷ ps) src_ip =
    if pe.is_active && not (pe.netmask == 0) && bit_and src_ip pe.netmask == pe.subnet_ip
    then pe.target_group
    else find_group ps src_ip

abbrev pub or_else : Option ℕ → Option ℕ → Option ℕ
or_else none o = o
or_else (some n) o = some n

unfoldable pub pick : Maps → ℕ → ℕ → Option ℕ
pick maps group slot =
    let by_group = get_elem? maps.maglev_group (group * maglev_ring_size + slot) in
    or_else (if ltb 0 group && ltb group max_bpf_groups then by_group else none)
      (get_elem? maps.maglev_lut slot)

-- A pick or a route that names a slot of the table, or `other`.
abbrev pub in_table : Option ℕ → ℕ → ℕ
in_table none other = other
in_table (some w) other = if ltb w max_ebpf_wans then w else other

abbrev pub count_maglev : Maps → Maps
count_maglev maps =
    let st = maps.stats in
    let counted : GlobalStats = record st {
      total_maglev_dispatches = u64 (st.total_maglev_dispatches + 1);
    } in
    record maps { stats = counted }

abbrev pub maglev_target : Maps → FlowKey → ℕ → ℕ
maglev_target maps key flow_hash =
    in_table (pick maps (find_group maps.policy_route key.src_ip) (flow_hash % maglev_ring_size))
      (flow_hash % max_ebpf_wans)

-- The route of the destination, or the Maglev ring.
unfoldable pub select : Maps → FlowKey → ℕ → Option ℕ → Maps × ℕ
select maps key flow_hash none = (count_maglev maps, maglev_target maps key flow_hash)
select maps key flow_hash (some w) =
    if ltb w max_ebpf_wans then (maps, w) else (count_maglev maps, maglev_target maps key flow_hash)

-- The first WAN, from an index on, that a new flow may go to.
unfoldable pub first_eligible : List WanEntry → ℕ → Option ℕ
first_eligible [] i = none
first_eligible (we ∷ ws) i = if is_eligible (some we) then some i else first_eligible ws (suc i)

abbrev pub fall_back : Maps → ℕ → Option ℕ → Maps × ℕ
fall_back maps target none = (maps, target)
fall_back maps target (some fi) =
    let st = maps.stats in
    let counted : GlobalStats = record st { total_failovers = u64 (st.total_failovers + 1) } in
    (record maps { stats = counted }, fi)

unfoldable pub check_health : Maps × ℕ → Maps × ℕ
check_health (maps, target) =
    if is_eligible (get_elem? maps.wan_table target)
    then (maps, target)
    else fall_back maps target (first_eligible maps.wan_table 0)

unfoldable pub store : FlowKey → Maps × ℕ → Maps × ℕ
store key (maps, target) =
    let s : Session = record { wan_idx = target; wan_id = target + 1; orig_src_ip = key.src_ip } in
    let stored : Maps = record maps {
      local_lru = put maps.local_lru key s;
      sticky_flow = put maps.sticky_flow key s;
    } in
    if is_dns_or_ntp key || is_closing key then (maps, target) else (stored, target)

unfoldable pub dispatch : Maps → FlowKey → Maps × ℕ
dispatch maps key =
    store key (check_health (select maps key (hash_5tuple key) (maps.lpm_subnet key.dst_ip)))

abbrev pub dispatch_if : FlowKey → Maps × Option ℕ → Maps × ℕ
dispatch_if key (maps, some target) = (maps, target)
dispatch_if key (maps, none) = dispatch maps key

-- Steps 4 and 5: the WAN of a packet and the maps after it.
unfoldable pub route : Maps → FlowKey → Maps × ℕ
route maps key =
    let (found, sticky) = find_session maps key in dispatch_if key (on_session found key sticky)
