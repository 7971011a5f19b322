-- ===== src/Router/Packet.antt =====
-- `xdp_router_func` of bpf/xdp_router.bpf.c on one packet. Events of the flow debugger and the
-- counters of each WAN are left out.
use flux_wan.Base.{
  ℕ, ◌+◌, ◌/◌, ◌%◌, List, Bool, false, not, ◌&&◌, ◌||◌, Option, none, some, u64, ltb, ◌==◌,
  if◌then◌else◌, get_elem?, length,
}
use flux_wan.Router.{FlowKey, WanEntry, Ctrl, GlobalStats, htons, load8, load16, in_bounds}
use flux_wan.Router.Parse.{parse_flow}
use flux_wan.Router.Dispatch.{Maps, route}
use flux_wan.Router.Rewrite.{apply_snat, send_icmp_echo_reply, send_icmp_too_big}

-- What happens to the packet: it is passed to the kernel, or transmitted where it came from.
pub data Verdict : Type 0 where
  pass tx : List ℕ → Verdict

abbrev pub count_rx : Maps → ℕ → Maps
count_rx maps pkt_len =
    let st = maps.stats in
    let counted : GlobalStats = record st {
      total_rx_packets = u64 (st.total_rx_packets + 1);
      total_rx_bytes = u64 (st.total_rx_bytes + pkt_len);
    } in
    record maps { stats = counted }

abbrev pub count_snat : Maps → Maps
count_snat maps =
    let st = maps.stats in
    let counted : GlobalStats = record st {
      total_snat_rewrites = u64 (st.total_snat_rewrites + 1);
    } in
    record maps { stats = counted }

-- 192.168.1.1 in place of an address that is not configured.
abbrev pub lan_ip_of : Option Ctrl → ℕ
lan_ip_of none = 0x0101A8C0
lan_ip_of (some c) = if c.lan_ip == 0 then 0x0101A8C0 else c.lan_ip

abbrev pub snat_enabled_in : Option Ctrl → Bool
snat_enabled_in none = false
snat_enabled_in (some c) = c.snat_enabled

-- RFC 1918, on an address as it is loaded: its first byte is the lowest.
unfoldable pub is_lan : ℕ → Bool
is_lan src_ip =
    let a = src_ip % 0x100 in
    let b = src_ip / 0x100 % 0x100 in a == 10 || a == 172 && b / 16 == 1 || a == 192 && b == 168

abbrev pub or_pass : List ℕ → Option (List ℕ) → Verdict
or_pass buf none = pass buf
or_pass buf (some out) = tx out

abbrev pub or_same : List ℕ → Option (List ℕ) → List ℕ
or_same buf none = buf
or_same buf (some out) = out

-- Whether the packet exceeds the MTU of the WAN and must not be fragmented.
unfoldable pub is_too_big : List ℕ → WanEntry → Bool
is_too_big buf wan =
    ltb 0 wan.mtu
    && ltb wan.mtu (length buf)
    && in_bounds buf 0 14
    && load16 buf 12 == htons 0x0800
    && in_bounds buf 14 20
    && load8 buf 20 / 64 % 2 == 1

-- Step 6 on the entry of the WAN.
abbrev pub masquerade : Bool → Maps → FlowKey → List ℕ → Option WanEntry → Maps × Verdict
masquerade adjusted maps key buf none = (maps, pass buf)
masquerade adjusted maps key buf (some wan) =
    if is_too_big buf wan
    then (maps, or_pass buf (send_icmp_too_big adjusted buf wan.mtu))
    else (if snat_enabled_in maps.ctrl
          && wan.is_active
          && not (wan.ip_addr == 0)
          && is_lan key.src_ip
        then (count_snat maps, pass (or_same buf (apply_snat buf wan.ip_addr)))
        else (maps, pass buf))

unfoldable pub forward : Bool → Maps → List ℕ → FlowKey → Maps × Verdict
forward adjusted maps buf key =
    let counted = count_rx maps (length buf) in
    let (routed, target) = route counted key in
    if key.proto == 1 && key.pkt_flags.icmp && key.dst_ip == lan_ip_of maps.ctrl
    then (counted, or_pass buf (send_icmp_echo_reply buf))
    else masquerade adjusted routed key buf (get_elem? routed.wan_table target)

abbrev pub on_flow : Bool → Maps → List ℕ → Option FlowKey → Maps × Verdict
on_flow adjusted maps buf none = (maps, pass buf)
on_flow adjusted maps buf (some key) = forward adjusted maps buf key

unfoldable pub xdp_router_func : Bool → Maps → List ℕ → Maps × Verdict
xdp_router_func adjusted maps buf = on_flow adjusted maps buf (parse_flow buf)
