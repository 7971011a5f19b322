-- ===== src/Examples/Router.antt =====
-- bpf/xdp_router.bpf.c with two uplinks, the first down and the second active.
use flux_wan.Base.{
  ℕ, ◌+◌, ◌/◌, ◌%◌, ◌<◌, ◌^◌, ◌≡◌, ◌≢◌, refl, List, [], ◌∷◌, Bool, true, false, none, some, ltb,
  get_elem?, get_or, take, All, arith,
}
use flux_wan.Checksum.{fold_carry, sum_words}
use flux_wan.Checksum.Valid.{Accepted}
use flux_wan.Router.{FlowKey, WanEntry, GlobalStats, load16, no_flags, max_ebpf_wans}
use flux_wan.Router.Dispatch.{
  Maps, SessionMap, is_dns_or_ntp, find_session, on_session, keeps_sessions, is_eligible, dispatch,
  route,
}
use flux_wan.Router.Dispatch.Sessions.{IsOpen}
use flux_wan.Router.Dispatch.Runs.{done, next, packet, Run-closing}
use flux_wan.Router.Dispatch.Eligible.{dispatch-eligible, route-alive}
use flux_wan.Router.Dispatch.Affinity.{route-sticky}
use flux_wan.Router.Rewrite.{snat_header}
use flux_wan.Router.Rewrite.Snat.{
  header_of, transport_sum, snat_header-Accepted, snat_header-transport,
}

abbrev key : FlowKey
key = record {
  src_ip = 0x0500000a;
  dst_ip = 0x08080808;
  src_port = 14640;
  dst_port = 20480;
  proto = 6;
  pkt_flags = no_flags;
  quic_token = 0;
}

abbrev closing : FlowKey
closing = record key { pkt_flags = record no_flags { fin = true } }

abbrev uplink : Bool → Bool → WanEntry
uplink up draining = record {
  ip_addr = 0x01020304;
  weight = 100;
  is_active = up;
  is_draining = draining;
  mtu = 1500;
}

abbrev no_stats : GlobalStats
no_stats = record {
  total_rx_packets = 0;
  total_rx_bytes = 0;
  total_snat_rewrites = 0;
  total_sticky_hits = 0;
  total_maglev_dispatches = 0;
  total_failovers = 0;
  total_session_evictions = 0;
}

abbrev maps_with : SessionMap → Maps
maps_with sessions = record {
  local_lru = sessions;
  sticky_flow = sessions;
  wan_table = uplink false false ∷ uplink true false ∷ [];
  lpm_subnet = λ ip. none;
  policy_route = [];
  maglev_group = [];
  maglev_lut = [];
  ctrl = none;
  stats = no_stats;
}

abbrev on_second : SessionMap
on_second k = some (record { wan_idx = 1; wan_id = 2; orig_src_ip = 0 })

abbrev nothing : SessionMap
nothing k = none

dispatch-eligible_example :
    is_eligible (get_elem? (maps_with nothing).wan_table (dispatch (maps_with nothing) key).1)
    ≡ true
dispatch-eligible_example = dispatch-eligible (maps_with nothing) key 1 refl

route-alive_example :
    keeps_sessions (get_elem? (maps_with nothing).wan_table (route (maps_with nothing) key).1)
    ≡ true
route-alive_example = route-alive (maps_with nothing) key 1 refl

abbrev drained : List WanEntry
drained = uplink true false ∷ uplink true true ∷ []

not_dns : is_dns_or_ntp key ≡ false
unfolding is_dns_or_ntp
not_dns = refl

on_second_small : ltb (route (maps_with on_second) key).1 max_ebpf_wans ≡ true
unfolding route find_session on_session is_dns_or_ntp
on_second_small = refl

on_second_kept : keeps_sessions (get_elem? drained (route (maps_with on_second) key).1) ≡ true
unfolding route find_session on_session is_dns_or_ntp
on_second_kept = refl

route-sticky_example :
    (route (record (route (maps_with on_second) key).0 { wan_table = drained }) key).1
    ≡ (route (maps_with on_second) key).1
route-sticky_example =
    route-sticky (maps_with on_second) key drained not_dns refl on_second_small on_second_kept

empty-IsOpen : IsOpen (maps_with nothing)
empty-IsOpen = (λ k. ground arith, λ k. ground arith)

abbrev busy : Maps
busy = (route (maps_with nothing) key).0

Run-closing_example :
    ((route busy closing).0.local_lru ≡ busy.local_lru)
    × ((route busy closing).0.sticky_flow ≡ busy.sticky_flow)
Run-closing_example =
    Run-closing (next busy (done (maps_with nothing)) (packet (maps_with nothing) key)) empty-IsOpen
      closing refl

-- A SYN from 10.0.0.5 to 8.8.8.8; the segment behind the header.
abbrev segment : List ℕ
segment = 48 ∷ 57 ∷ 0 ∷ 80 ∷ 0 ∷ 0 ∷ 0 ∷ 1 ∷ 0 ∷ 0 ∷ 0 ∷ 0 ∷ 80 ∷ 2 ∷ 32 ∷ 0 ∷ 69 ∷ 68 ∷ 0 ∷ 0 ∷ []

abbrev syn : List ℕ
syn = header_of 69 0 0 40 0 0 0 0 64 6 96 188 10 0 0 5 8 8 8 8 segment

syn-bytes : All (λ b. b < 256) (take 20 syn)
syn-bytes = ground arith

syn-Accepted : Accepted (sum_words (take 20 syn))
unfolding fold_carry sum_words
syn-Accepted = refl

snat_header-Accepted_example : Accepted (sum_words (take 20 (snat_header syn 0x04030201)))
snat_header-Accepted_example =
    snat_header-Accepted 69 0 0 40 0 0 0 0 64 6 96 188 10 0 0 5 8 8 8 8 segment 0x04030201 syn-bytes
      (omega arith) (omega arith) syn-Accepted

syn_sum : Accepted (transport_sum syn 5120)
unfolding fold_carry sum_words get_or
syn_sum = refl

segment_sum : sum_words segment < 2 ^ 29
unfolding sum_words
segment_sum = omega arith

differ :
    (0x04030201 / 2 ^ 16 + 0x04030201 % 2 ^ 16) % 0xffff ≢ (load16 syn 12 + load16 syn 14) % 0xffff
unfolding get_or
differ = λ e. omega arith

snat_header-transport_example : ¬ Accepted (transport_sum (snat_header syn 0x04030201) 5120)
snat_header-transport_example =
    snat_header-transport 69 0 0 40 0 0 0 0 64 6 96 188 10 0 0 5 8 8 8 8 segment 0x04030201 5120
      syn-bytes (omega arith) (omega arith) segment_sum differ syn_sum
