-- ===== src/Router/Parse.antt =====
-- The packet parsers of bpf/xdp_router.bpf.c. `cur` is an offset into the packet; a parser gives
-- the new offset and what it read, and none for -1.
use flux_wan.Base.{
  ℕ, ◌+◌, ◌*◌, ◌/◌, ◌%◌, List, Bool, true, false, ◌&&◌, ◌||◌, Option, none, some, bit_xor, leb,
  ◌==◌, if◌then◌else◌,
}
use mathlib.Core.Option.{bind}
use flux_wan.Router.{Flags, FlowKey, no_flags, icmp_flags, htons, load8, load16, load32, in_bounds}

abbrev pub is_vlan : ℕ → Bool
is_vlan proto = proto == htons 0x8100 || proto == htons 0x88A8

-- One VLAN tag: the protocol and the offset behind it.
unfoldable pub strip_vlan : List ℕ → ℕ × ℕ → Option (ℕ × ℕ)
strip_vlan buf (proto, cur) =
    let inner = if in_bounds buf cur 4 then some (load16 buf (cur + 2), cur + 4) else none in
    if is_vlan proto then inner else some (proto, cur)

unfoldable pub parse_eth : List ℕ → Option (ℕ × ℕ)
parse_eth buf =
    if in_bounds buf 0 14 then bind (strip_vlan buf (load16 buf 12, 14)) (strip_vlan buf) else none

abbrev pub version : List ℕ → ℕ → ℕ
version buf at = load8 buf at / 16

abbrev pub ihl : List ℕ → ℕ → ℕ
ihl buf at = load8 buf at % 16

abbrev pub is_ipv4 : List ℕ → ℕ → Bool
is_ipv4 buf at = version buf at == 4 && leb 5 (ihl buf at)

abbrev pub addressed : List ℕ → ℕ → FlowKey
addressed buf at = record {
  src_ip = load32 buf (at + 12);
  dst_ip = load32 buf (at + 16);
  src_port = 0;
  dst_port = 0;
  proto = load8 buf (at + 9);
  pkt_flags = no_flags;
  quic_token = 0;
}

unfoldable pub parse_ipv4 : List ℕ → ℕ → Option (FlowKey × ℕ)
parse_ipv4 buf cur =
    let iph_len = ihl buf cur * 4 in
    if in_bounds buf cur 20 && is_ipv4 buf cur && in_bounds buf cur iph_len
    then some (addressed buf cur, cur + iph_len)
    else none

-- Bit `k` of a byte.
abbrev pub bit : ℕ → ℕ → Bool
bit k b = b / k % 2 == 1

unfoldable pub parse_tcp : List ℕ → ℕ → FlowKey → Option FlowKey
parse_tcp buf cur flow =
    let b = load8 buf (cur + 13) in
    let flags : Flags = record {
      syn = bit 2 b;
      rst = bit 4 b;
      fin = bit 1 b;
      icmp = false;
      quic = false;
      pmtu = false;
    } in
    if in_bounds buf cur 20
    then some (record flow {
      src_port = load16 buf cur;
      dst_port = load16 buf (cur + 2);
      pkt_flags = flags;
    })
    else none

-- Where the connection ID of a QUIC packet stands.
unfoldable pub dcid_at : List ℕ → ℕ → Option ℕ
dcid_at buf q =
    if bit 128 (load8 buf q)
    then (if in_bounds buf q 6 && leb 4 (load8 buf (q + 5)) && in_bounds buf q 10
        then some (q + 6)
        else none)
    else (if in_bounds buf q 5 then some (q + 1) else none)

-- The token in the connection ID, by its version.
unfoldable pub token_of : List ℕ → Option ℕ → ℕ
token_of buf none = 0
token_of buf (some at) =
    let a = load8 buf at in
    let b = load8 buf (at + 1) in
    let c = load8 buf (at + 2) in
    if a / 64 == 0
    then a % 64 * 0x400 + b * 4 + c / 64
    else (if a / 64 == 1 then b * 0x100 + c else a * 0x100 + bit_xor b c)

abbrev pub with_token : FlowKey → ℕ → FlowKey
with_token flow token =
    if token == 0 then flow else record flow { quic_token = token; src_ip = 0; src_port = 0 }

unfoldable pub parse_udp : List ℕ → ℕ → FlowKey → Option FlowKey
parse_udp buf cur flow =
    let q = cur + 8 in
    let ported : FlowKey = record flow {
      src_port = load16 buf cur;
      dst_port = load16 buf (cur + 2);
      pkt_flags = no_flags;
      quic_token = 0;
    } in
    let quic : FlowKey = record ported { pkt_flags = record no_flags { quic = true } } in
    let is_443 = load16 buf (cur + 2) == 0xBB01 || load16 buf cur == 0xBB01 in
    if in_bounds buf cur 8
    then some (
        if is_443 && in_bounds buf q 1 && bit 64 (load8 buf q)
        then with_token quic (token_of buf (dcid_at buf q))
        else ported)
    else none

-- The flow that an ICMP error quotes, if enough of it is there.
unfoldable pub quoted : List ℕ → ℕ → FlowKey → FlowKey
quoted buf inner flow =
    let inner_ihl = ihl buf inner * 4 in
    let ports = inner + inner_ihl in
    if in_bounds buf inner 20
      && version buf inner == 4
      && leb 20 inner_ihl
      && in_bounds buf inner (inner_ihl + 4)
    then record flow {
      src_ip = load32 buf (inner + 12);
      dst_ip = load32 buf (inner + 16);
      src_port = load16 buf ports;
      dst_port = load16 buf (ports + 2);
      proto = load8 buf (inner + 9);
    }
    else record flow { src_port = 0; dst_port = 0 }

unfoldable pub parse_icmp : List ℕ → ℕ → FlowKey → Option FlowKey
parse_icmp buf cur flow =
    let type = load8 buf cur in
    let base : FlowKey = record flow { quic_token = 0; pkt_flags = icmp_flags } in
    let error : FlowKey = record base { pkt_flags = record icmp_flags { pmtu = true } } in
    let echo : FlowKey = record base {
      src_port = load16 buf (cur + 4);
      dst_port = load16 buf (cur + 6);
    } in
    let other : FlowKey = record base { src_port = 0; dst_port = 0 } in
    if in_bounds buf cur 8
    then some (
        if type == 8 || type == 0
        then echo
        else (if type == 3 || type == 11 then quoted buf (cur + 8) error else other))
    else none

unfoldable pub parse_l4 : List ℕ → FlowKey × ℕ → Option FlowKey
parse_l4 buf (flow, cur) =
    if flow.proto == 6
    then parse_tcp buf cur flow
    else (if flow.proto == 17
        then parse_udp buf cur flow
        else (if flow.proto == 1 then parse_icmp buf cur flow else none))

abbrev pub parse_from : List ℕ → ℕ × ℕ → Option FlowKey
parse_from buf (proto, cur) =
    if proto == htons 0x0800 then bind (parse_ipv4 buf cur) (parse_l4 buf) else none

-- The parsing steps of `xdp_router_func` in turn; none where it passes the packet on.
unfoldable pub parse_flow : List ℕ → Option FlowKey
parse_flow buf = bind (parse_eth buf) (parse_from buf)
