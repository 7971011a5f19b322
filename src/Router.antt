-- ===== src/Router.antt =====
-- bpf/xdp_router.bpf.c: the data of the egress router and the hash of a flow. The machine is
-- little-endian: a field in network order is loaded with its bytes swapped.
pub mod Parse
pub mod Dispatch
pub mod Rewrite
pub mod Packet
use flux_wan.Base.{
  ℕ, zero, suc, ◌+◌, ◌*◌, ◌/◌, ◌%◌, List, [], ◌∷◌, Bool, true, false, ◌&&◌, ◌||◌, Option, none,
  some, bit_xor, u32, shr, ltb, leb, ◌==◌, if◌then◌else◌, get_or, length,
}

-- `struct flow_5tuple`; the flags are the bits of `pkt_flags`.
pub record Flags : Type 0 where
  pub syn : Bool
  pub rst : Bool
  pub fin : Bool
  pub icmp : Bool
  pub quic : Bool
  pub pmtu : Bool

pub record FlowKey : Type 0 where
  pub src_ip : ℕ
  pub dst_ip : ℕ
  pub src_port : ℕ
  pub dst_port : ℕ
  pub proto : ℕ
  pub pkt_flags : Flags
  pub quic_token : ℕ

abbrev pub no_flags : Flags
no_flags = record {
  syn = false;
  rst = false;
  fin = false;
  icmp = false;
  quic = false;
  pmtu = false;
}

abbrev pub icmp_flags : Flags
icmp_flags = record {
  syn = false;
  rst = false;
  fin = false;
  icmp = true;
  quic = false;
  pmtu = false;
}

-- `struct bpf_wan_entry`, with the fields that the router reads.
pub record WanEntry : Type 0 where
  pub ip_addr : ℕ
  pub weight : ℕ
  pub is_active : Bool
  pub is_draining : Bool
  pub mtu : ℕ

pub record Session : Type 0 where
  pub wan_idx : ℕ
  pub wan_id : ℕ
  pub orig_src_ip : ℕ

pub record Policy : Type 0 where
  pub subnet_ip : ℕ
  pub netmask : ℕ
  pub target_group : ℕ
  pub is_active : Bool

-- `struct router_ctrl`, with the fields that the router reads.
pub record Ctrl : Type 0 where
  pub lan_ip : ℕ
  pub snat_enabled : Bool

-- `struct router_global_stats`, with the counters that the router writes.
pub record GlobalStats : Type 0 where
  pub total_rx_packets : ℕ
  pub total_rx_bytes : ℕ
  pub total_snat_rewrites : ℕ
  pub total_sticky_hits : ℕ
  pub total_maglev_dispatches : ℕ
  pub total_failovers : ℕ
  pub total_session_evictions : ℕ

abbrev pub max_ebpf_wans : ℕ
max_ebpf_wans = 256

abbrev pub max_bpf_groups : ℕ
max_bpf_groups = 8

abbrev pub maglev_ring_size : ℕ
maglev_ring_size = 65537

-- `bpf_htons`.
abbrev pub htons : ℕ → ℕ
htons n = n % 0x100 * 0x100 + n / 0x100 % 0x100

-- Loads of a little-endian machine from a packet.
abbrev pub load8 : List ℕ → ℕ → ℕ
load8 buf at = get_or buf at 0

abbrev pub load16 : List ℕ → ℕ → ℕ
load16 buf at = get_or buf at 0 + 0x100 * get_or buf (at + 1) 0

abbrev pub load32 : List ℕ → ℕ → ℕ
load32 buf at = load16 buf at + 0x10000 * load16 buf (at + 2)

-- Whether `size` bytes at an offset lie before `data_end`.
abbrev pub in_bounds : List ℕ → ℕ → ℕ → Bool
in_bounds buf at size = leb (at + size) (length buf)

-- SIP, RTSP, FTP, IKE, NAT-T and WireGuard.
abbrev pub is_control_port : ℕ → Bool
is_control_port p =
    p == htons 5060
    || p == htons 554
    || p == htons 21
    || p == htons 500
    || p == htons 4500
    || p == htons 51820

abbrev pub wang : ℕ → ℕ
wang h = u32 (bit_xor h (shr h 16) * 0x45d9f3b)

unfoldable pub hash_5tuple : FlowKey → ℕ
hash_5tuple key =
    let src_p =
      if is_control_port key.dst_port || is_control_port key.src_port then 0 else key.src_port in
    let by_quic = bit_xor (bit_xor key.dst_ip (key.quic_token * 0x10000)) key.dst_port in
    let by_tuple =
      bit_xor (bit_xor (bit_xor key.src_ip key.dst_ip) (src_p * 0x10000 + key.dst_port))
        key.proto in
    let h = wang (wang (if key.pkt_flags.quic then by_quic else by_tuple)) in bit_xor h (shr h 16)
