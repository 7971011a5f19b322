-- ===== src/Router/Rewrite.antt =====
-- The packet rewrites of bpf/xdp_router.bpf.c. A packet is the list of its bytes.
pub mod Snat
pub mod Echo
use flux_wan.Base.{
  ℕ, zero, suc, ◌+◌, ◌-◌, ◌*◌, ◌/◌, ◌%◌, List, [], ◌∷◌, ◌++◌, Bool, true, false, not, ◌&&◌, ◌||◌,
  Option, none, some, leb, ltb, ◌==◌, if◌then◌else◌, get_or, set, take, drop, length,
}
use mathlib.Core.Option.{bind}
use flux_wan.Checksum.{sum_words, csum_fold_helper, csum_replace2, csum_replace4}
use flux_wan.Router.{htons, load8, load16, load32, in_bounds}
use flux_wan.Router.Parse.{strip_vlan, is_ipv4, ihl}

abbrev pub word16 : ℕ → List ℕ
word16 v = v % 0x100 ∷ v / 0x100 % 0x100 ∷ []

abbrev pub word32 : ℕ → List ℕ
word32 v = v % 0x100 ∷ v / 0x100 % 0x100 ∷ v / 0x10000 % 0x100 ∷ v / 0x1000000 % 0x100 ∷ []

-- Bytes written over those at an offset.
abbrev pub overlay : List ℕ → ℕ → List ℕ → List ℕ
overlay buf at bytes = take at buf ++ (bytes ++ drop (at + length bytes) buf)

-- The header with a new source address and the checksum updated, and what follows it.
unfoldable pub snat_header : List ℕ → ℕ → List ℕ
snat_header header new_src_ip =
    let check = csum_replace4 (load16 header 10) (load32 header 12) new_src_ip in
    take 10 header ++ (word16 check ++ (word32 new_src_ip ++ drop 16 header))

-- `apply_snat`: none for -1. The header is taken to follow the Ethernet header.
unfoldable pub apply_snat : List ℕ → ℕ → Option (List ℕ)
apply_snat buf new_src_ip =
    if in_bounds buf 0 14 && in_bounds buf 14 20 && is_ipv4 buf 14
    then some (take 14 buf ++ snat_header (drop 14 buf) new_src_ip)
    else none

-- `update_ip_checksum` on a header and what follows it.
unfoldable pub update_ip_checksum : List ℕ → List ℕ
update_ip_checksum header =
    let cleared = take 10 header ++ (0 ∷ 0 ∷ drop 12 header) in
    take 10 header ++ (word16 (csum_fold_helper (sum_words (take 20 cleared))) ++ drop 12 header)

abbrev pub swap_macs : List ℕ → List ℕ
swap_macs buf = take 6 (drop 6 buf) ++ (take 6 buf ++ drop 12 buf)

-- The IPv4 header of the reply: the addresses swapped and the TTL reset.
unfoldable pub echo_header : List ℕ → List ℕ
echo_header header = update_ip_checksum (
    take 8 header
    ++ (64 ∷ take 3 (drop 9 header)
        ++ (take 4 (drop 16 header) ++ (take 4 (drop 12 header) ++ drop 20 header))))

-- The echo reply's type and checksum; `icmp` is the message from its first byte on.
unfoldable pub echo_icmp : List ℕ → List ℕ
echo_icmp icmp =
    0 ∷ load8 icmp 1 ∷ word16 (csum_replace2 (load16 icmp 2) (htons 0x0800) 0) ++ drop 4 icmp

abbrev pub echo_reply_at : List ℕ → ℕ × ℕ → Option (List ℕ)
echo_reply_at buf (proto, cur) =
    let iph_len = ihl buf cur * 4 in
    let icmph = cur + iph_len in
    let swapped = swap_macs buf in
    let headed = take cur swapped ++ echo_header (drop cur swapped) in
    if proto == htons 0x0800
      && in_bounds buf cur 20
      && is_ipv4 buf cur
      && in_bounds buf cur iph_len
      && in_bounds buf icmph 8
      && load8 buf icmph == 8
    then some (take icmph headed ++ echo_icmp (drop icmph headed))
    else none

-- `send_icmp_echo_reply`: the packet to transmit, or none where it passes the packet on.
unfoldable pub send_icmp_echo_reply : List ℕ → Option (List ℕ)
send_icmp_echo_reply buf =
    if in_bounds buf 0 14
    then bind (bind (strip_vlan buf (load16 buf 12, 14)) (strip_vlan buf)) (echo_reply_at buf)
    else none

-- The IPv4 header and the ICMP message of the "packet too big" reply.
unfoldable pub too_big_header : List ℕ → List ℕ
too_big_header iph =
    let client_ip = take 4 (drop 12 iph) in
    let router_ip = take 4 (drop 16 iph) in
    update_ip_checksum (0x45 ∷ 0 ∷ 0 ∷ 56 ∷ 0 ∷ 0 ∷ 0 ∷ 0 ∷ 64 ∷ 1 ∷ 0 ∷ 0 ∷ router_ip ++ client_ip)

unfoldable pub too_big_icmp : List ℕ → ℕ → List ℕ
too_big_icmp iph target_mtu =
    let body = take 28 iph in
    let mtu = target_mtu / 0x100 % 0x100 ∷ target_mtu % 0x100 ∷ [] in
    let cleared = 3 ∷ 4 ∷ 0 ∷ 0 ∷ 0 ∷ 0 ∷ mtu ++ body in
    3 ∷ 4 ∷ word16 (csum_fold_helper (sum_words cleared)) ++ (0 ∷ 0 ∷ mtu ++ body)

-- `send_icmp_too_big`; `adjusted` says that `bpf_xdp_adjust_tail` gives the packet 70 bytes.
unfoldable pub send_icmp_too_big : Bool → List ℕ → ℕ → Option (List ℕ)
send_icmp_too_big adjusted buf target_mtu =
    let iph = drop 14 buf in
    let eth = take 6 (drop 6 buf) ++ (take 6 buf ++ (0x08 ∷ 0x00 ∷ [])) in
    if in_bounds buf 0 14 && in_bounds buf 14 28 && adjusted
    then some (eth ++ (too_big_header iph ++ too_big_icmp iph target_mtu))
    else none
