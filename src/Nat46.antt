-- ===== src/Nat46.antt =====
-- bpf/xdp_nat46.bpf.c: IPv4 packets to a synthetic address leave as IPv6 packets, and the answers
-- come back as IPv4. The map from synthetic addresses is written by the DNS64 daemon.
pub mod Answer
use flux_wan.Base.{
  ℕ, ◌+◌, ◌*◌, ◌-◌, ◌/◌, ◌%◌, List, [], ◌∷◌, ◌++◌, Bool, true, false, not, ◌&&◌, ◌||◌, Option, none,
  some, u16, u32, ltb, ◌==◌, if◌then◌else◌, bytes_eq, take, drop,
}
use flux_wan.Checksum.{calc_ip_csum}
use flux_wan.Router.{htons, load8, load16, load32, in_bounds}
use flux_wan.Router.Rewrite.{word16, word32}

-- An IPv6 address is the list of its sixteen bytes.
pub record Reverse : Type 0 where
  pub synthetic_v4 : ℕ
  pub client_v4 : ℕ

pub record Config : Type 0 where
  pub router_v6_src : List ℕ
  pub starlink_ifindex : ℕ
  pub lan_ifindex : ℕ
  pub starlink_gw_mac : List ℕ
  pub lan_gw_mac : List ℕ
  pub enabled : Bool
  pub total_translated_egress : ℕ
  pub total_translated_ingress : ℕ

pub record Maps : Type 0 where
  pub v4_to_v6 : ℕ → Option (List ℕ)
  pub v6_to_v4 : List ℕ → Option Reverse
  pub cfg : Option Config

pub data Verdict : Type 0 where
  pass drop_packet : Verdict
  redirect : ℕ → List ℕ → Verdict

-- 198.18.0.0/15, on an address as it is loaded.
unfoldable pub is_synthetic : ℕ → Bool
is_synthetic ip = ip % 0x100 == 198 && ip / 0x100 % 0x100 / 2 == 9

unfoldable pub put_reverse : (List ℕ → Option Reverse) → List ℕ → Reverse → List ℕ → Option Reverse
put_reverse m key r k = if bytes_eq key k then some r else m k

-- A 16-bit number in network order.
abbrev pub be_word : ℕ → List ℕ
be_word n = n / 0x100 % 0x100 ∷ n % 0x100 ∷ []

abbrev pub be_load : List ℕ → ℕ → ℕ
be_load buf at = load8 buf at * 0x100 + load8 buf (at + 1)

unfoldable pub ipv6_header : ℕ → ℕ → List ℕ → List ℕ → List ℕ
ipv6_header payload_len proto src dst =
    0x60 ∷ 0 ∷ 0 ∷ 0 ∷ be_word payload_len ++ (proto ∷ 64 ∷ src ++ dst)

unfoldable pub ipv4_header : ℕ → ℕ → ℕ → ℕ → List ℕ
ipv4_header payload_len proto src dst =
    let start =
      0x45 ∷ 0 ∷ be_word (u16 (payload_len + 20)) ++ (0 ∷ 0 ∷ 0x40 ∷ 0 ∷ 64 ∷ proto ∷ []) in
    let addresses = word32 src ++ word32 dst in
    start ++ (word16 (calc_ip_csum (start ++ (0 ∷ 0 ∷ addresses))) ++ addresses)

-- `room` are the twenty bytes that `bpf_xdp_adjust_head` puts before the packet, none if it fails.
-- They stand where the source address of the frame is, which is not written.
unfoldable pub egress_to : Maps → Config → Option (List ℕ) → List ℕ → List ℕ → Maps × Verdict
egress_to maps cfg none buf target = (maps, drop_packet)
egress_to maps cfg (some room) buf target =
    let payload_len = be_load buf 16 - load8 buf 14 % 16 * 4 in
    let rev : Reverse = record { synthetic_v4 = load32 buf 30; client_v4 = load32 buf 26 } in
    let counted : Config = record cfg {
      total_translated_egress = u32 (cfg.total_translated_egress + 1);
    } in
    let eth = take 6 cfg.starlink_gw_mac ++ (take 6 (drop 6 room) ++ (0x86 ∷ 0xDD ∷ [])) in
    (
      record maps { v6_to_v4 = put_reverse maps.v6_to_v4 target rev; cfg = some counted },
      redirect cfg.starlink_ifindex
          (eth ++ (ipv6_header payload_len (load8 buf 23) cfg.router_v6_src target ++ drop 34 buf)),
    )

abbrev pub egress_known :
    Maps → Config → Option (List ℕ) → List ℕ → Option (List ℕ) → Maps × Verdict
egress_known maps cfg room buf none = (maps, pass)
egress_known maps cfg room buf (some target) =
    if ltb (be_load buf 16) (load8 buf 14 % 16 * 4)
    then (maps, pass)
    else egress_to maps cfg room buf target

unfoldable pub egress : Maps → Config → Option (List ℕ) → List ℕ → Maps × Verdict
egress maps cfg room buf =
    if in_bounds buf 14 20 && is_synthetic (load32 buf 30)
    then egress_known maps cfg room buf (maps.v4_to_v6 (load32 buf 30))
    else (maps, pass)

-- `shrunk` says that `bpf_xdp_adjust_head` succeeds.
abbrev pub ingress_known : Maps → Config → Bool → List ℕ → Option Reverse → Maps × Verdict
ingress_known maps cfg shrunk buf none = (maps, pass)
ingress_known maps cfg shrunk buf (some rev) =
    let eth = take 6 cfg.lan_gw_mac ++ (take 6 (drop 26 buf) ++ (0x08 ∷ 0x00 ∷ [])) in
    let counted : Config = record cfg {
      total_translated_ingress = u32 (cfg.total_translated_ingress + 1);
    } in
    if shrunk
    then (
      record maps { cfg = some counted },
      redirect cfg.lan_ifindex (
          eth
          ++ (ipv4_header (be_load buf 18) (load8 buf 20) rev.synthetic_v4 rev.client_v4
              ++ drop 54 buf)),
    )
    else (maps, drop_packet)

unfoldable pub ingress : Maps → Config → Bool → List ℕ → Maps × Verdict
ingress maps cfg shrunk buf =
    if in_bounds buf 14 40
    then ingress_known maps cfg shrunk buf (maps.v6_to_v4 (take 16 (drop 22 buf)))
    else (maps, pass)

abbrev pub handle_with : Maps → Option (List ℕ) → Bool → List ℕ → Option Config → Maps × Verdict
handle_with maps room shrunk buf none = (maps, pass)
handle_with maps room shrunk buf (some cfg) =
    if not cfg.enabled
    then (maps, pass)
    else (if load16 buf 12 == htons 0x0800
        then egress maps cfg room buf
        else (if load16 buf 12 == htons 0x86DD then ingress maps cfg shrunk buf else (maps, pass)))

unfoldable pub xdp_nat46_handler : Maps → Option (List ℕ) → Bool → List ℕ → Maps × Verdict
xdp_nat46_handler maps room shrunk buf =
    if in_bounds buf 0 14 then handle_with maps room shrunk buf maps.cfg else (maps, pass)
