-- ===== src/Dispatcher.antt =====
-- bpf/xdp_dispatcher.bpf.c: the router as a chain of programs that call one another by tail calls
-- and share a record for each packet. Every program ends by passing the packet to the kernel, so
-- what it does is its changes of the maps and of the packet.
pub mod Target
pub mod Translation
use flux_wan.Base.{
  ℕ, zero, suc, ◌+◌, ◌*◌, ◌/◌, ◌%◌, List, [], ◌∷◌, ◌++◌, Bool, true, false, not, ◌&&◌, ◌||◌, Option,
  none, some, bit_xor, u32, u64, shr, ltb, ◌==◌, if◌then◌else◌, get_elem?, get_or, set, length,
  take, drop,
}
use mathlib.Core.Option.{bind}
use flux_wan.Checksum.{sum_words, csum_fold_helper}
use flux_wan.Router.{
  Flags, FlowKey, Session, no_flags, icmp_flags, maglev_ring_size, max_ebpf_wans, htons, load8,
  load16, load32, in_bounds, wang,
}
use flux_wan.Router.Parse.{parse_eth, parse_ipv4, is_ipv4, parse_tcp}
use flux_wan.Router.Dispatch.{SessionMap, put, erase}
use flux_wan.Router.Rewrite.{word16, word32}

-- `struct bpf_wan_entry`, with the fields that the programs read.
pub record WanEntry : Type 0 where
  pub ip_addr : ℕ
  pub weight : ℕ
  pub is_active : Bool

-- `struct xdp_pkt_ctx`. The flow is its addresses, ports, protocol and flags.
pub record PktCtx : Type 0 where
  pub flow : FlowKey
  pub stage : ℕ
  pub is_lan_src : Bool
  pub target_wan_idx : ℕ
  pub wan_ip : ℕ
  pub flow_hash : ℕ

pub record WanStats : Type 0 where
  pub rx_packets : ℕ
  pub rx_bytes : ℕ
  pub snat_packets : ℕ

-- Which programs the array of tail calls holds.
pub record Progs : Type 0 where
  pub classifier : Bool
  pub lb : Bool
  pub snat : Bool
  pub stats : Bool

pub record Maps : Type 0 where
  pub progs : Progs
  pub pctx : PktCtx
  pub maglev_lut : List ℕ
  pub wan_table : List WanEntry
  pub sticky_flow : SessionMap
  pub wan_stats : List WanStats

-- `hash_5tuple_ctx`.
unfoldable pub hash_5tuple_ctx : FlowKey → ℕ
hash_5tuple_ctx c =
    let h =
      bit_xor (bit_xor (bit_xor c.src_ip c.dst_ip) (c.src_port * 0x10000 + c.dst_port)) c.proto in
    let g = wang (wang h) in bit_xor g (shr g 16)

abbrev pub count_packet : PktCtx → ℕ → WanStats → WanStats
count_packet p size st = record st {
  rx_packets = u64 (st.rx_packets + 1);
  rx_bytes = u64 (st.rx_bytes + size);
  snat_packets =
      if not (p.wan_ip == 0) && p.is_lan_src then u64 (st.snat_packets + 1) else st.snat_packets;
}

unfoldable pub modify_at : List WanStats → ℕ → (WanStats → WanStats) → List WanStats
modify_at [] i f = []
modify_at (st ∷ sts) zero f = f st ∷ sts
modify_at (st ∷ sts) (suc i) f = st ∷ modify_at sts i f

-- `xdp_stats`.
unfoldable pub xdp_stats : Maps → List ℕ → Maps × List ℕ
unfolding modify_at
xdp_stats maps buf =
    let idx = maps.pctx.target_wan_idx in
    (
      record maps {
        wan_stats =
            modify_at maps.wan_stats (if ltb idx max_ebpf_wans then idx else 0)
              (count_packet maps.pctx (length buf));
      },
      buf,
    )

abbrev pub call : Bool → (Maps → List ℕ → Maps × List ℕ) → Maps → List ℕ → Maps × List ℕ
call loaded program maps buf = if loaded then program maps buf else (maps, buf)

abbrev pub with_stage : Maps → ℕ → Maps
with_stage maps n = record maps { pctx = record maps.pctx { stage = n } }

-- The header with a new source address and a checksum over its first 20 bytes.
unfoldable pub translated : List ℕ → ℕ → List ℕ
translated header wan_ip =
    let rest = word32 wan_ip ++ drop 16 header in
    let check = csum_fold_helper (sum_words (take 20 (take 10 header ++ (0 ∷ 0 ∷ rest)))) in
    take 10 header ++ (word16 check ++ rest)

-- The IPv4 header is taken to follow the Ethernet header.
abbrev pub rewritten : PktCtx → List ℕ → List ℕ
rewritten p buf =
    if p.is_lan_src
      && not (p.wan_ip == 0)
      && in_bounds buf 0 14
      && in_bounds buf 14 20
      && is_ipv4 buf 14
    then take 14 buf ++ translated (drop 14 buf) p.wan_ip
    else buf

-- `xdp_snat`.
unfoldable pub xdp_snat : Maps → List ℕ → Maps × List ℕ
unfolding xdp_stats translated
xdp_snat maps buf = call maps.progs.stats xdp_stats (with_stage maps 3) (rewritten maps.pctx buf)

abbrev pub is_up : Option WanEntry → Bool
is_up none = false
is_up (some we) = we.is_active && ltb 0 we.weight

abbrev pub is_closing : FlowKey → Bool
is_closing key = key.pkt_flags.rst || key.pkt_flags.fin

-- The target of a session on a WAN that is up; RST and FIN end the session.
unfoldable pub on_sticky : Maps → FlowKey → Option Session → Maps × Option ℕ
on_sticky maps key none = (maps, none)
on_sticky maps key (some s) =
    if ltb s.wan_idx max_ebpf_wans && is_up (get_elem? maps.wan_table s.wan_idx)
    then (if is_closing key
        then (record maps { sticky_flow = erase maps.sticky_flow key }, none)
        else (maps, some s.wan_idx))
    else (maps, none)

abbrev pub picked_or : Option ℕ → ℕ → ℕ
picked_or none other = other
picked_or (some w) other = if ltb w max_ebpf_wans then w else other

abbrev pub maglev_target : Maps → ℕ
maglev_target maps =
    let hash = maps.pctx.flow_hash in
    picked_or (get_elem? maps.maglev_lut (hash % maglev_ring_size)) (hash % max_ebpf_wans)

unfoldable pub first_up : List WanEntry → ℕ → Option ℕ
first_up [] i = none
first_up (we ∷ ws) i = if is_up (some we) then some i else first_up ws (suc i)

abbrev pub or_target : Option ℕ → ℕ → ℕ
or_target none target = target
or_target (some fi) target = fi

unfoldable pub choose : Maps → ℕ
choose maps =
    let target = maglev_target maps in
    if is_up (get_elem? maps.wan_table target)
    then target
    else or_target (first_up maps.wan_table 0) target

unfoldable pub save : Maps → FlowKey → ℕ → Maps
save maps key target =
    let s : Session = record { wan_idx = target; wan_id = target + 1; orig_src_ip = key.src_ip } in
    if is_closing key then maps else record maps { sticky_flow = put maps.sticky_flow key s }

abbrev pub balanced : FlowKey → Maps × Option ℕ → Maps × ℕ
balanced key (maps, some target) = (maps, target)
balanced key (maps, none) = let target = choose maps in (save maps key target, target)

-- The choice of `xdp_lb`.
unfoldable pub balance : Maps → Maps × ℕ
unfolding on_sticky choose save
balance maps = let key = maps.pctx.flow in balanced key (on_sticky maps key (maps.sticky_flow key))

abbrev pub address_of : Option WanEntry → ℕ → ℕ
address_of none old = old
address_of (some we) old = if we.is_active then we.ip_addr else old

abbrev pub with_target : Maps × ℕ → Maps
with_target (maps, target) = record maps {
  pctx = record maps.pctx {
    target_wan_idx = target;
    wan_ip = address_of (get_elem? maps.wan_table target) maps.pctx.wan_ip;
    stage = 2;
  };
}

-- `xdp_lb`.
unfoldable pub xdp_lb : Maps → List ℕ → Maps × List ℕ
unfolding balance xdp_snat
xdp_lb maps buf =
    let chosen = with_target (balance maps) in call chosen.progs.snat xdp_snat chosen buf

-- 10/8, 172.16/12 and 192.168/16, on an address as it is loaded.
abbrev pub is_private : ℕ → Bool
is_private src =
    src % 0x100 == 10
    || (src % 0x100 == 172 && src / 0x100 % 0x100 / 16 == 1)
    || (src % 0x100 == 192 && src / 0x100 % 0x100 == 168)

abbrev pub ported : List ℕ → ℕ → FlowKey → FlowKey
ported buf cur flow = record flow {
  src_port = load16 buf cur;
  dst_port = load16 buf (cur + 2);
  pkt_flags = no_flags;
}

abbrev pub echoed : List ℕ → ℕ → FlowKey → FlowKey
echoed buf cur flow = record flow {
  src_port = load16 buf (cur + 4);
  dst_port = load16 buf (cur + 6);
  pkt_flags = icmp_flags;
}

abbrev pub classify_l4 : List ℕ → FlowKey × ℕ → Option FlowKey
classify_l4 buf (flow, cur) =
    if flow.proto == 6
    then parse_tcp buf cur flow
    else (if flow.proto == 17
        then (if in_bounds buf cur 8 then some (ported buf cur flow) else none)
        else (if flow.proto == 1
            then (if in_bounds buf cur 8 then some (echoed buf cur flow) else none)
            else none))

abbrev pub classify_from : List ℕ → ℕ × ℕ → Option FlowKey
classify_from buf (proto, cur) =
    if proto == htons 0x0800 then bind (parse_ipv4 buf cur) (classify_l4 buf) else none

unfoldable pub classify : List ℕ → Option FlowKey
classify buf = bind (parse_eth buf) (classify_from buf)

abbrev pub classified : Maps → FlowKey → Maps
classified maps flow = record maps {
  pctx = record maps.pctx {
    flow = flow;
    is_lan_src = is_private flow.src_ip;
    flow_hash = hash_5tuple_ctx flow;
    stage = 1;
  };
}

abbrev pub on_flow : Maps → List ℕ → Option FlowKey → Maps × List ℕ
on_flow maps buf none = (maps, buf)
on_flow maps buf (some flow) = call maps.progs.lb xdp_lb (classified maps flow) buf

-- `xdp_classifier`. A packet that it does not read leaves the record of the packet before, or a
-- part of its own, to no program.
unfoldable pub xdp_classifier : Maps → List ℕ → Maps × List ℕ
unfolding classify xdp_lb hash_5tuple_ctx
xdp_classifier maps buf = on_flow maps buf (classify buf)

-- The record as `xdp_dispatcher` resets it.
abbrev pub cleared : PktCtx → PktCtx
cleared p = record p {
  flow = record p.flow { pkt_flags = no_flags };
  stage = 0;
  is_lan_src = false;
  target_wan_idx = 0;
  wan_ip = 0;
  flow_hash = 0;
}

-- `xdp_dispatcher`.
unfoldable pub xdp_dispatcher : Maps → List ℕ → Maps × List ℕ
unfolding xdp_classifier
xdp_dispatcher maps buf =
    call maps.progs.classifier xdp_classifier (record maps { pctx = cleared maps.pctx }) buf
