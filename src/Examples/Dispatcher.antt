-- ===== src/Examples/Dispatcher.antt =====
-- bpf/xdp_dispatcher.bpf.c with two uplinks, the first down, and a UDP packet of 10.0.0.5.
use flux_wan.Base.{
  ℕ, ◌+◌, ◌%◌, ◌<◌, ◌≡◌, ◌↔◌, refl, List, [], ◌∷◌, Bool, true, false, none, some, get_or, take, All,
  arith,
}
use flux_wan.Checksum.{sum_words}
use flux_wan.Checksum.Valid.{Accepted}
use flux_wan.Router.{FlowKey, no_flags}
use mathlib.Core.Option.{bind}
use flux_wan.Router.Parse.{strip_vlan, parse_eth, parse_ipv4}
use flux_wan.Dispatcher.{WanEntry, PktCtx, Maps, classify, translated, xdp_dispatcher}
use flux_wan.Dispatcher.Target.{all_loaded, sent_by, SentBy, xdp_dispatcher-SentBy}
use flux_wan.Dispatcher.Translation.{header_of, translated-Accepted}

abbrev flow : FlowKey
flow = record {
  src_ip = 0x0500000a;
  dst_ip = 0x08080808;
  src_port = 0x3930;
  dst_port = 0x3500;
  proto = 17;
  pkt_flags = no_flags;
  quic_token = 0;
}

abbrev uplink : Bool → WanEntry
uplink up = record { ip_addr = 0x01020304; weight = 100; is_active = up }

abbrev pctx : PktCtx
pctx = record {
  flow = flow;
  stage = 0;
  is_lan_src = false;
  target_wan_idx = 0;
  wan_ip = 0;
  flow_hash = 0;
}

abbrev maps : Maps
maps = record {
  progs = all_loaded;
  pctx = pctx;
  maglev_lut = [];
  wan_table = uplink false ∷ uplink true ∷ [];
  sticky_flow = λ key. none;
  wan_stats = [];
}

abbrev packet : List ℕ
packet =
    0 ∷ 0 ∷ 0 ∷ 0 ∷ 0 ∷ 0 ∷ 0 ∷ 0 ∷ 0 ∷ 0 ∷ 0 ∷ 0 ∷ 8 ∷ 0 ∷ 0x45 ∷ 0 ∷ 0 ∷ 28 ∷ 0 ∷ 0 ∷ 0 ∷ 0 ∷ 64
    ∷ 17 ∷ 0 ∷ 0 ∷ 10 ∷ 0 ∷ 0 ∷ 5 ∷ 8 ∷ 8 ∷ 8 ∷ 8 ∷ 0x30 ∷ 0x39 ∷ 0 ∷ 0x35 ∷ 0 ∷ 8 ∷ 0 ∷ 0 ∷ []

packet-flow : classify packet ≡ some flow
unfolding classify parse_eth parse_ipv4 get_or bind strip_vlan
packet-flow = refl

xdp_dispatcher-SentBy_example :
    (w : ℕ) × (we : WanEntry) × SentBy maps w we
      (sent_by we flow packet)
      (xdp_dispatcher maps packet)
xdp_dispatcher-SentBy_example = xdp_dispatcher-SentBy maps packet flow 1 refl packet-flow refl

small : All (λ b. b < 256) (take 20 (header_of 0x46 0 0 24 0 0 0 0 64 17 0 0 10 0 0 5 8 8 8 8 []))
small = ground arith

translated-Accepted_example :
    Accepted (
      sum_words (
        take 20 (
          translated
            (header_of 0x46 0 0 24 0 0 0 0 64 17 0 0 10 0 0 5 8 8 8 8 (1 ∷ 1 ∷ 1 ∷ 0 ∷ []))
            0x01020304))
      + sum_words (1 ∷ 1 ∷ 1 ∷ 0 ∷ []))
    ↔ (sum_words (1 ∷ 1 ∷ 1 ∷ 0 ∷ []) % 0xffff ≡ 0)
translated-Accepted_example =
    translated-Accepted 0x46 0 0 24 0 0 0 0 64 17 0 0 10 0 0 5 8 8 8 8 (1 ∷ 1 ∷ 1 ∷ 0 ∷ [])
      0x01020304 (1 ∷ 1 ∷ 1 ∷ 0 ∷ []) small (omega arith) (unfold sum_words in omega arith)
