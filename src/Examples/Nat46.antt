-- ===== src/Examples/Nat46.antt =====
-- bpf/xdp_nat46.bpf.c: 10.0.0.5 asks 198.18.0.1, which stands for 2001:db8::1.
use flux_wan.Base.{ℕ, List, [], ◌∷◌, ◌++◌, true, none, some}
use flux_wan.Nat46.{Maps, Config}

abbrev mac : List ℕ
mac = 2 ∷ 0 ∷ 0 ∷ 0 ∷ 0 ∷ 1 ∷ []

abbrev server : List ℕ
server = 0x20 ∷ 0x01 ∷ 0x0d ∷ 0xb8 ∷ 0 ∷ 0 ∷ 0 ∷ 0 ∷ 0 ∷ 0 ∷ 0 ∷ 0 ∷ 0 ∷ 0 ∷ 0 ∷ 1 ∷ []

abbrev pub cfg : Config
cfg = record {
  router_v6_src = server;
  starlink_ifindex = 3;
  lan_ifindex = 2;
  starlink_gw_mac = mac;
  lan_gw_mac = mac;
  enabled = true;
  total_translated_egress = 0;
  total_translated_ingress = 0;
}

abbrev maps : Maps
maps = record { v4_to_v6 = λ ip. some server; v6_to_v4 = λ ip. none; cfg = some cfg }

abbrev room : List ℕ
room = 0 ∷ 0 ∷ 0 ∷ 0 ∷ 0 ∷ 0 ∷ 0 ∷ 0 ∷ 0 ∷ 0 ∷ 0 ∷ 0 ∷ 0 ∷ 0 ∷ 0 ∷ 0 ∷ 0 ∷ 0 ∷ 0 ∷ 0 ∷ []

abbrev question : List ℕ
question =
    mac
    ++ (mac
        ++ (8 ∷ 0 ∷ 0x45 ∷ 0 ∷ 0 ∷ 21 ∷ 0 ∷ 0 ∷ 0 ∷ 0 ∷ 64 ∷ 6 ∷ 0 ∷ 0 ∷ 10 ∷ 0 ∷ 0 ∷ 5 ∷ 198 ∷ 18
            ∷ 0 ∷ 1 ∷ 7 ∷ []))

abbrev answer : List ℕ
answer =
    mac ++ (mac ++ (0x86 ∷ 0xDD ∷ 0x60 ∷ 0 ∷ 0 ∷ 0 ∷ 0 ∷ 1 ∷ 6 ∷ 64 ∷ server ++ server ++ 9 ∷ []))
