-- ===== src/Examples/Dhcp.antt =====
-- src/dhcp_server.c with one lease: the client ..:01 holds 192.168.90.100, the first address of the
-- pool.
use flux_wan.Base.{ℕ, ◌≡◌, List, [], ◌∷◌, ◌++◌, true, Option, none, replicate}
use flux_wan.Dhcp.Options.{get_dhcp_option, value}
use flux_wan.Dhcp.Options.RoundTrip.{find}
use flux_wan.Dhcp.Leases.{Lan, Lease, Ctx, blank}
use flux_wan.Dhcp.Server.{Packet, dhcp_ack, reply_options, reply}
use flux_wan.Dhcp.Server.Replies.{reply-options}

abbrev first : List ℕ
first = 2 ∷ 0 ∷ 0 ∷ 0 ∷ 0 ∷ 1 ∷ []

abbrev second : List ℕ
second = 2 ∷ 0 ∷ 0 ∷ 0 ∷ 0 ∷ 2 ∷ []

-- 192.168.90.100 and .102, as they are stored.
abbrev lan : Lan
lan = record {
  ip_addr = 0x015aa8c0;
  netmask = 0x00ffffff;
  dhcp_start = 0x645aa8c0;
  dhcp_end = 0x665aa8c0;
  dhcp_lease_time = 3600;
  static_leases = [];
  primary_dns = [];
  secondary_dns = [];
}

abbrev held : Lease
held = record blank { ip_addr = 0x645aa8c0; mac_addr = first; is_active = true }

abbrev ctx : Ctx
ctx = record { lan = lan; leases = held ∷ [] }

abbrev resolver : List ℕ → Option ℕ
resolver text = none

-- A REQUEST of the second client for the address that the first one holds.
abbrev req : Packet
req = record {
  op = 1;
  htype = 1;
  hlen = 6;
  xid = 7;
  flags = 0;
  ciaddr = 0;
  yiaddr = 0;
  siaddr = 0;
  chaddr = second ++ replicate 10 0;
  magic = 0x63538263;
  options = 53 ∷ 1 ∷ 3 ∷ 50 ∷ 4 ∷ 0xc0 ∷ 0xa8 ∷ 0x5a ∷ 0x64 ∷ 255 ∷ [];
}

reply-options_example :
    value (get_dhcp_option (reply resolver 0 lan req dhcp_ack 0x645aa8c0).options 6)
    ≡ find (reply_options resolver 0 lan dhcp_ack) 6
reply-options_example = reply-options resolver 0 lan req dhcp_ack 0x645aa8c0 6
