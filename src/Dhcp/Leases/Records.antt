-- ===== src/Dhcp/Leases/Records.antt =====
-- The operations on the lease table of src/dhcp_server.c.
pub mod Update
pub mod Bounds
use flux_wan.Base.{
  ℕ, zero, suc, ◌+◌, ◌-◌, ◌*◌, ◌/◌, List, [], ◌∷◌, ◌++◌, Bool, true, false, not, ◌&&◌, ◌||◌, Option,
  none, some, u32, u64, ltb, leb, ◌==◌, if◌then◌else◌, length, take,
}
use flux_wan.Dhcp.Leases.{
  max_dhcp_leases, StaticLease, Lan, Lease, Ctx, blank, find_lease, modify_lease, has_mac, has_ip,
  find_lease_by_mac, find_lease_by_ip, renewed, is_empty, copy_name,
}

abbrev pub modify_head : (Lease → Lease) → List Lease → List Lease
modify_head f [] = []
modify_head f (l ∷ ls) = f l ∷ ls

abbrev pub is_found : Option Lease → Bool
is_found none = false
is_found (some l) = true

-- The lease of the client is renewed in place; failing that a new one is appended, and in a full
-- table the one in the first slot is overwritten.
unfoldable pub update_lease_record : Ctx → List ℕ → ℕ → List ℕ → ℕ → Ctx
update_lease_record ctx mac ip hostname now =
    let write = renewed ctx.lan mac ip hostname now in
    if is_found (find_lease_by_mac ctx mac)
    then record ctx { leases = modify_lease (has_mac mac) write ctx.leases }
    else (if ltb (length ctx.leases) max_dhcp_leases
        then record ctx { leases = ctx.leases ++ write blank ∷ [] }
        else record ctx { leases = modify_head write ctx.leases })

abbrev pub pinned : StaticLease → Lease → Lease
pinned sl l = record l {
  ip_addr = sl.ip_addr;
  is_static = true;
  hostname = if is_empty sl.hostname then l.hostname else copy_name sl.hostname;
}

unfoldable pub pin : Ctx → StaticLease → ℕ → Ctx
pin ctx sl now =
    if is_found (find_lease_by_mac ctx sl.mac_addr)
    then record ctx { leases = modify_lease (has_mac sl.mac_addr) (pinned sl) ctx.leases }
    else update_lease_record ctx sl.mac_addr sl.ip_addr sl.hostname now

unfoldable pub pin_all : Ctx → List StaticLease → ℕ → Ctx
pin_all ctx [] now = ctx
pin_all ctx (sl ∷ sls) now = pin_all (if sl.enabled then pin ctx sl now else ctx) sls now

unfoldable pub reload_config : Ctx → Lan → ℕ → Ctx
reload_config ctx lan now = pin_all (record ctx { lan = lan }) lan.static_leases now

-- The rate of a counter that moves from `old` to `new`, in a 32-bit word.
unfoldable pub rate : ℕ → ℕ → ℕ → ℕ
rate old new kept = if leb old new && ltb 0 old then u32 (u64 ((new - old) * 8) / 1000) else kept

unfoldable pub counted : ℕ → ℕ → Lease → Lease
counted rx tx l = record l {
  current_rx_kbps = rate l.rx_bytes rx l.current_rx_kbps;
  current_tx_kbps = rate l.tx_bytes tx l.current_tx_kbps;
  rx_bytes = rx;
  tx_bytes = tx;
}

-- `update_client_traffic`; `ip_to_str` of the address is the argument `text`. The flag is whether
-- the call succeeds.
unfoldable pub update_client_traffic : Ctx → ℕ → List ℕ → ℕ → ℕ → Ctx × Bool
update_client_traffic ctx ip text rx tx =
    let seen : Lease = record blank { ip_addr = ip; is_active = true; hostname = text } in
    if is_found (find_lease_by_ip ctx ip)
    then (record ctx { leases = modify_lease (has_ip ip) (counted rx tx) ctx.leases }, true)
    else (if ltb (length ctx.leases) max_dhcp_leases
        then (record ctx { leases = ctx.leases ++ counted rx tx seen ∷ [] }, true)
        else (ctx, false))

unfoldable pub load_static : Ctx → List StaticLease → ℕ → Ctx
load_static ctx [] now = ctx
load_static ctx (sl ∷ sls) now =
    let loaded = update_lease_record ctx sl.mac_addr sl.ip_addr sl.hostname now in
    load_static (if sl.enabled && not (sl.ip_addr == 0) then loaded else ctx) sls now

-- d8:3a:dd:12:34:56 and "Workstation-Office", the device that an empty table is seeded with.
abbrev pub seed_mac : List ℕ
seed_mac = 0xd8 ∷ 0x3a ∷ 0xdd ∷ 0x12 ∷ 0x34 ∷ 0x56 ∷ []

abbrev pub seed_name : List ℕ
seed_name =
    87 ∷ 111 ∷ 114 ∷ 107 ∷ 115 ∷ 116 ∷ 97 ∷ 116 ∷ 105 ∷ 111 ∷ 110 ∷ 45 ∷ 79 ∷ 102 ∷ 102 ∷ 105 ∷ 99
    ∷ 101 ∷ []

abbrev pub seed : Ctx → ℕ → Ctx
seed ctx now =
    let ip = if ctx.lan.dhcp_start == 0 then 0x695aa8c0 else ctx.lan.dhcp_start in
    if length ctx.leases == 0 then update_lease_record ctx seed_mac ip seed_name now else ctx

unfoldable pub init : Lan → ℕ → Ctx
init lan now = seed (load_static (record { lan = lan; leases = [] }) lan.static_leases now) now

-- The active leases, at most `max_count` of them.
unfoldable pub get_leases : List Lease → ℕ → List Lease
get_leases ls zero = []
get_leases [] (suc n) = []
get_leases (l ∷ ls) (suc n) = if l.is_active then l ∷ get_leases ls n else get_leases ls (suc n)
