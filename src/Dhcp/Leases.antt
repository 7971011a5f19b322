-- ===== src/Dhcp/Leases.antt =====
-- The lease table of src/dhcp_server.c. A pointer to a lease is the first lease that a test accepts.
-- `time(NULL)` is the argument `now`; a `char` array is its bytes before the terminator.
pub mod Pool
pub mod Records
use flux_wan.Base.{
  ℕ, zero, suc, ◌+◌, ◌-◌, ◌*◌, ◌/◌, ◌%◌, List, [], ◌∷◌, ◌++◌, Bool, true, false, not, ◌&&◌, ◌||◌,
  Option, none, some, u64, ltb, leb, ◌==◌, if◌then◌else◌, bytes_eq, length, get_or, take,
}

abbrev pub max_dhcp_leases : ℕ
max_dhcp_leases = 254

pub record StaticLease : Type 0 where
  pub mac_addr : List ℕ
  pub ip_addr : ℕ
  pub hostname : List ℕ
  pub enabled : Bool

pub record Lan : Type 0 where
  pub ip_addr : ℕ
  pub netmask : ℕ
  pub dhcp_start : ℕ
  pub dhcp_end : ℕ
  pub dhcp_lease_time : ℕ
  pub static_leases : List StaticLease
  pub primary_dns : List ℕ
  pub secondary_dns : List ℕ

pub record Lease : Type 0 where
  pub ip_addr : ℕ
  pub mac_addr : List ℕ
  pub mac_str : List ℕ
  pub hostname : List ℕ
  pub lease_start_sec : ℕ
  pub lease_expire_sec : ℕ
  pub is_active : Bool
  pub is_static : Bool
  pub rx_bytes : ℕ
  pub tx_bytes : ℕ
  pub current_rx_kbps : ℕ
  pub current_tx_kbps : ℕ

-- `leases` has `lease_count` entries.
pub record Ctx : Type 0 where
  pub lan : Lan
  pub leases : List Lease

-- A slot that `calloc` cleared.
abbrev pub blank : Lease
blank = record {
  ip_addr = 0;
  mac_addr = 0 ∷ 0 ∷ 0 ∷ 0 ∷ 0 ∷ 0 ∷ [];
  mac_str = [];
  hostname = [];
  lease_start_sec = 0;
  lease_expire_sec = 0;
  is_active = false;
  is_static = false;
  rx_bytes = 0;
  tx_bytes = 0;
  current_rx_kbps = 0;
  current_tx_kbps = 0;
}

-- `htonl` and `ntohl` on a little-endian machine.
abbrev pub htonl : ℕ → ℕ
htonl n =
    n % 0x100 * 0x1000000
    + n / 0x100 % 0x100 * 0x10000
    + n / 0x10000 % 0x100 * 0x100
    + n / 0x1000000 % 0x100

unfoldable pub find_static : List StaticLease → List ℕ → Option StaticLease
find_static [] mac = none
find_static (sl ∷ sls) mac =
    if sl.enabled && bytes_eq sl.mac_addr mac then some sl else find_static sls mac

abbrev pub find_static_lease_by_mac : Lan → List ℕ → Option StaticLease
find_static_lease_by_mac lan mac = find_static lan.static_leases mac

unfoldable pub is_reserved : List StaticLease → ℕ → List ℕ → Bool
is_reserved [] ip mac = false
is_reserved (sl ∷ sls) ip mac =
    if sl.enabled && sl.ip_addr == ip
    then not (bytes_eq sl.mac_addr mac)
    else is_reserved sls ip mac

abbrev pub is_ip_reserved_by_static : Lan → ℕ → List ℕ → Bool
is_ip_reserved_by_static lan ip mac = is_reserved lan.static_leases ip mac

-- The first lease that a test accepts, and the table with that lease changed.
unfoldable pub find_lease : (Lease → Bool) → List Lease → Option Lease
find_lease p [] = none
find_lease p (l ∷ ls) = if p l then some l else find_lease p ls

unfoldable pub modify_lease : (Lease → Bool) → (Lease → Lease) → List Lease → List Lease
modify_lease p f [] = []
modify_lease p f (l ∷ ls) = if p l then f l ∷ ls else l ∷ modify_lease p f ls

abbrev pub has_mac : List ℕ → Lease → Bool
has_mac mac l = bytes_eq l.mac_addr mac

abbrev pub has_ip : ℕ → Lease → Bool
has_ip ip l = l.ip_addr == ip

abbrev pub find_lease_by_mac : Ctx → List ℕ → Option Lease
find_lease_by_mac ctx mac = find_lease (has_mac mac) ctx.leases

abbrev pub find_lease_by_ip : Ctx → ℕ → Option Lease
find_lease_by_ip ctx ip = find_lease (has_ip ip) ctx.leases

abbrev pub is_held : Option Lease → Bool
is_held none = false
is_held (some l) = l.is_active

-- The test of the allocation loop on an address in network order.
unfoldable pub is_available : Ctx → List ℕ → ℕ → Bool
is_available ctx mac ip_n =
    not (is_ip_reserved_by_static ctx.lan ip_n mac) && not (is_held (find_lease_by_ip ctx ip_n))

-- The loop of `allocate_next_ip` over `n` addresses from `ip_h`.
unfoldable pub search_pool : Ctx → List ℕ → ℕ → ℕ → ℕ
search_pool ctx mac zero ip_h = 0
search_pool ctx mac (suc n) ip_h =
    if is_available ctx mac (htonl ip_h) then htonl ip_h else search_pool ctx mac n (suc ip_h)

-- The bounds of the pool in host order; 192.168.90.100 to 192.168.90.200 in place of bounds that
-- make no sense.
unfoldable pub pool_of : Lan → ℕ × ℕ
pool_of lan =
    let start_h = htonl lan.dhcp_start in
    let end_h = htonl lan.dhcp_end in
    if start_h == 0 || end_h == 0 || ltb end_h start_h
    then (0xc0a85a64, 0xc0a85ac8)
    else (start_h, end_h)

abbrev pub allocate_from_pool : Ctx → List ℕ → ℕ
allocate_from_pool ctx mac =
    let (start_h, end_h) = pool_of ctx.lan in search_pool ctx mac (suc end_h - start_h) start_h

-- The second step of `allocate_next_ip`, on the lease of the client.
abbrev pub allocate_existing : Ctx → List ℕ → Option Lease → ℕ
allocate_existing ctx mac none = allocate_from_pool ctx mac
allocate_existing ctx mac (some l) = if l.is_active then l.ip_addr else allocate_from_pool ctx mac

-- Its first step, on the reservation of the client.
abbrev pub allocate_static : Ctx → List ℕ → Option StaticLease → ℕ
allocate_static ctx mac none = allocate_existing ctx mac (find_lease_by_mac ctx mac)
allocate_static ctx mac (some sl) =
    if sl.ip_addr == 0 then allocate_existing ctx mac (find_lease_by_mac ctx mac) else sl.ip_addr

unfoldable pub allocate_next_ip : Ctx → List ℕ → ℕ
allocate_next_ip ctx mac = allocate_static ctx mac (find_static_lease_by_mac ctx.lan mac)

abbrev pub hex_digit : ℕ → ℕ
hex_digit d = if ltb d 10 then 48 + d else 87 + d

-- `snprintf` of "%02x:%02x:%02x:%02x:%02x:%02x".
unfoldable pub print_mac : List ℕ → List ℕ
print_mac [] = []
print_mac (b ∷ []) = hex_digit (b / 16) ∷ hex_digit (b % 16) ∷ []
print_mac (b ∷ c ∷ bs) = hex_digit (b / 16) ∷ hex_digit (b % 16) ∷ 58 ∷ print_mac (c ∷ bs)

abbrev pub is_empty : List ℕ → Bool
is_empty [] = true
is_empty (x ∷ xs) = false

-- `strncpy` into a `hostname`, with the terminator.
abbrev pub copy_name : List ℕ → List ℕ
copy_name = take 63

-- "LAN-Client"
abbrev pub lan_client : List ℕ
lan_client = 76 ∷ 65 ∷ 78 ∷ 45 ∷ 67 ∷ 108 ∷ 105 ∷ 101 ∷ 110 ∷ 116 ∷ []

-- The name after the static reservation is applied, and the name at the end.
abbrev pub static_name : Option StaticLease → List ℕ → List ℕ
static_name none old = old
static_name (some sl) old = if is_empty sl.hostname then old else copy_name sl.hostname

abbrev pub names_client : Option StaticLease → Bool
names_client none = false
names_client (some sl) = not (is_empty sl.hostname)

unfoldable pub lease_name : Option StaticLease → List ℕ → List ℕ → List ℕ
lease_name sl hostname old =
    let named = static_name sl old in
    if not (is_empty hostname) && not (names_client sl)
    then copy_name hostname
    else (if is_empty named then lan_client else named)

abbrev pub is_some : Option StaticLease → Bool
is_some none = false
is_some (some sl) = true

-- What `update_lease_record` writes into the lease. A MAC address is the list of its six bytes.
unfoldable pub renewed : Lan → List ℕ → ℕ → List ℕ → ℕ → Lease → Lease
renewed lan mac ip hostname now l =
    let sl = find_static_lease_by_mac lan mac in
    record l {
      mac_addr = mac;
      mac_str = print_mac mac;
      ip_addr = ip;
      is_static = is_some sl;
      hostname = lease_name sl hostname l.hostname;
      lease_start_sec = now;
      lease_expire_sec = u64 (if is_some sl then now + 31536000 else now + lan.dhcp_lease_time);
      is_active = true;
    }
