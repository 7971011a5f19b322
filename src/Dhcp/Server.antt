-- ===== src/Dhcp/Server.antt =====
-- `dhcp_server_process` of src/dhcp_server.c on one received datagram. `sendto` is the reply that is
-- returned; logging is left out.
pub mod Replies
use flux_wan.Base.{
  ℕ, zero, suc, ◌+◌, ◌*◌, ◌/◌, ◌%◌, List, [], ◌∷◌, ◌++◌, Bool, true, false, not, ◌&&◌, ◌||◌, Option,
  none, some, ltb, ◌==◌, if◌then◌else◌, bytes_eq, get_or, set, replicate, take,
}
use flux_wan.Dhcp.Options.{opt_end, get_dhcp_option, append_option, append_options}
use flux_wan.Dhcp.Leases.{Lan, Lease, Ctx, htonl, modify_lease, has_mac, is_empty, allocate_next_ip}
use flux_wan.Dhcp.Leases.Records.{update_lease_record}

-- `struct dhcp_packet`, with the fields that the server reads or writes. Words are as they are
-- loaded from memory.
pub record Packet : Type 0 where
  pub op : ℕ
  pub htype : ℕ
  pub hlen : ℕ
  pub xid : ℕ
  pub flags : ℕ
  pub ciaddr : ℕ
  pub yiaddr : ℕ
  pub siaddr : ℕ
  pub chaddr : List ℕ
  pub magic : ℕ
  pub options : List ℕ

abbrev pub dhcp_magic_cookie : ℕ
dhcp_magic_cookie = 0x63825363

-- Message types.
abbrev pub dhcp_discover : ℕ
dhcp_discover = 1

abbrev pub dhcp_offer : ℕ
dhcp_offer = 2

abbrev pub dhcp_request : ℕ
dhcp_request = 3

abbrev pub dhcp_ack : ℕ
dhcp_ack = 5

abbrev pub dhcp_release : ℕ
dhcp_release = 7

-- Option numbers.
abbrev pub opt_subnet_mask : ℕ
opt_subnet_mask = 1

abbrev pub opt_router : ℕ
opt_router = 3

abbrev pub opt_dns : ℕ
opt_dns = 6

abbrev pub opt_hostname : ℕ
opt_hostname = 12

abbrev pub opt_req_ip : ℕ
opt_req_ip = 50

abbrev pub opt_lease_time : ℕ
opt_lease_time = 51

abbrev pub opt_msg_type : ℕ
opt_msg_type = 53

abbrev pub opt_server_id : ℕ
opt_server_id = 54

-- The bytes of a `uint32_t` in memory, and the word in four bytes.
unfoldable pub word_bytes : ℕ → List ℕ
word_bytes n = n % 0x100 ∷ n / 0x100 % 0x100 ∷ n / 0x10000 % 0x100 ∷ n / 0x1000000 % 0x100 ∷ []

unfoldable pub read_word : List ℕ → ℕ
read_word bs =
    get_or bs 0 0 + get_or bs 1 0 * 0x100 + get_or bs 2 0 * 0x10000 + get_or bs 3 0 * 0x1000000

-- A `char` array up to its terminator.
unfoldable pub c_string : List ℕ → List ℕ
c_string [] = []
c_string (b ∷ bs) = if b == 0 then [] else b ∷ c_string bs

-- The client's name, cut to the array.
abbrev pub hostname_of : Option (List ℕ × ℕ) → List ℕ
hostname_of none = []
hostname_of (some (rest, len)) = c_string (take (if ltb len 63 then len else 63) rest)

-- "FluxWAN"
abbrev pub own_name : List ℕ
own_name = 70 ∷ 108 ∷ 117 ∷ 120 ∷ 87 ∷ 65 ∷ 78 ∷ []

abbrev pub address_or_zero : Option ℕ → ℕ
address_or_zero none = 0
address_or_zero (some ip) = ip

abbrev pub mac_of : Packet → List ℕ
mac_of req = take 6 req.chaddr

-- `inet_pton` is a library call; `beyond` is the byte that stands behind the buffer of the request,
-- which an empty message type at its end reads.
module _ (inet_pton : List ℕ → Option ℕ) (beyond : ℕ) where
  abbrev pub str_to_ip : List ℕ → ℕ
  str_to_ip text = address_or_zero (inet_pton text)

  -- A name server of the replies: the configured one if it is an address, or `other`.
  abbrev pub dns_server : List ℕ → ℕ → ℕ
  dns_server text other = if is_empty text || str_to_ip text == 0 then other else str_to_ip text

  -- 1.1.1.1 and 8.8.8.8 are the defaults.
  unfoldable pub reply_options : Lan → ℕ → List (ℕ × List ℕ)
  reply_options lan type =
      (opt_msg_type, type ∷ [])
      ∷ (opt_subnet_mask, word_bytes lan.netmask)
      ∷ (opt_router, word_bytes lan.ip_addr)
      ∷ (
        opt_dns,
        word_bytes (dns_server lan.primary_dns 0x01010101)
            ++ word_bytes (dns_server lan.secondary_dns 0x08080808),
      )
      ∷ (opt_lease_time, word_bytes (htonl lan.dhcp_lease_time))
      ∷ (opt_server_id, word_bytes lan.ip_addr)
      ∷ []

  unfoldable pub reply : Lan → Packet → ℕ → ℕ → Packet
  reply lan req type ip =
      let (buffer, offset) = append_options (replicate 308 0, 0) (reply_options lan type) in
      record {
        op = 2;
        htype = req.htype;
        hlen = req.hlen;
        xid = req.xid;
        flags = req.flags;
        ciaddr = 0;
        yiaddr = ip;
        siaddr = lan.ip_addr;
        chaddr = req.chaddr;
        magic = htonl dhcp_magic_cookie;
        options = set buffer offset opt_end;
      }

  unfoldable pub on_discover : Ctx → Packet → Ctx × Option Packet
  on_discover ctx req =
      let offer_ip = allocate_next_ip ctx (mac_of req) in
      if offer_ip == 0 then (ctx, none) else (ctx, some (reply ctx.lan req dhcp_offer offer_ip))

  abbrev pub ciaddr_or_allocated : Ctx → Packet → ℕ
  ciaddr_or_allocated ctx req =
      if req.ciaddr == 0 then allocate_next_ip ctx (mac_of req) else req.ciaddr

  -- The address that a REQUEST is given, by its option 50.
  abbrev pub assigned_ip : Ctx → Packet → Option (List ℕ × ℕ) → ℕ
  assigned_ip ctx req none = ciaddr_or_allocated ctx req
  assigned_ip ctx req (some (rest, len)) =
      if len == 4 then read_word rest else ciaddr_or_allocated ctx req

  unfoldable pub on_request : Ctx → Packet → List ℕ → ℕ → Ctx × Option Packet
  on_request ctx req hostname now =
      let ip = assigned_ip ctx req (get_dhcp_option req.options opt_req_ip) in
      (update_lease_record ctx (mac_of req) ip hostname now, some (reply ctx.lan req dhcp_ack ip))

  abbrev pub released : Lease → Lease
  released l = record l { is_active = false }

  unfoldable pub on_release : Ctx → Packet → Ctx × Option Packet
  on_release ctx req =
      (record ctx { leases = modify_lease (has_mac (mac_of req)) released ctx.leases }, none)

  unfoldable pub dispatch : Ctx → Packet → List ℕ → ℕ → ℕ → Ctx × Option Packet
  dispatch ctx req hostname now type =
      if type == dhcp_discover
      then on_discover ctx req
      else (if type == dhcp_request
          then on_request ctx req hostname now
          else (if type == dhcp_release then on_release ctx req else (ctx, none)))

  abbrev pub on_message : Ctx → Packet → ℕ → Option (List ℕ × ℕ) → Ctx × Option Packet
  on_message ctx req now none = (ctx, none)
  on_message ctx req now (some (rest, len)) =
      let hostname = hostname_of (get_dhcp_option req.options opt_hostname) in
      if bytes_eq hostname own_name
      then (ctx, none)
      else dispatch ctx req hostname now (get_or rest 0 beyond)

  -- `n` is the size of the datagram; the header is 240 bytes long.
  unfoldable pub process : Ctx → ℕ → Packet → ℕ → Ctx × Option Packet
  process ctx n req now =
      if ltb n 240 || not (htonl req.magic == dhcp_magic_cookie) || not (req.op == 1)
      then (ctx, none)
      else on_message ctx req now (get_dhcp_option req.options opt_msg_type)
