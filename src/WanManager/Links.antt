-- ===== src/WanManager/Links.antt =====
-- The PPPoE callbacks of src/wan_manager.c, and `str_to_ip` of include/fluxwan.h that they use. What
-- the system answers is an input. The settings of a WAN that only PPPoE uses stand beside it.
use flux_wan.Base.{
  ℕ, ◌+◌, ◌-◌, ◌*◌, ◌/◌, ◌%◌, List, [], ◌∷◌, ◌++◌, map, Bool, true, false, not, ◌&&◌, ◌||◌, Option,
  none, some, ltb, leb, ◌==◌, if◌then◌else◌, length, get_or, get_elem?,
}
use flux_wan.Config.{down, healthy, Wan}
use flux_wan.Maglev.{Member}
use flux_wan.Dhcp.Leases.{htonl}
use flux_wan.Pppoe.{Line}
use flux_wan.Pppoe.Tick.{is_empty}
use flux_wan.WanManager.{Ctx, Effect, Code, rebalance}
use flux_wan.WanManager.Health.{put_wan}

-- What `inet_pton` has read of an IPv4 address: whether the last octet has a digit, its value and
-- the octets before it.
pub record Octets : Type 0 where
  pub saw_digit : Bool
  pub value : ℕ
  pub before : List ℕ

abbrev pub take_digit : Octets → ℕ → Option Octets
take_digit o d =
    let value = o.value * 10 + d in
    if (o.saw_digit && o.value == 0) || ltb 255 value
    then none
    else some (record o { saw_digit = true; value = value })

abbrev pub take_char : Octets → ℕ → Option Octets
take_char o c =
    if leb b'0' c && leb c b'9'
    then take_digit o (c - b'0')
    else (if c == b'.' && (o.saw_digit && not (length o.before == 3))
        then some (record { saw_digit = false; value = 0; before = o.before ++ (o.value ∷ []) })
        else none)

unfoldable pub take_text : Option Octets → List ℕ → Option Octets
take_text none text = none
take_text (some o) [] = some o
take_text (some o) (c ∷ text) = take_text (take_char o c) text

abbrev pub address_of : Option Octets → ℕ
address_of none = 0
address_of (some o) =
    let b = o.before in
    if o.saw_digit && length b == 3
    then get_or b 0 0 + get_or b 1 0 * 0x100 + get_or b 2 0 * 0x10000 + o.value * 0x1000000
    else 0

-- The address in network order as a little-endian machine loads it, 0 for any other text.
unfoldable pub str_to_ip : List ℕ → ℕ
unfolding take_text get_or
str_to_ip text =
    address_of (take_text (some (record { saw_digit = false; value = 0; before = [] })) text)

-- An octet as `inet_ntop` prints it, and the four of an address.
unfoldable pub octet : ℕ → List ℕ
octet b =
    if ltb b 10
    then (48 + b) ∷ []
    else (if ltb b 100
        then (48 + b / 10) ∷ (48 + b % 10) ∷ []
        else (48 + b / 100) ∷ (48 + b / 10 % 10) ∷ (48 + b % 10) ∷ [])

unfoldable pub ip_to_str : ℕ → List ℕ
unfolding octet
ip_to_str ip =
    octet (ip % 0x100)
    ++ (b'.' ∷ octet (ip / 0x100 % 0x100)
        ++ (b'.' ∷ octet (ip / 0x10000 % 0x100) ++ (b'.' ∷ octet (ip / 0x1000000))))

pub data LinkEffect : Type 0 where
  log_established : ℕ → List ℕ → LinkEffect
  log_dropped : ℕ → List ℕ → ℕ → LinkEffect
  replace_default : List ℕ → ℕ → LinkEffect
  add_default_route : ℕ → ℕ → ℕ → LinkEffect
  apply_wan_nat : List ℕ → LinkEffect
  shield : List ℕ → LinkEffect
  set_ttl : List ℕ → ℕ → LinkEffect
  manager : Effect → LinkEffect

-- `if_nametoindex` (0 if it fails), whether there is a netlink socket, and the TTL setting.
pub record Outside : Type 0 where
  pub ifindex : ℕ
  pub has_nl : Bool
  pub ttl_value : ℕ

-- "8.8.8.8"
abbrev pub default_target : List ℕ
default_target = b'8' ∷ b'.' ∷ b'8' ∷ b'.' ∷ b'8' ∷ b'.' ∷ b'8' ∷ []

-- The text that is probed.
abbrev pub target_of : Line → List ℕ
target_of line = if is_empty line.probe_target then default_target else line.probe_target

abbrev pub with_probe : Line → Line
with_probe line =
    if line.wan.probe_target_ip == 0
    then record line {
      wan = record line.wan { probe_target_ip = str_to_ip (target_of line) };
      probe_target = target_of line;
    }
    else line

-- The WAN with its session.
unfoldable pub connected_line : ℕ → ℕ → Line → Line
unfolding str_to_ip
connected_line ip gw line = with_probe (record line {
  wan = record line.wan { state = healthy; ip_addr = htonl ip; gateway = htonl gw };
  netmask = 0xFFFFFFFF;
})

unfoldable pub link_effects : Outside → List ℕ → ℕ → Wan → List LinkEffect
link_effects out ppp_ifname gw w =
    log_established w.id ppp_ifname
      ∷ replace_default ppp_ifname w.table_id
      ∷ (if out.has_nl then add_default_route w.table_id (htonl gw) out.ifindex ∷ [] else [])
    ++ (apply_wan_nat ppp_ifname
        ∷ shield ppp_ifname
        ∷ set_ttl ppp_ifname (if ltb 0 out.ttl_value then out.ttl_value else 65)
        ∷ [])

abbrev pub followed_by :
    List LinkEffect → Option (Ctx × List Effect × Code) → Option (Ctx × List LinkEffect)
followed_by es none = none
followed_by es (some (ctx, fs, code)) = some (ctx, es ++ map manager fs)

-- `on_pppoe_connected_cb`, for the WAN at an index with its settings; they are given back. The
-- weight that the rebalancing gives stands in the configuration.
unfoldable pub on_pppoe_connected :
    ℕ
    → (ℕ → Member)
    → Bool
    → Outside
    → Ctx
    → ℕ
    → Line
    → List ℕ
    → ℕ
    → ℕ
    → Option (Ctx × List LinkEffect) × Line
unfolding connected_line link_effects
on_pppoe_connected size stale authorized out ctx i line ppp_ifname ip gw =
    let line' = connected_line ip gw line in
    let sent =
      followed_by (link_effects out ppp_ifname gw line'.wan)
        (rebalance size stale authorized (put_wan ctx i line'.wan)) in
    if ltb i (length ctx.config.wans) then (sent, line') else (some (ctx, []), line)

abbrev pub drop_wan :
    ℕ → (ℕ → Member) → Bool → Ctx → ℕ → List ℕ → ℕ → Option Wan → Option (Ctx × List LinkEffect)
drop_wan size stale authorized ctx i ppp_ifname attempt none = some (ctx, [])
drop_wan size stale authorized ctx i ppp_ifname attempt (some w) =
    followed_by (log_dropped w.id ppp_ifname attempt ∷ [])
      (rebalance size stale authorized (put_wan ctx i (record w { state = down })))

-- `on_pppoe_disconnected_cb`.
unfoldable pub on_pppoe_disconnected :
    ℕ → (ℕ → Member) → Bool → Ctx → ℕ → List ℕ → ℕ → Option (Ctx × List LinkEffect)
on_pppoe_disconnected size stale authorized ctx i ppp_ifname attempt =
    drop_wan size stale authorized ctx i ppp_ifname attempt (get_elem? ctx.config.wans i)
