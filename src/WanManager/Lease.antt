-- ===== src/WanManager/Lease.antt =====
-- The DHCP client of `wan_manager_periodic_tick` (src/wan_manager.c): the watchdog, and every two
-- seconds the check of the client process and of its lease file. What the system answers is an
-- input; a lease file is the list of its lines as `fgets` gives them.
use flux_wan.Base.{
  ℕ, zero, suc, ◌+◌, List, [], ◌∷◌, ◌++◌, Bool, false, not, ◌&&◌, ◌||◌, Option, none, some, sub64,
  leb, ◌==◌, if◌then◌else◌, get_elem?,
}
use flux_wan.Config.{WanType, healthy, Wan}
use flux_wan.Maglev.{Member}
use flux_wan.Pppoe.{Line}
use flux_wan.WanManager.{Ctx, Effect, Code, rebalance}
use flux_wan.WanManager.Health.{put_wan}
use flux_wan.WanManager.Watchdog.{Watch, is_dead, watchdog_tick}
use flux_wan.WanManager.Links.{str_to_ip, with_probe}

pub record Lease : Type 0 where
  pub ip_str : List ℕ
  pub gw_str : List ℕ
  pub mask_str : List ℕ

abbrev pub is_space : ℕ → Bool
is_space c = c == b' ' || (leb 9 c && leb c 13)

abbrev pub skip_spaces : List ℕ → List ℕ
skip_spaces [] = []
skip_spaces (c ∷ text) = if is_space c then skip_spaces text else c ∷ text

abbrev pub word : ℕ → List ℕ → List ℕ
word zero text = []
word (suc n) [] = []
word (suc n) (c ∷ text) = if is_space c then [] else c ∷ word n text

abbrev pub or_old : List ℕ → List ℕ → List ℕ
or_old [] old = old
or_old (c ∷ text) old = c ∷ text

-- `sscanf(text, "%31s", old)`
unfoldable pub scan_word : List ℕ → List ℕ → List ℕ
scan_word text old = or_old (word 31 (skip_spaces text)) old

-- What stands behind a prefix.
abbrev pub behind : List ℕ → List ℕ → Option (List ℕ)
behind [] line = some line
behind (p ∷ prefix) [] = none
behind (p ∷ prefix) (c ∷ line) = let rest = behind prefix line in if p == c then rest else none

abbrev pub gateway_key : List ℕ
gateway_key = b'G' ∷ b'A' ∷ b'T' ∷ b'E' ∷ b'W' ∷ b'A' ∷ b'Y' ∷ b'=' ∷ []

abbrev pub netmask_key : List ℕ
netmask_key = b'N' ∷ b'E' ∷ b'T' ∷ b'M' ∷ b'A' ∷ b'S' ∷ b'K' ∷ b'=' ∷ []

abbrev pub read_mask : Lease → Option (List ℕ) → Lease
read_mask l none = l
read_mask l (some text) = record l { mask_str = scan_word text l.mask_str }

abbrev pub read_gateway : Lease → List ℕ → Option (List ℕ) → Lease
read_gateway l line none = read_mask l (behind netmask_key line)
read_gateway l line (some text) = record l { gw_str = scan_word text l.gw_str }

abbrev pub read_ip : Lease → List ℕ → Option (List ℕ) → Lease
read_ip l line none = read_gateway l line (behind gateway_key line)
read_ip l line (some text) = record l { ip_str = scan_word text l.ip_str }

unfoldable pub read_lines : Lease → List (List ℕ) → Lease
unfolding scan_word
read_lines l [] = l
read_lines l (line ∷ lines) =
    read_lines (read_ip l line (behind (b'I' ∷ b'P' ∷ b'=' ∷ []) line)) lines

abbrev pub no_lease : Lease
no_lease = record { ip_str = []; gw_str = []; mask_str = [] }

unfoldable pub read_lease : List (List ℕ) → Lease
unfolding read_lines
read_lease lines = read_lines no_lease lines

-- The routes are those of `table`, which is 1000 more for a WAN behind a proxy.
pub data DhcpEffect : Type 0 where
  renew : List ℕ → DhcpEffect
  write_table : List ℕ → ℕ → DhcpEffect
  link_up : List ℕ → DhcpEffect
  start_udhcpc : List ℕ → ℕ → DhcpEffect
  log_bound : ℕ → Lease → DhcpEffect
  install_routes : Bool → List ℕ → Lease → ℕ → DhcpEffect
  apply_wan_nat : List ℕ → DhcpEffect
  manager : List Effect → DhcpEffect

-- Whether `udhcpc` runs, the lease file, and the address that `SIOCGIFADDR` gives.
pub record Check : Type 0 where
  pub running : Bool
  pub lease : Option (List (List ℕ))
  pub live_ip : Option ℕ

-- "255.255.255.0" without a mask.
abbrev pub mask_of : Lease → ℕ
mask_of l = let mask = str_to_ip l.mask_str in if mask == 0 then 0x00FFFFFF else mask

abbrev pub is_new : Lease → Wan → Bool
is_new l w =
    let ip = str_to_ip l.ip_str in
    not (ip == 0) && (not (ip == w.ip_addr) || not (str_to_ip l.gw_str == w.gateway))

-- The WAN with its lease.
unfoldable pub bound : Lease → Line → Line
bound l line = with_probe (record line {
  wan = record line.wan {
    ip_addr = str_to_ip l.ip_str;
    gateway = str_to_ip l.gw_str;
    state = healthy;
  };
  netmask = mask_of l;
})

unfoldable pub bound_effects : Lease → Wan → List DhcpEffect
bound_effects l w =
    let table = if w.proxy_enabled then 1000 + w.table_id else w.table_id in
    log_bound w.id l
      ∷ (if str_to_ip l.gw_str == 0 then [] else install_routes w.proxy_enabled w.name l table ∷ [])
    ++ (apply_wan_nat w.name ∷ [])

abbrev pub behind_effects :
    List DhcpEffect → Option (Ctx × List Effect × Code) → Option (Ctx × List DhcpEffect)
behind_effects es none = none
behind_effects es (some (ctx, fs, code)) = some (ctx, es ++ (manager fs ∷ []))

-- The lease changes the WAN only if it names another address or gateway.
unfoldable pub use_lease :
    ℕ → (ℕ → Member) → Bool → Ctx → ℕ → Line → Lease → Option (Ctx × List DhcpEffect) × Line
unfolding bound bound_effects
use_lease size stale authorized ctx i line l =
    let line' = bound l line in
    let sent =
      behind_effects (bound_effects l line'.wan)
        (rebalance size stale authorized (put_wan ctx i line'.wan)) in
    if is_new l line.wan then (sent, line') else (some (ctx, []), line)

-- 127.0.0.1 as a little-endian machine loads it.
abbrev pub loopback : ℕ
loopback = 0x0100007F

-- Without a lease file, the address that the interface already has.
unfoldable pub use_live :
    ℕ → (ℕ → Member) → Bool → Ctx → ℕ → Line → Option ℕ → Option (Ctx × List DhcpEffect) × Line
use_live size stale authorized ctx i line none = (some (ctx, []), line)
use_live size stale authorized ctx i line (some ip) =
    let w = record line.wan { ip_addr = ip; state = healthy } in
    let sent = behind_effects [] (rebalance size stale authorized (put_wan ctx i w)) in
    if line.wan.ip_addr == 0 && not (ip == 0 || ip == loopback)
    then (sent, record line { wan = w })
    else (some (ctx, []), line)

abbrev pub use_found :
    ℕ
    → (ℕ → Member)
    → Bool
    → Ctx
    → ℕ
    → Line
    → Check
    → Option (List (List ℕ))
    → Option (Ctx × List DhcpEffect) × Line
use_found size stale authorized ctx i line check none =
    use_live size stale authorized ctx i line check.live_ip
use_found size stale authorized ctx i line check (some lines) =
    use_lease size stale authorized ctx i line (read_lease lines)

abbrev pub process_effects : Check → Wan → List DhcpEffect
process_effects check w =
    write_table w.name w.table_id
    ∷ link_up w.name
    ∷ (if check.running then [] else start_udhcpc w.name w.table_id ∷ [])

abbrev pub prefixed :
    List DhcpEffect → Option (Ctx × List DhcpEffect) → Option (Ctx × List DhcpEffect)
prefixed es none = none
prefixed es (some (ctx, fs)) = some (ctx, es ++ fs)

abbrev pub is_client : Wan → Bool
is_client w = elim w.type [ WanType.dhcp ↦ w.enabled | WanType.wifi ↦ w.enabled | _ ↦ false ]

-- The part of the tick for one enabled DHCP or WiFi WAN.
unfoldable pub dhcp_engine :
    ℕ
    → (ℕ → Member)
    → Bool
    → ℕ
    → Check
    → Ctx
    → ℕ
    → Line
    → Watch
    → Option (Ctx × List DhcpEffect) × Line × Watch
unfolding use_lease use_live read_lease watchdog_tick is_dead
dhcp_engine size stale authorized now check ctx i line watch =
    let (watch', rebinds) = watchdog_tick watch now (is_dead line.wan) in
    let first = if rebinds then renew line.wan.name ∷ [] else [] in
    let (r, line') = use_found size stale authorized ctx i line check check.lease in
    if leb 2000 (sub64 now watch'.last_renew_ms)
    then (
      prefixed (first ++ process_effects check line.wan) r,
      line',
      record watch' { last_renew_ms = now },
    )
    else (some (ctx, first), line, watch')

abbrev pub dhcp_wan :
    ℕ
    → (ℕ → Member)
    → Bool
    → ℕ
    → Check
    → Ctx
    → ℕ
    → Line
    → Watch
    → Option Wan
    → Option (Ctx × List DhcpEffect) × Line × Watch
dhcp_wan size stale authorized now check ctx i line watch none = (some (ctx, []), line, watch)
dhcp_wan size stale authorized now check ctx i line watch (some w) =
    if is_client w
    then dhcp_engine size stale authorized now check ctx i (record line { wan = w }) watch
    else (some (ctx, []), line, watch)

-- The loop over the WANs; the settings of each stand beside it, and its counters.
unfoldable pub dhcp_from :
    ℕ
    → (ℕ → Member)
    → Bool
    → ℕ
    → (ℕ → Check)
    → Ctx
    → ℕ
    → List (Line × Watch)
    → Option (Ctx × List DhcpEffect) × List (Line × Watch)
unfolding dhcp_engine
dhcp_from size stale authorized now checks ctx i [] = (some (ctx, []), [])
dhcp_from size stale authorized now checks ctx i ((line, watch) ∷ rest) =
    let (r, line', watch') =
      dhcp_wan size stale authorized now (checks i) ctx i line watch
        (get_elem? ctx.config.wans i) in
    elim r [
      | none ↦ (none, (line', watch') ∷ rest)
      | some (ctx', es) ↦
          (let (r', rest') = dhcp_from size stale authorized now checks ctx' (i + 1) rest in
            (prefixed es r', (line', watch') ∷ rest'))
    ]
