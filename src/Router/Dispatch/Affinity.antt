-- ===== src/Router/Dispatch/Affinity.antt =====
-- Session persistence in bpf/xdp_router.bpf.c.
use flux_wan.Base.{
  ℕ, ◌+◌, ◌≡◌, refl, ◌∙◌, ap, inl, inr, List, Bool, true, false, Option, none, some, ltb,
  Bool-cases, get_elem?, arith,
}
use flux_wan.Router.{FlowKey, WanEntry, Session, max_ebpf_wans, hash_5tuple}
use flux_wan.Router.Dispatch.{
  Maps, SessionMap, same_key, put, is_dns_or_ntp, is_closing, find_session, find_local, fill_local,
  keeps_sessions, evict, on_session, select, check_health, store, dispatch, dispatch_if, route,
  same_bit,
}

abbrev pub target_of : Option Session → Option ℕ
target_of none = none
target_of (some s) = some s.wan_idx

same_bit_refl : (b : Bool) → same_bit b b ≡ true
same_bit_refl true = refl
same_bit_refl false = refl

same_key_refl : (k : FlowKey) → same_key k k ≡ true
unfolding same_key
same_key_refl k =
    let f = k.pkt_flags in
    rw
      (
        same_bit_refl f.rst,
        same_bit_refl f.fin,
        same_bit_refl f.syn,
        same_bit_refl f.icmp,
        same_bit_refl f.quic,
        same_bit_refl f.pmtu,
      )
      (ground arith)

put_same : (m : SessionMap) (key : FlowKey) (s : Session) → put m key s key ≡ some s
unfolding put
put_same m key s = rw (same_key_refl key) refl

fill_local-found :
    (maps : Maps) (key : FlowKey) (o : Option Session)
    → maps.local_lru key ≡ none
    → (fill_local maps key o).0.local_lru key ≡ (fill_local maps key o).1
fill_local-found maps key none h = h
fill_local-found maps key (some s) h = put_same maps.local_lru key s

find_local-found :
    (maps : Maps) (key : FlowKey) (o : Option Session)
    → maps.local_lru key ≡ o
    → (find_local maps key o).0.local_lru key ≡ (find_local maps key o).1
find_local-found maps key none h = fill_local-found maps key (maps.sticky_flow key) h
find_local-found maps key (some s) h = h

-- A session that is found stands in the local map afterwards.
find_session-found :
    (maps : Maps) (key : FlowKey)
    → is_dns_or_ntp key ≡ false
    → (find_session maps key).0.local_lru key ≡ (find_session maps key).1
unfolding find_session
find_session-found maps key b = rw b (find_local-found maps key (maps.local_lru key) refl)

dispatch-recorded :
    (maps : Maps) (key : FlowKey)
    → is_dns_or_ntp key ≡ false
    → is_closing key ≡ false
    → target_of ((dispatch maps key).0.local_lru key) ≡ some (dispatch maps key).1
unfolding dispatch store
dispatch-recorded maps key d c =
    let (chosen, target) =
      check_health (select maps key (hash_5tuple key) (maps.lpm_subnet key.dst_ip)) in
    let s : Session = record { wan_idx = target; wan_id = target + 1; orig_src_ip = key.src_ip } in
    rw (d, c) (ap target_of (put_same chosen.local_lru key s))

dispatch_if-recorded :
    (maps : Maps) (key : FlowKey) (o : Option Session)
    → is_dns_or_ntp key ≡ false
    → is_closing key ≡ false
    → maps.local_lru key ≡ o
    → target_of ((dispatch_if key (on_session maps key o)).0.local_lru key)
      ≡ some (dispatch_if key (on_session maps key o)).1
unfolding on_session
dispatch_if-recorded maps key none d c h = dispatch-recorded maps key d c
dispatch_if-recorded maps key (some s) d c h = elim (Bool-cases (ltb s.wan_idx max_ebpf_wans)) [
  | inr a ↦ rw a (dispatch-recorded maps key d c)
  | inl a ↦ rw a (elim (Bool-cases (keeps_sessions (get_elem? maps.wan_table s.wan_idx))) [
    | inr b ↦ rw b (dispatch-recorded (evict maps key) key d c)
    | inl b ↦ rw (b, c) (ap target_of h)
  ])
]

-- After a packet the local map names the WAN that it was given.
pub route-recorded :
    (maps : Maps) (key : FlowKey)
    → is_dns_or_ntp key ≡ false
    → is_closing key ≡ false
    → target_of ((route maps key).0.local_lru key) ≡ some (route maps key).1
unfolding route
route-recorded maps key d c =
    let (found, sticky) = find_session maps key in
    dispatch_if-recorded found key sticky d c (find_session-found maps key d)

hit-target :
    (maps : Maps) (key : FlowKey) (t : ℕ) (o : Option Session)
    → is_closing key ≡ false
    → target_of o ≡ some t
    → ltb t max_ebpf_wans ≡ true
    → keeps_sessions (get_elem? maps.wan_table t) ≡ true
    → (dispatch_if key (on_session maps key o)).1 ≡ t
unfolding on_session
hit-target maps key t none c h small up = ground arith
hit-target maps key t (some s) c h small up =
    let same : s.wan_idx ≡ t = ground arith in
    let low : ltb s.wan_idx max_ebpf_wans ≡ true = rw same small in
    let live : keeps_sessions (get_elem? maps.wan_table s.wan_idx) ≡ true = rw same up in
    rw (low, live, c) same

local_hit :
    (maps : Maps) (key : FlowKey) (t : ℕ) (o : Option Session)
    → target_of o ≡ some t
    → find_local maps key o ≡ (maps, o)
local_hit maps key t none h = ground arith
local_hit maps key t (some s) h = refl

find_session-hit :
    (maps : Maps) (key : FlowKey) (t : ℕ)
    → is_dns_or_ntp key ≡ false
    → target_of (maps.local_lru key) ≡ some t
    → find_session maps key ≡ (maps, maps.local_lru key)
unfolding find_session
find_session-hit maps key t d h = rw d (local_hit maps key t (maps.local_lru key) h)

route-hit :
    (maps : Maps) (key : FlowKey) (t : ℕ)
    → is_dns_or_ntp key ≡ false
    → is_closing key ≡ false
    → target_of (maps.local_lru key) ≡ some t
    → ltb t max_ebpf_wans ≡ true
    → keeps_sessions (get_elem? maps.wan_table t) ≡ true
    → (route maps key).1 ≡ t
unfolding route
route-hit maps key t d c h small up =
    ap (λ r. (dispatch_if key (on_session r.0 key r.1)).1) (find_session-hit maps key t d h)
    ∙ hit-target maps key t (maps.local_lru key) c h small up

-- A flow stays on its WAN: if a packet is given a WAN, the next packet of the same key is given the
-- same one as long as the table, whatever else changed in it, has that WAN active and with a weight
-- or draining. The flow is neither closing nor one that bypasses the session maps.
pub route-sticky :
    (maps : Maps) (key : FlowKey) (table : List WanEntry)
    → is_dns_or_ntp key ≡ false
    → is_closing key ≡ false
    → ltb (route maps key).1 max_ebpf_wans ≡ true
    → keeps_sessions (get_elem? table (route maps key).1) ≡ true
    → (route (record (route maps key).0 { wan_table = table }) key).1 ≡ (route maps key).1
route-sticky maps key table d c small up =
    route-hit (record (route maps key).0 { wan_table = table }) key (route maps key).1 d c
      (route-recorded maps key d c) small up
