-- ===== src/Router/Dispatch/Sessions.antt =====
-- The session maps of bpf/xdp_router.bpf.c over all packets. The flags of the packet are a part of
-- the key, and a session is never stored under a key with RST or FIN.
use flux_wan.Base.{
  ℕ, ◌+◌, ◌≡◌, refl, ◌∙◌, sym, inl, inr, Bool, true, false, ◌&&◌, ◌||◌, Option, none, some, ltb,
  Bool-cases, Option-cases, get_elem?, arith,
}
use flux_wan.Router.{FlowKey, Session, max_ebpf_wans, hash_5tuple}
use flux_wan.Router.Dispatch.{
  Maps, SessionMap, same_key, put, erase, is_dns_or_ntp, is_closing, find_session, find_local,
  fill_local, keeps_sessions, evict, on_session, select, check_health, fall_back, first_eligible,
  store, dispatch, dispatch_if, route, is_eligible,
}

abbrev pub is_stored : Option Session → Bool
is_stored none = false
is_stored (some s) = true

-- No session stands under a key with RST or FIN.
abbrev pub NoClosing : SessionMap → Type 0
NoClosing m = (k : FlowKey) → (is_closing k && is_stored (m k)) ≡ false

abbrev pub IsOpen : Maps → Type 0
IsOpen maps = NoClosing maps.local_lru × NoClosing maps.sticky_flow

same_key-closing : (a b : FlowKey) → same_key a b ≡ true → is_closing a ≡ is_closing b
unfolding same_key
same_key-closing a b h = ground arith

put-NoClosing :
    (m : SessionMap) (key : FlowKey) (s : Session)
    → NoClosing m
    → is_closing key ≡ false
    → NoClosing (put m key s)
unfolding put
put-NoClosing m key s h goes k = elim (Bool-cases (same_key key k)) [
  | inl b ↦ rw (b, sym (same_key-closing key k b) ∙ goes) refl
  | inr b ↦ rw b (h k)
]

pub erase-NoClosing : (m : SessionMap) (key : FlowKey) → NoClosing m → NoClosing (erase m key)
unfolding erase
erase-NoClosing m key h k = elim (Bool-cases (same_key key k)) [
  | inl b ↦ rw b (elim (Bool-cases (is_closing k)) [ inl c ↦ rw c refl | inr c ↦ rw c refl ])
  | inr b ↦ rw b (h k)
]

closing-none : (m : SessionMap) (key : FlowKey) → NoClosing m → is_closing key ≡ true → m key ≡ none
closing-none m key h c =
    let gone : is_stored (m key) ≡ false = (let at_key = h key in rw c at at_key) in
    elim (Option-cases (m key)) [
      | inl e ↦ e
      | inr (s, e) ↦ (let bad : true ≡ false = rw e at gone in ground arith)
    ]

fill_local-IsOpen :
    (maps : Maps) (key : FlowKey) (o : Option Session)
    → IsOpen maps
    → (is_closing key && is_stored o) ≡ false
    → IsOpen (fill_local maps key o).0
fill_local-IsOpen maps key none h c = h
fill_local-IsOpen maps key (some s) h c =
    let goes : is_closing key ≡ false = ground arith in
    (put-NoClosing maps.local_lru key s h.0 goes, h.1)

find_local-IsOpen :
    (maps : Maps) (key : FlowKey) (o : Option Session)
    → IsOpen maps
    → IsOpen (find_local maps key o).0
find_local-IsOpen maps key none h = fill_local-IsOpen maps key (maps.sticky_flow key) h (h.1 key)
find_local-IsOpen maps key (some s) h = h

find_session-IsOpen : (maps : Maps) (key : FlowKey) → IsOpen maps → IsOpen (find_session maps key).0
unfolding find_session
find_session-IsOpen maps key h = elim (Bool-cases (is_dns_or_ntp key)) [
  | inl b ↦ rw b h
  | inr b ↦ rw b (find_local-IsOpen maps key (maps.local_lru key) h)
]

on_session-IsOpen :
    (maps : Maps) (key : FlowKey) (o : Option Session)
    → IsOpen maps
    → IsOpen (on_session maps key o).0
unfolding on_session
on_session-IsOpen maps key none h = h
on_session-IsOpen maps key (some s) h =
    let gone : IsOpen (evict maps key) =
      (erase-NoClosing maps.local_lru key h.0, erase-NoClosing maps.sticky_flow key h.1) in
    elim (Bool-cases (ltb s.wan_idx max_ebpf_wans)) [
      | inr a ↦ rw a h
      | inl a ↦ rw a (elim (Bool-cases (keeps_sessions (get_elem? maps.wan_table s.wan_idx))) [
        | inr b ↦ rw b gone
        | inl b ↦ rw b (elim (Bool-cases (is_closing key)) [ inl c ↦ rw c gone | inr c ↦ rw c h ])
      ])
    ]

-- Neither the choice of a target nor the health check touches the session maps.
abbrev SameSessions : Maps → Maps → Type 0
SameSessions a b = (a.local_lru ≡ b.local_lru) × (a.sticky_flow ≡ b.sticky_flow)

select-SameSessions :
    (maps : Maps) (key : FlowKey) (flow_hash : ℕ) (o : Option ℕ)
    → SameSessions (select maps key flow_hash o).0 maps
unfolding select
select-SameSessions maps key flow_hash none = (refl, refl)
select-SameSessions maps key flow_hash (some w) = elim (Bool-cases (ltb w max_ebpf_wans)) [
  | inl b ↦ rw b (refl, refl)
  | inr b ↦ rw b (refl, refl)
]

fall_back-SameSessions :
    (maps : Maps) (target : ℕ) (o : Option ℕ) → SameSessions (fall_back maps target o).0 maps
fall_back-SameSessions maps target none = (refl, refl)
fall_back-SameSessions maps target (some fi) = (refl, refl)

check_health-SameSessions :
    (maps : Maps) (target : ℕ) → SameSessions (check_health (maps, target)).0 maps
unfolding check_health
check_health-SameSessions maps target =
    elim (Bool-cases (is_eligible (get_elem? maps.wan_table target))) [
      | inl b ↦ rw b (refl, refl)
      | inr b ↦ rw b (fall_back-SameSessions maps target (first_eligible maps.wan_table 0))
    ]

abbrev chosen : Maps → FlowKey → Maps × ℕ
chosen maps key = check_health (select maps key (hash_5tuple key) (maps.lpm_subnet key.dst_ip))

chosen-SameSessions : (maps : Maps) (key : FlowKey) → SameSessions (chosen maps key).0 maps
chosen-SameSessions maps key =
    let (picked, target) = select maps key (hash_5tuple key) (maps.lpm_subnet key.dst_ip) in
    let first = select-SameSessions maps key (hash_5tuple key) (maps.lpm_subnet key.dst_ip) in
    let second = check_health-SameSessions picked target in (second.0 ∙ first.0, second.1 ∙ first.1)

dispatch-IsOpen : (maps : Maps) (key : FlowKey) → IsOpen maps → IsOpen (dispatch maps key).0
unfolding dispatch store
dispatch-IsOpen maps key h =
    let same = chosen-SameSessions maps key in
    let s : Session = record {
      wan_idx = (chosen maps key).1;
      wan_id = (chosen maps key).1 + 1;
      orig_src_ip = key.src_ip;
    } in
    let kept : IsOpen (chosen maps key).0 = rw (same.0, same.1) h in
    elim (Bool-cases (is_dns_or_ntp key || is_closing key)) [
      | inl b ↦ rw b kept
      | inr b ↦
          let goes : is_closing key ≡ false = ground arith in
          rw b (
            put-NoClosing (chosen maps key).0.local_lru key s kept.0 goes,
            put-NoClosing (chosen maps key).0.sticky_flow key s kept.1 goes,
          )
    ]

dispatch_if-IsOpen :
    (key : FlowKey) (maps : Maps) (o : Option ℕ)
    → IsOpen maps
    → IsOpen (dispatch_if key (maps, o)).0
dispatch_if-IsOpen key maps none h = dispatch-IsOpen maps key h
dispatch_if-IsOpen key maps (some t) h = h

-- A packet stores no session under a key with RST or FIN.
pub route-IsOpen : (maps : Maps) (key : FlowKey) → IsOpen maps → IsOpen (route maps key).0
unfolding route
route-IsOpen maps key h =
    let (found, sticky) = find_session maps key in
    let (m, o) = on_session found key sticky in
    dispatch_if-IsOpen key m o (on_session-IsOpen found key sticky (find_session-IsOpen maps key h))

closing-missed :
    (maps : Maps) (key : FlowKey)
    → IsOpen maps
    → is_closing key ≡ true
    → find_session maps key ≡ (maps, none)
unfolding find_session
closing-missed maps key h c = elim (Bool-cases (is_dns_or_ntp key)) [
  | inl b ↦ rw b refl
  | inr b ↦
      rw (b, closing-none maps.local_lru key h.0 c, closing-none maps.sticky_flow key h.1 c) refl
]

dispatch_closing :
    (maps : Maps) (key : FlowKey) → is_closing key ≡ true → SameSessions (dispatch maps key).0 maps
unfolding dispatch store
dispatch_closing maps key c =
    let same = chosen-SameSessions maps key in
    let skip : (is_dns_or_ntp key || is_closing key) ≡ true = ground arith in rw skip same

-- A packet with RST or FIN leaves both session maps as they are: it never finds the session of its
-- connection, which stands under the key without these flags, and so never evicts it.
pub route_closing :
    (maps : Maps) (key : FlowKey)
    → IsOpen maps
    → is_closing key ≡ true
    → ((route maps key).0.local_lru ≡ maps.local_lru)
      × ((route maps key).0.sticky_flow ≡ maps.sticky_flow)
unfolding route on_session
route_closing maps key h c = rw (closing-missed maps key h c) (dispatch_closing maps key c)
