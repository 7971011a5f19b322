-- ===== src/Router/Dispatch/Eligible.antt =====
-- Which WAN bpf/xdp_router.bpf.c gives a packet.
use flux_wan.Base.{
  ℕ, zero, suc, ◌+◌, ◌≡◌, refl, ◌∙◌, ap, inl, inr, List, [], ◌∷◌, true, ◌||◌, Option, none, some,
  ltb, Bool-cases, Option-cases, get_elem?, arith,
}
use flux_wan.Router.{FlowKey, WanEntry, Session, max_ebpf_wans, hash_5tuple}
use flux_wan.Router.Dispatch.{
  Maps, is_dns_or_ntp, is_closing, find_session, keeps_sessions, evict, on_session, select,
  check_health, first_eligible, store, dispatch, dispatch_if, route, is_eligible,
}

-- The first eligible entry of the rest of a table is found.
first_eligible_found :
    (ws : List WanEntry) (i base : ℕ)
    → is_eligible (get_elem? ws i) ≡ true
    → (j : ℕ) × (first_eligible ws base ≡ some (base + j)) × (is_eligible (get_elem? ws j) ≡ true)
unfolding first_eligible
first_eligible_found [] i base h = ground arith
first_eligible_found (w ∷ ws) zero base h = (0, rw h (ap some (omega arith)), h)
first_eligible_found (w ∷ ws) (suc i) base h = elim (Bool-cases (is_eligible (some w))) [
  | inl b ↦ (0, rw b (ap some (omega arith)), b)
  | inr b ↦
      let (j, at, good) = first_eligible_found ws i (suc base) h in
      (suc j, rw b (at ∙ ap some (omega arith)), good)
]

select-table :
    (maps : Maps) (key : FlowKey) (flow_hash : ℕ) (o : Option ℕ)
    → (select maps key flow_hash o).0.wan_table ≡ maps.wan_table
unfolding select
select-table maps key flow_hash none = refl
select-table maps key flow_hash (some w) = elim (Bool-cases (ltb w max_ebpf_wans)) [
  | inl b ↦ rw b refl
  | inr b ↦ rw b refl
]

check_health-eligible :
    (maps : Maps) (target i : ℕ)
    → is_eligible (get_elem? maps.wan_table i) ≡ true
    → is_eligible (get_elem? maps.wan_table (check_health (maps, target)).1) ≡ true
unfolding check_health
check_health-eligible maps target i h =
    elim (Bool-cases (is_eligible (get_elem? maps.wan_table target))) [
      | inl b ↦ rw b b
      | inr b ↦ rw b (
          let (j, at, good) = first_eligible_found maps.wan_table i 0 h in
          let here : 0 + j ≡ j = omega arith in rw (at, here) good)
    ]

chosen-table :
    (maps : Maps) (target : ℕ) → (check_health (maps, target)).0.wan_table ≡ maps.wan_table
unfolding check_health
chosen-table maps target = elim (Bool-cases (is_eligible (get_elem? maps.wan_table target))) [
  | inl b ↦ rw b refl
  | inr b ↦ rw b (elim (Option-cases (first_eligible maps.wan_table 0)) [
    | inl e ↦ rw e refl
    | inr (fi, e) ↦ rw e refl
  ])
]

store-target : (key : FlowKey) (r : Maps × ℕ) → (store key r).1 ≡ r.1
unfolding store
store-target key (maps, target) = elim (Bool-cases (is_dns_or_ntp key || is_closing key)) [
  | inl b ↦ rw b refl
  | inr b ↦ rw b refl
]

-- A flow that is dispatched goes to a WAN that is active, has a weight and is not draining, if the
-- table has such a WAN.
pub dispatch-eligible :
    (maps : Maps) (key : FlowKey) (i : ℕ)
    → is_eligible (get_elem? maps.wan_table i) ≡ true
    → is_eligible (get_elem? maps.wan_table (dispatch maps key).1) ≡ true
unfolding dispatch
dispatch-eligible maps key i h =
    let (picked, target) = select maps key (hash_5tuple key) (maps.lpm_subnet key.dst_ip) in
    let table = select-table maps key (hash_5tuple key) (maps.lpm_subnet key.dst_ip) in
    let there : is_eligible (get_elem? picked.wan_table i) ≡ true = rw table h in
    let good = check_health-eligible picked target i there in
    rw (store-target key (check_health (picked, target))) (rw table at good)

eligible-keeps : (o : Option WanEntry) → is_eligible o ≡ true → keeps_sessions o ≡ true
eligible-keeps none h = ground arith
eligible-keeps (some we) h = ground arith

find_session-table :
    (maps : Maps) (key : FlowKey) → (find_session maps key).0.wan_table ≡ maps.wan_table
unfolding find_session
find_session-table maps key = elim (Bool-cases (is_dns_or_ntp key)) [
  | inl b ↦ rw b refl
  | inr b ↦ rw b (elim (Option-cases (maps.local_lru key)) [
    | inr (s, e) ↦ rw e refl
    | inl e ↦
        rw e (elim (Option-cases (maps.sticky_flow key)) [
          | inl f ↦ rw f refl
          | inr (s, f) ↦ rw f refl
        ])
  ])
]

dispatch-keeps :
    (maps : Maps) (key : FlowKey) (i : ℕ)
    → is_eligible (get_elem? maps.wan_table i) ≡ true
    → keeps_sessions (get_elem? maps.wan_table (dispatch maps key).1) ≡ true
dispatch-keeps maps key i h =
    eligible-keeps (get_elem? maps.wan_table (dispatch maps key).1) (dispatch-eligible maps key i h)

dispatch_if-alive :
    (maps : Maps) (key : FlowKey) (i : ℕ) (o : Option Session)
    → is_eligible (get_elem? maps.wan_table i) ≡ true
    → keeps_sessions (get_elem? maps.wan_table (dispatch_if key (on_session maps key o)).1) ≡ true
unfolding on_session
dispatch_if-alive maps key i none h = dispatch-keeps maps key i h
dispatch_if-alive maps key i (some s) h = elim (Bool-cases (ltb s.wan_idx max_ebpf_wans)) [
  | inr a ↦ rw a (dispatch-keeps maps key i h)
  | inl a ↦ rw a (elim (Bool-cases (keeps_sessions (get_elem? maps.wan_table s.wan_idx))) [
    | inr b ↦ rw b (dispatch-keeps (evict maps key) key i h)
    | inl b ↦ rw b (elim (Bool-cases (is_closing key)) [
      | inl c ↦ rw c (dispatch-keeps (evict maps key) key i h)
      | inr c ↦ rw c b
    ])
  ])
]

-- Every packet goes to a WAN that is active and has a weight or is draining, if the table has a WAN
-- that new flows may go to: no session keeps a packet on a WAN that is down.
pub route-alive :
    (maps : Maps) (key : FlowKey) (i : ℕ)
    → is_eligible (get_elem? maps.wan_table i) ≡ true
    → keeps_sessions (get_elem? maps.wan_table (route maps key).1) ≡ true
unfolding route
route-alive maps key i h =
    let (found, sticky) = find_session maps key in
    let table = find_session-table maps key in
    rw table at (dispatch_if-alive found key i sticky (rw table h))
