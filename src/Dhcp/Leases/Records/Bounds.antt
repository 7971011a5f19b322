-- ===== src/Dhcp/Leases/Records/Bounds.antt =====
-- The lease table of src/dhcp_server.c never outgrows its array.
use flux_wan.Base.{
  ℕ, ◌≤◌, inl, inr, List, [], ◌∷◌, true, not, ◌&&◌, ltb, ◌==◌, if◌then◌else◌, Bool-cases, if_both,
  length, length-append, arith,
}
use flux_wan.Dhcp.Leases.{
  max_dhcp_leases, StaticLease, Lan, Lease, Ctx, blank, has_mac, has_ip, find_lease_by_mac,
  find_lease_by_ip, renewed,
}
use flux_wan.Dhcp.Leases.Records.{
  is_found, update_lease_record, pinned, pin, pin_all, reload_config, counted,
  update_client_traffic, load_static, init, seed_mac, seed_name,
}
use flux_wan.Dhcp.Leases.Records.Update.{length-modify, length-modify_head}

abbrev pub IsBounded : Ctx → Type 0
IsBounded ctx = length ctx.leases ≤ max_dhcp_leases

-- An update of a lease keeps the table within its array.
pub update_lease_record-IsBounded :
    (ctx : Ctx) (mac : List ℕ) (ip : ℕ) (name : List ℕ) (now : ℕ)
    → IsBounded ctx
    → IsBounded (update_lease_record ctx mac ip name now)
unfolding update_lease_record
update_lease_record-IsBounded ctx mac ip name now h =
    let write = renewed ctx.lan mac ip name now in
    elim (Bool-cases (is_found (find_lease_by_mac ctx mac))) [
      | inl b ↦ rw (b, length-modify (has_mac mac) write ctx.leases) h
      | inr b ↦ rw b (elim (Bool-cases (ltb (length ctx.leases) max_dhcp_leases)) [
        | inl c ↦ rw (c, length-append ctx.leases (write blank ∷ [])) (ground arith)
        | inr c ↦ rw (c, length-modify_head write ctx.leases) h
      ])
    ]

pin-IsBounded :
    (ctx : Ctx) (sl : StaticLease) (now : ℕ) → IsBounded ctx → IsBounded (pin ctx sl now)
unfolding pin
pin-IsBounded ctx sl now h = elim (Bool-cases (is_found (find_lease_by_mac ctx sl.mac_addr))) [
  | inl b ↦ rw (b, length-modify (has_mac sl.mac_addr) (pinned sl) ctx.leases) h
  | inr b ↦ rw b (update_lease_record-IsBounded ctx sl.mac_addr sl.ip_addr sl.hostname now h)
]

pin_all-IsBounded :
    (ctx : Ctx) (sls : List StaticLease) (now : ℕ) → IsBounded ctx → IsBounded (pin_all ctx sls now)
unfolding pin_all
pin_all-IsBounded ctx [] now h = h
pin_all-IsBounded ctx (sl ∷ sls) now h =
    pin_all-IsBounded (if sl.enabled then pin ctx sl now else ctx) sls now
      (if_both IsBounded sl.enabled (pin-IsBounded ctx sl now h) h)

load_static-IsBounded :
    (ctx : Ctx) (sls : List StaticLease) (now : ℕ)
    → IsBounded ctx
    → IsBounded (load_static ctx sls now)
unfolding load_static
load_static-IsBounded ctx [] now h = h
load_static-IsBounded ctx (sl ∷ sls) now h =
    let ctx' = update_lease_record ctx sl.mac_addr sl.ip_addr sl.hostname now in
    let h' = update_lease_record-IsBounded ctx sl.mac_addr sl.ip_addr sl.hostname now h in
    let wanted = sl.enabled && not (sl.ip_addr == 0) in
    load_static-IsBounded (if wanted then ctx' else ctx) sls now (if_both IsBounded wanted h' h)

update_client_traffic-IsBounded :
    (ctx : Ctx) (ip : ℕ) (text : List ℕ) (rx tx : ℕ)
    → IsBounded ctx
    → IsBounded (update_client_traffic ctx ip text rx tx).0
unfolding update_client_traffic
update_client_traffic-IsBounded ctx ip text rx tx h =
    let seen : Lease = record blank { ip_addr = ip; is_active = true; hostname = text } in
    elim (Bool-cases (is_found (find_lease_by_ip ctx ip))) [
      | inl b ↦ rw (b, length-modify (has_ip ip) (counted rx tx) ctx.leases) h
      | inr b ↦ rw b (elim (Bool-cases (ltb (length ctx.leases) max_dhcp_leases)) [
        | inl c ↦ rw (c, length-append ctx.leases (counted rx tx seen ∷ [])) (ground arith)
        | inr c ↦ rw c h
      ])
    ]

-- The table is within its array after the initialisation.
pub init-IsBounded : (lan : Lan) (now : ℕ) → IsBounded (init lan now)
unfolding init
init-IsBounded lan now =
    let empty : Ctx = record { lan = lan; leases = [] } in
    let loaded = load_static empty lan.static_leases now in
    let h = load_static-IsBounded empty lan.static_leases now (omega arith) in
    let ip = if loaded.lan.dhcp_start == 0 then 0x695aa8c0 else loaded.lan.dhcp_start in
    elim (Bool-cases (length loaded.leases == 0)) [
      | inl b ↦ rw b (update_lease_record-IsBounded loaded seed_mac ip seed_name now h)
      | inr b ↦ rw b h
    ]

-- A reload of the configuration and a report of traffic keep a table of at most 254 leases within
-- 254 leases.
pub operations-IsBounded :
    (ctx : Ctx) (lan : Lan) (now ip : ℕ) (text : List ℕ) (rx tx : ℕ)
    → IsBounded ctx
    → IsBounded (reload_config ctx lan now) × IsBounded (update_client_traffic ctx ip text rx tx).0
unfolding reload_config
operations-IsBounded ctx lan now ip text rx tx h = (
  pin_all-IsBounded (record ctx { lan = lan }) lan.static_leases now h,
  update_client_traffic-IsBounded ctx ip text rx tx h,
)
