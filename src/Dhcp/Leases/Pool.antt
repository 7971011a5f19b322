-- ===== src/Dhcp/Leases/Pool.antt =====
-- `allocate_next_ip` of src/dhcp_server.c: which address a client is given.
use flux_wan.Base.{
  ℕ, zero, suc, ◌+◌, ◌^◌, ◌≤◌, ◌<◌, ◌≡◌, refl, ◌∙◌, ap, inl, inr, List, true, Option, none, some,
  ltb, ◌==◌, Bool-cases, length, arith,
}
use flux_wan.Dhcp.Leases.{
  max_dhcp_leases, StaticLease, Ctx, htonl, find_lease_by_mac, find_static_lease_by_mac,
  is_available, search_pool, allocate_existing, allocate_static, allocate_next_ip, renewed,
}
use flux_wan.Dhcp.Leases.Records.{is_found, update_lease_record}
use flux_wan.Dhcp.Leases.Records.Update.{find-update}

pub htonl-htonl : (n : ℕ) → n < 2 ^ 32 → htonl (htonl n) ≡ n
htonl-htonl n h = omega arith

-- The address that a reservation gives, 0 if it gives none.
abbrev pub reserved_ip : Option StaticLease → ℕ
reserved_ip none = 0
reserved_ip (some sl) = sl.ip_addr

module _ (ctx : Ctx) (mac : List ℕ) where
  -- If some address of a range is available, the search gives the lowest that is.
  pub search_pool_found :
      (n start_h j : ℕ)
      → start_h ≤ j
      → j < start_h + n
      → start_h + n ≤ 2 ^ 32
      → is_available ctx mac (htonl j) ≡ true
      → let r = search_pool ctx mac n start_h in
        (is_available ctx mac r ≡ true) × (start_h ≤ htonl r) × (htonl r ≤ j)
  unfolding search_pool
  search_pool_found zero start_h j lo hi top h = absurd (omega arith)
  search_pool_found (suc n) start_h j lo hi top h =
      let back = htonl-htonl start_h (omega arith) in
      elim (Bool-cases (is_available ctx mac (htonl start_h))) [
        | inl b ↦ rw b (b, rw back (omega arith), rw back lo)
        | inr b ↦
            let next : start_h < j = elim (Bool-cases (start_h == j)) [
              | inl e ↦
                  (let same : start_h ≡ j = ground arith in
                    let free : is_available ctx mac (htonl start_h) ≡ true = rw same h in
                    ground arith)
              | inr e ↦ ground arith
            ] in
            let (free, low, high) =
              search_pool_found n (suc start_h) j next (omega arith) (omega arith) h in
            rw b (free, omega arith, high)
      ]

update-lan :
    (ctx : Ctx) (mac : List ℕ) (ip : ℕ) (name : List ℕ) (now : ℕ)
    → (update_lease_record ctx mac ip name now).lan ≡ ctx.lan
unfolding update_lease_record
update-lan ctx mac ip name now = elim (Bool-cases (is_found (find_lease_by_mac ctx mac))) [
  | inl b ↦ rw b refl
  | inr b ↦ rw b (elim (Bool-cases (ltb (length ctx.leases) max_dhcp_leases)) [
    | inl c ↦ rw c refl
    | inr c ↦ rw c refl
  ])
]

static-agree :
    (ctx' ctx : Ctx) (mac : List ℕ) (o : Option StaticLease)
    → allocate_existing ctx' mac (find_lease_by_mac ctx' mac) ≡ allocate_static ctx mac o
    → allocate_static ctx' mac o ≡ allocate_static ctx mac o
static-agree ctx' ctx mac none h = h
static-agree ctx' ctx mac (some sl) h = elim (Bool-cases (sl.ip_addr == 0)) [
  | inl b ↦ rw b (rw b at h)
  | inr b ↦ rw b refl
]

-- A client that is recorded with the address it is allocated is allocated that address again.
pub allocate_next_ip-stable :
    (ctx : Ctx) (mac : List ℕ) (name : List ℕ) (now : ℕ)
    → allocate_next_ip (update_lease_record ctx mac (allocate_next_ip ctx mac) name now) mac
      ≡ allocate_next_ip ctx mac
unfolding allocate_next_ip renewed
allocate_next_ip-stable ctx mac name now =
    let ip = allocate_next_ip ctx mac in
    let ctx' = update_lease_record ctx mac ip name now in
    let held : allocate_existing ctx' mac (find_lease_by_mac ctx' mac) ≡ ip =
      rw (find-update ctx mac ip name now) refl in
    ap (λ l. allocate_static ctx' mac (find_static_lease_by_mac l mac))
      (update-lan ctx mac ip name now)
    ∙ static-agree ctx' ctx mac (find_static_lease_by_mac ctx.lan mac) held
