-- ===== src/Dns64/Pool.antt =====
-- The synthetic addresses of src/dns64_daemon.c, and their use by the translator of
-- bpf/xdp_nat46.bpf.c.
use flux_wan.Base.{ℕ, zero, suc, ◌+◌, ◌-◌, ◌%◌, ◌≤◌, ◌≡◌, ◌∙◌, List, ◌++◌, true, arith}
use flux_wan.Dhcp.Leases.{htonl}
use flux_wan.Nat46
use flux_wan.Nat46.{is_synthetic}
use flux_wan.Dns64.{
  Ctx, synth_start_ip_host, synth_end_ip_host, a_record, answer_header, allocate_synthetic_ip,
}

-- The next address lies in the pool.
pub record InPool (ctx : Ctx) : Type 0 where
  pub above : synth_start_ip_host ≤ ctx.current_synth_ip_host
  pub below : ctx.current_synth_ip_host ≤ synth_end_ip_host

htonl-is_synthetic :
    (n : ℕ) → synth_start_ip_host ≤ n → n ≤ synth_end_ip_host → is_synthetic (htonl n) ≡ true
unfolding is_synthetic
htonl-is_synthetic n h k = ground arith

allocate-InPool : (ctx : Ctx) → InPool ctx → InPool (allocate_synthetic_ip ctx).0
unfolding allocate_synthetic_ip
allocate-InPool ctx v = ground (arith, v.above, v.below)

next_place :
    (n : ℕ) (ctx : Ctx)
    → InPool ctx
    → synth_start_ip_host
        + ((allocate_synthetic_ip ctx).0.current_synth_ip_host - synth_start_ip_host + n) % 131070
      ≡ synth_start_ip_host + (ctx.current_synth_ip_host - synth_start_ip_host + suc n) % 131070
unfolding allocate_synthetic_ip
next_place n ctx v = ground (arith, v.above, v.below)

-- The pool after some allocations.
unfoldable pub allocate_all : ℕ → Ctx → Ctx
allocate_all zero ctx = ctx
allocate_all (suc n) ctx = allocate_all n (allocate_synthetic_ip ctx).0

first_synthetic : (ctx : Ctx) → InPool ctx → is_synthetic (allocate_synthetic_ip ctx).1 ≡ true
unfolding allocate_synthetic_ip
first_synthetic ctx v = htonl-is_synthetic ctx.current_synth_ip_host v.above v.below

-- If the next address is one of the pool, then after n allocations the pool stands n addresses
-- further, and begins again behind its 131070th, and the address that comes next is one that the
-- translator takes for synthetic.
pub allocate_all-cyclic :
    (n : ℕ) (ctx : Ctx)
    → InPool ctx
    → ((allocate_all n ctx).current_synth_ip_host
        ≡ synth_start_ip_host + (ctx.current_synth_ip_host - synth_start_ip_host + n) % 131070)
      × (is_synthetic (allocate_synthetic_ip (allocate_all n ctx)).1 ≡ true)
unfolding allocate_all
allocate_all-cyclic zero ctx v = (omega (arith, v.above, v.below), first_synthetic ctx v)
allocate_all-cyclic (suc n) ctx v =
    let rest = allocate_all-cyclic n (allocate_synthetic_ip ctx).0 (allocate-InPool ctx v) in
    (rest.0 ∙ next_place n ctx v, rest.1)

-- The answer to an A query.
abbrev pub a_answer : List ℕ → ℕ → List ℕ
a_answer buf synth_v4 = answer_header buf ++ a_record synth_v4
