-- ===== src/WanManager/Steering.antt =====
-- The rings after `wan_manager_rebalance` (src/wan_manager.c).
use flux_wan.Base.{
  ℕ, zero, suc, ◌+◌, ◌≤◌, ◌<◌, ◌≡◌, refl, sym, subst, ap, ◌∙◌, ◌≢◌, ◌⊎◌, inl, inr, List, [], ◌∷◌,
  map, Bool, true, false, ◌&&◌, Option, none, some, ◌==◌, ==_iff, Bool-cases, get_elem?, length,
  replicate, All, arith,
}
use flux_wan.Config.{Wan, Group, ProberConfig}
use flux_wan.Maglev.{
  Member, is_up, is_eligible, eligible_at, active_members, build_single_maglev_ring, max_wans,
}
use flux_wan.Maglev.Ring.{Usable, InRange, build-Usable, build_unusable}
use flux_wan.WanManager.{
  Ctx, Effect, Code, done, unlicensed, rebalance_wan, rebalanced, min_healthy_rtt, indices,
  group_rings, generate_maglev_lut, rebalance, with_wans, no_weight, with_rings, rebalance_effects,
  update_group_maglev_lut,
}
use flux_wan.WanManager.Weights.{rebalance_wan_lem}

length-map : (f : Wan → Wan) (ws : List Wan) → length (map f ws) ≡ length ws
length-map f [] = refl
length-map f (w ∷ ws) = ap suc (length-map f ws)

pub get_elem?-map :
    (f : Wan → Wan) (ws : List Wan) (i : ℕ) {w : Wan}
    → get_elem? ws i ≡ some w
    → get_elem? (map f ws) i ≡ some (f w)
get_elem?-map f [] i e = cc
get_elem?-map f (x ∷ ws) zero e = ground arith
get_elem?-map f (x ∷ ws) (suc i) e = get_elem?-map f ws i e

indices-InRange : (wans : List Wan) (i n : ℕ) → i + n ≤ length wans → InRange wans (indices i n)
unfolding indices
indices-InRange wans i zero h = tt
indices-InRange wans i (suc n) h = (omega arith, indices-InRange wans (suc i) n (omega arith))

active_members-ne-zero :
    (wans : List Wan) (i n k : ℕ)
    → i ≤ k
    → k < i + n
    → eligible_at wans k ≡ true
    → active_members wans (indices i n) ≢ 0
unfolding indices active_members
active_members-ne-zero wans i zero k lo hi e = absurd (omega arith)
active_members-ne-zero wans i (suc n) k lo hi e = elim (Bool-cases (eligible_at wans i)) [
  | inl b ↦ rw b (λ z. cc)
  | inr b ↦
      let other : i ≢ k = λ q. let b' = subst (λ x. eligible_at wans x ≡ false) q b in cc in
      rw b (active_members-ne-zero wans (suc i) n k (omega arith) (omega arith) e)
]

active_members-empty :
    (wans : List Wan) (is : List ℕ) → (length is == 0) ≡ true → active_members wans is ≡ 0
unfolding active_members
active_members-empty wans [] b = refl
active_members-empty wans (i ∷ is) b = absurd (ground arith)

-- A group whose members may take flows has a ring of such members.
abbrev pub Served : List Wan → Group → Group → Type 0
Served wans g g' =
    (g'.wan_member_indices ≡ g.wan_member_indices)
    × ((active_members wans g.wan_member_indices ≡ 0)
        ⊎ All (Usable wans g.wan_member_indices) g'.maglev_ring)

abbrev pub AllServed : List Wan → List Group → List Group → Type 0
AllServed wans [] [] = Unit
AllServed wans [] (g' ∷ gs') = ⊥
AllServed wans (g ∷ gs) [] = ⊥
AllServed wans (g ∷ gs) (g' ∷ gs') = Served wans g g' × AllServed wans gs gs'

abbrev pub GroupsInRange : List Wan → List Group → Type 0
GroupsInRange wans = All (λ g. InRange wans g.wan_member_indices)

build_served :
    (size : ℕ) (wans : List Wan) (stale : ℕ → Member) (is : List ℕ)
    → length wans ≤ max_wans
    → InRange wans is
    → (length is == 0) ≡ false
    → (ring : List ℕ) × (build_single_maglev_ring size wans stale is ≡ some ring)
      × ((active_members wans is ≡ 0) ⊎ All (Usable wans is) ring)
build_served size wans stale [] few h n = cc
build_served size wans stale (i ∷ is) few h n =
    elim (Bool-cases (active_members wans (i ∷ is) == 0)) [
      | inl b ↦
          let z = (==_iff (active_members wans (i ∷ is)) 0).0 b in
          (replicate size i, build_unusable size wans stale i is z, inl z)
      | inr b ↦
          let (ring, e, w, full) = build-Usable size wans stale (i ∷ is) few h (ground arith) in
          (ring, e, inr full)
    ]

group_rings-AllServed :
    (size : ℕ) (wans : List Wan) (stale : ℕ → Member) (gs : List Group)
    → length wans ≤ max_wans
    → GroupsInRange wans gs
    → (r : List Group × List Effect) × (group_rings size wans stale gs ≡ some r)
      × AllServed wans gs r.0
unfolding group_rings
group_rings-AllServed size wans stale [] few h = (([], []), refl, tt)
group_rings-AllServed size wans stale (g ∷ gs) few h =
    let (r, e, served) = group_rings-AllServed size wans stale gs few h.1 in
    elim (Bool-cases (length g.wan_member_indices == 0)) [
      | inl b ↦ (
        (g ∷ r.0, r.1),
        rw (b, e),
        ((refl, inl (active_members-empty wans g.wan_member_indices b)), served),
      )
      | inr b ↦
          let (ring, built, serves) = build_served size wans stale g.wan_member_indices few h.0 b in
          (
            (record g { maglev_ring = ring } ∷ r.0, update_group_maglev_lut g.id ring ∷ r.1),
            rw (b, built, e),
            ((refl, serves), served),
          )
    ]

generate_lem :
    (size : ℕ) (stale : ℕ → Member) (ctx : Ctx) (k : ℕ)
    → length ctx.config.wans ≤ max_wans
    → GroupsInRange ctx.config.wans ctx.config.groups
    → k < length ctx.config.wans
    → eligible_at ctx.config.wans k ≡ true
    → (r : Ctx × List Effect) × (generate_maglev_lut size stale ctx ≡ some r)
      × (r.0.config.wans ≡ ctx.config.wans)
      × (length r.0.maglev_lut ≡ size)
      × All (Usable ctx.config.wans (indices 0 (length ctx.config.wans))) r.0.maglev_lut
      × AllServed ctx.config.wans ctx.config.groups r.0.config.groups
unfolding generate_maglev_lut
generate_lem size stale ctx k few groups h e =
    let wans = ctx.config.wans in
    let n = length wans in
    let (lut, built, width, usable) =
      build-Usable size wans stale (indices 0 n) few (indices-InRange wans 0 n (omega arith))
        (active_members-ne-zero wans 0 n k (omega arith) (omega arith) e) in
    let (r, rings, served) = group_rings-AllServed size wans stale ctx.config.groups few groups in
    let some_wans : (n == 0) ≡ false = ground arith in
    (with_rings ctx lut r.0 r.1, rw (some_wans, built, rings), refl, width, usable, served)

-- What the configuration says of the WAN at an index: enabled, and neither down nor draining.
abbrev pub admits : Option Wan → Bool
admits none = false
admits (some w) = w.enabled && is_up w.state

pub eligible-rebalanced :
    (p : ProberConfig) (min_rtt : ℕ) (ws : List Wan) (i : ℕ)
    → eligible_at (map (rebalance_wan p min_rtt) ws) i ≡ admits (get_elem? ws i)
eligible-rebalanced p min_rtt [] i = refl
eligible-rebalanced p min_rtt (w ∷ ws) zero = (rebalance_wan_lem p min_rtt w).0
eligible-rebalanced p min_rtt (w ∷ ws) (suc i) = eligible-rebalanced p min_rtt ws i

All-admitted :
    (p : ProberConfig) (min_rtt : ℕ) (ws : List Wan) (is lut : List ℕ)
    → All (Usable (map (rebalance_wan p min_rtt) ws) is) lut
    → All (λ i. admits (get_elem? ws i) ≡ true) lut
All-admitted p min_rtt ws is [] all = tt
All-admitted p min_rtt ws is (i ∷ lut) (u, all) =
    (sym (eligible-rebalanced p min_rtt ws i) ∙ u.1, All-admitted p min_rtt ws is lut all)

InRange-of_length :
    (ws vs : List Wan) (is : List ℕ) → length vs ≡ length ws → InRange ws is → InRange vs is
InRange-of_length ws vs [] e h = tt
InRange-of_length ws vs (i ∷ is) e h = (omega arith, InRange-of_length ws vs is e h.1)

pub GroupsInRange-of_length :
    (ws vs : List Wan) (gs : List Group)
    → length vs ≡ length ws
    → GroupsInRange ws gs
    → GroupsInRange vs gs
GroupsInRange-of_length ws vs [] e h = tt
GroupsInRange-of_length ws vs (g ∷ gs) e h =
    (InRange-of_length ws vs g.wan_member_indices e h.0, GroupsInRange-of_length ws vs gs e h.1)

pub lt_of_get_elem? : (ws : List Wan) (k : ℕ) {w : Wan} → get_elem? ws k ≡ some w → k < length ws
lt_of_get_elem? [] k e = cc
lt_of_get_elem? (x ∷ ws) zero e = omega arith
lt_of_get_elem? (x ∷ ws) (suc k) e = omega (arith, lt_of_get_elem? ws k e)

-- With a licence, at most 256 WANs, group members that are indices of WANs, and one WAN that is
-- enabled and neither down nor draining, rebalancing ends: the default ring has a WAN of that kind
-- in every slot, and each group that has one of its own gets a ring of such members.
pub rebalance-steers :
    (size : ℕ) (stale : ℕ → Member) (ctx : Ctx) (k : ℕ) {w : Wan}
    → length ctx.config.wans ≤ max_wans
    → GroupsInRange ctx.config.wans ctx.config.groups
    → get_elem? ctx.config.wans k ≡ some w
    → w.enabled ≡ true
    → is_up w.state ≡ true
    → (r : Ctx × List Effect × Code) × (rebalance size stale true ctx ≡ some r)
      × (r.2 ≡ done)
      × (r.0.config.wans ≡ rebalanced ctx.config)
      × (length r.0.maglev_lut ≡ size)
      × All (λ i. admits (get_elem? ctx.config.wans i) ≡ true) r.0.maglev_lut
      × AllServed (rebalanced ctx.config) ctx.config.groups r.0.config.groups
unfolding rebalance
rebalance-steers size stale ctx k {w} few groups there on up =
    let ws = ctx.config.wans in
    let p = ctx.config.prober in
    let m = min_healthy_rtt 999999 ws in
    let vs = rebalanced ctx.config in
    let n = length-map (rebalance_wan p m) ws in
    let good : eligible_at vs k ≡ true = eligible-rebalanced p m ws k ∙ rw there (rw (on, up)) in
    let (r, made, same, width, usable, served) =
      generate_lem size stale (with_wans ctx vs) k (rw n few)
        (GroupsInRange-of_length ws vs ctx.config.groups n groups)
        (rw n (lt_of_get_elem? ws k there)) good in
    (
      (r.0, rebalance_effects ctx vs r.1, done),
      rw made,
      refl,
      same,
      width,
      All-admitted p m ws (indices 0 (length vs)) r.0.maglev_lut usable,
      served,
    )

-- Without a licence every weight is 0, so no WAN takes new flows, and the rings stay.
pub rebalance_unlicensed :
    (size : ℕ) (stale : ℕ → Member) (ctx : Ctx)
    → (r : Ctx × List Effect × Code) × (rebalance size stale false ctx ≡ some r)
      × (r.2 ≡ unlicensed)
      × (r.0.maglev_lut ≡ ctx.maglev_lut)
      × ((k : ℕ) → eligible_at r.0.config.wans k ≡ false)
unfolding rebalance
rebalance_unlicensed size stale ctx =
    ((_, _, unlicensed), refl, refl, refl, no_weight_lem ctx.config.wans)
  where
    no_weight_lem : (ws : List Wan) (k : ℕ) → eligible_at (map no_weight ws) k ≡ false
    no_weight_lem [] k = refl
    no_weight_lem (w ∷ ws) zero = unfold is_eligible in ground arith
    no_weight_lem (w ∷ ws) (suc k) = no_weight_lem ws k
