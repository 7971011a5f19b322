-- ===== src/Maglev/Ring.antt =====
-- The ring that src/wan_manager.c builds for a list of WAN indices, on every branch.
use flux_wan.Base.{
  ℕ, ◌+◌, ◌≤◌, ◌<◌, ◌≡◌, refl, ◌≢◌, List, [], ◌∷◌, Bool, true, false, ◌||◌, some, ◌==◌, length,
  replicate, length-replicate, All, arith,
}
use flux_wan.Config.{Wan}
use flux_wan.Maglev.{
  Member, empty, eligible_at, active_members, first_active, max_weight, members, max_wans,
  build_single_maglev_ring,
}
use flux_wan.Maglev.Probe.{Partial, vacant-replicate, All-replicate}
use flux_wan.Maglev.Full.{fill-IsFull, members-IsTarget, first_active-target}

abbrev pub elem : ℕ → List ℕ → Bool
elem i [] = false
elem i (j ∷ js) = i == j || elem i js

-- An index of the list whose WAN may take new flows.
abbrev pub Usable : List Wan → List ℕ → ℕ → Type 0
Usable wans is i = (elem i is ≡ true) × (eligible_at wans i ≡ true)

abbrev pub InRange : List Wan → List ℕ → Type 0
InRange wans = All (λ i. i < length wans)

abbrev Premise : List Wan → List ℕ → ℕ → Type 0
Premise wans all i =
    (i < length wans) × (eligible_at wans i ≡ true → Usable wans all i × (i ≢ empty))

premises :
    (wans : List Wan) (all is : List ℕ)
    → length wans ≤ max_wans
    → InRange wans is
    → ((i : ℕ) → elem i is ≡ true → elem i all ≡ true)
    → All (Premise wans all) is
premises wans all [] few h sub = tt
premises wans all (i ∷ is) few (h, hs) sub = (
  (h, λ e. ((sub i (ground arith), e), omega arith)),
  premises wans all is few hs (λ j e. sub j (ground arith)),
)

-- If some listed WAN may take new flows, there are at most 256 WANs and the list has only indices
-- of WANs, the loop ends, and every slot of the ring names a listed WAN that may take new flows.
pub build-Usable :
    (size : ℕ) (wans : List Wan) (stale : ℕ → Member) (is : List ℕ)
    → length wans ≤ max_wans
    → InRange wans is
    → active_members wans is ≢ 0
    → (ring : List ℕ) × (build_single_maglev_ring size wans stale is ≡ some ring)
      × (length ring ≡ size)
      × All (Usable wans is) ring
unfolding build_single_maglev_ring active_members
build-Usable size wans stale [] few h ne = absurd (ne refl)
build-Usable size wans stale (i ∷ is) few h ne =
    let P = Usable wans (i ∷ is) in
    let pre = premises wans (i ∷ is) (i ∷ is) few h (λ j e. e) in
    let a : (active_members wans (i ∷ is) == 0) ≡ false = ground arith in
    let ms = members size wans stale 0 (i ∷ is) in
    let start : Partial P size 0 (replicate size empty) = record {
      width = length-replicate size empty;
      counted = rw vacant-replicate (omega arith);
      targets = All-replicate P size;
    } in
    let (ring, e, full) =
      fill-IsFull P (size + 1) size (max_weight 0 ms) (first_active wans i (i ∷ is)) 0 ms
        (replicate size empty) start (members-IsTarget P size wans stale 0 (i ∷ is) pre)
        (first_active-target P wans i (i ∷ is) pre ne) (rw vacant-replicate (omega arith)) in
    (ring, rw a e, full.0, full.1)

-- If no listed WAN may take new flows, every slot names the first one that is listed.
pub build_unusable :
    (size : ℕ) (wans : List Wan) (stale : ℕ → Member) (i : ℕ) (is : List ℕ)
    → active_members wans (i ∷ is) ≡ 0
    → build_single_maglev_ring size wans stale (i ∷ is) ≡ some (replicate size i)
unfolding build_single_maglev_ring
build_unusable size wans stale i is h = rw h
