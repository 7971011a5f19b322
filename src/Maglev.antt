-- ===== src/Maglev.antt =====
-- The Maglev ring builder of src/wan_manager.c. The ring size, `MAGLEV_RING_SIZE` in the source,
-- is the argument `size`, so that small rings run in tests.
pub mod Hash
pub mod Probe
pub mod Round
pub mod Full
pub mod Ring
use flux_wan.Base.{
  ℕ, zero, suc, ◌+◌, ◌-◌, ◌*◌, ◌%◌, List, [], ◌∷◌, map, Bool, true, false, not, ◌&&◌, Option, none,
  some, u32, ltb, leb, ◌==◌, if◌then◌else◌, length, get_or, get_elem?, set, replicate,
}
use flux_wan.Config.{WanState, down, degraded, healthy, draining, Wan}
use Hash.{offset_hash, skip_hash}

abbrev pub maglev_ring_size : ℕ
maglev_ring_size = 65537

abbrev pub max_wans : ℕ
max_wans = 256

-- The mark of a slot that is not yet taken.
abbrev pub empty : ℕ
empty = 0xFFFFFFFF

abbrev pub is_up : WanState → Bool
is_up down = false
is_up draining = false
is_up _ = true

-- A WAN that new flows may be sent to.
unfoldable pub is_eligible : Wan → Bool
is_eligible w = w.enabled && (is_up w.state && ltb 0 w.dynamic_weight)

-- `permutation`, `next`, `weights` and `cum_weight` at one position of `member_indices`.
pub record Member : Type 0 where
  pub w_idx : ℕ
  pub offset : ℕ
  pub skip : ℕ
  pub next : ℕ
  pub weight : ℕ
  pub cum_weight : ℕ

-- What one round of the set-up loop stores. It skips an index that is out of range: the arrays
-- are not initialised, so what they hold there is the argument `stale`.
abbrev pub set_up : ℕ → Member → ℕ → Option Wan → Member
set_up size stale w_idx none = record stale { w_idx = w_idx; cum_weight = 0 }
set_up size stale w_idx (some w) = record {
  w_idx = w_idx;
  offset = u32 (offset_hash w.name % size);
  skip = u32 (skip_hash w.name % (size - 1) + 1);
  next = 0;
  weight = if is_eligible w then w.dynamic_weight else 0;
  cum_weight = 0;
}

unfoldable pub member : ℕ → List Wan → Member → ℕ → Member
member size wans stale w_idx = set_up size stale w_idx (get_elem? wans w_idx)

abbrev pub may_take : Option Wan → Bool
may_take none = false
may_take (some w) = is_eligible w

abbrev pub eligible_at : List Wan → ℕ → Bool
eligible_at wans i = may_take (get_elem? wans i)

-- `active_members` and `first_active_idx` after the set-up loop.
unfoldable pub active_members : List Wan → List ℕ → ℕ
active_members wans [] = 0
active_members wans (i ∷ is) =
    if eligible_at wans i then suc (active_members wans is) else active_members wans is

unfoldable pub first_active : List Wan → ℕ → List ℕ → ℕ
first_active wans first [] = first
first_active wans first (i ∷ is) = if eligible_at wans i then i else first_active wans first is

unfoldable pub max_weight : ℕ → List Member → ℕ
max_weight best [] = if best == 0 then 1 else best
max_weight best (m ∷ ms) = max_weight (if ltb best m.weight then m.weight else best) ms

pub record Fill : Type 0 where
  pub lut : List ℕ
  pub runs : ℕ
  pub progress : Bool

-- The inner `while` of a member, which walks its probe sequence to the next free slot. The first
-- argument is fuel; `size` is enough, since `next` rises to `size` at most.
unfoldable pub probe : ℕ → ℕ → Member → List ℕ → Member × List ℕ × Bool
probe zero size m lut = (m, lut, false)
probe (suc fuel) size m lut =
    let cur = u32 (m.offset + u32 (m.next * m.skip)) % size in
    let moved : Member = record m { next = m.next + 1 } in
    let rest = probe fuel size moved lut in
    if ltb m.next size
    then (if get_or lut cur 0 == empty then (moved, set lut cur m.w_idx, true) else rest)
    else (m, lut, false)

abbrev pub claim : Member × List ℕ × Bool → Fill → Fill
claim (m, lut, true) s = record { lut = lut; runs = s.runs + 1; progress = true }
claim (m, lut, false) s = record s { lut = lut }

-- One pass of the `for` loop over the members; it breaks when the ring is full.
unfoldable pub round : ℕ → ℕ → List Member → Fill → List Member × Fill
round size max [] s = ([], s)
round size max (m ∷ ms) s =
    let idle = round size max ms s in
    let cum = u32 (m.cum_weight + m.weight) in
    let hit = probe size size (record m { cum_weight = cum - max }) s.lut in
    let s' = claim hit s in
    let later = round size max ms s' in
    if m.weight == 0
    then (m ∷ idle.0, idle.1)
    else (if leb max cum
        then (if s'.runs == size then (hit.0 ∷ ms, s') else (hit.0 ∷ later.0, later.1))
        else (record m { cum_weight = cum } ∷ idle.0, idle.1))

-- The loop over the slots that a round without progress has left.
unfoldable pub fill_rest : ℕ → List ℕ → List ℕ
fill_rest first [] = []
fill_rest first (x ∷ lut) = (if x == empty then first else x) ∷ fill_rest first lut

-- The outer `while`. `none` means that the fuel ran out.
unfoldable pub fill : ℕ → ℕ → ℕ → ℕ → List Member → ℕ → List ℕ → Option (List ℕ)
fill zero size max first ms runs lut = none
fill (suc fuel) size max first ms runs lut =
    let (ms', s) = round size max ms (record { lut = lut; runs = runs; progress = false }) in
    let again = fill fuel size max first ms' s.runs s.lut in
    if ltb runs size
    then (if not s.progress && ltb s.runs size then some (fill_rest first s.lut) else again)
    else some lut

unfoldable pub members : ℕ → List Wan → (ℕ → Member) → ℕ → List ℕ → List Member
members size wans stale m [] = []
members size wans stale m (i ∷ is) =
    member size wans (stale m) i ∷ members size wans stale (suc m) is

unfoldable pub build_single_maglev_ring : ℕ → List Wan → (ℕ → Member) → List ℕ → Option (List ℕ)
build_single_maglev_ring size wans stale [] = some (replicate size 0)
build_single_maglev_ring size wans stale (i ∷ is) =
    let ms = members size wans stale 0 (i ∷ is) in
    let ring =
      fill (size + 1) size (max_weight 0 ms) (first_active wans i (i ∷ is)) ms 0
        (replicate size empty) in
    if active_members wans (i ∷ is) == 0 then some (replicate size i) else ring
