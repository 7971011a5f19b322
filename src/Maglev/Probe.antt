-- ===== src/Maglev/Probe.antt =====
-- What the ring builder of src/wan_manager.c keeps true of a ring while it fills it.
use flux_wan.Base.{
  ℕ, zero, suc, ◌+◌, ◌*◌, ◌%◌, ◌≤◌, ◌<◌, ◌≡◌, refl, ◌≢◌, ◌⊎◌, inl, inr, List, [], ◌∷◌, Bool, true,
  false, u32, ltb, ◌==◌, ==_iff, if◌then◌else◌, Bool-cases, length, get_or, set, replicate,
  length-set, All, arith,
}
use flux_wan.Maglev.{Member, empty, probe}

unfoldable pub vacant : List ℕ → ℕ
vacant [] = 0
vacant (x ∷ xs) = if x == empty then suc (vacant xs) else vacant xs

pub vacant-le : (xs : List ℕ) → vacant xs ≤ length xs
unfolding vacant
vacant-le [] = omega arith
vacant-le (x ∷ xs) = ground (arith, vacant-le xs)

pub vacant-replicate : (n : ℕ) → vacant (replicate n empty) ≡ n
unfolding vacant replicate
vacant-replicate zero = refl
vacant-replicate (suc n) = ground (arith, vacant-replicate n)

pub vacant-set :
    (xs : List ℕ) (i v : ℕ)
    → i < length xs
    → get_or xs i 0 ≡ empty
    → v ≢ empty
    → vacant (set xs i v) + 1 ≡ vacant xs
unfolding vacant set get_or
vacant-set [] i v h e ne = absurd (omega arith)
vacant-set (x ∷ xs) zero v h e ne = ground arith
vacant-set (x ∷ xs) (suc i) v h e ne = ground (arith, vacant-set xs i v)

abbrev pub taken : Bool → ℕ
taken true = 1
taken false = 0

module _ (P : ℕ → Type 0) where
  -- A slot is free or holds a target.
  abbrev pub Taken : ℕ → Type 0
  Taken x = (x ≡ empty) ⊎ (P x × (x ≢ empty))

  pub All-set : (xs : List ℕ) (i v : ℕ) → All Taken xs → P v → v ≢ empty → All Taken (set xs i v)
  unfolding set
  All-set [] i v all p ne = all
  All-set (x ∷ xs) zero v all p ne = (inr (p, ne), all.1)
  All-set (x ∷ xs) (suc i) v all p ne = (all.0, All-set xs i v all.1 p ne)

  pub All-replicate : (n : ℕ) → All Taken (replicate n empty)
  unfolding replicate
  All-replicate zero = tt
  All-replicate (suc n) = (inl refl, All-replicate n)

  -- A ring of `size` slots of which `runs` are taken, each by a target.
  pub record Partial (size runs : ℕ) (lut : List ℕ) : Type 0 where
    pub width : length lut ≡ size
    pub counted : runs + vacant lut ≡ size
    pub targets : All Taken lut

  -- A member that takes part in the rounds may be a target.
  abbrev pub IsTarget : Member → Type 0
  IsTarget m = (m.weight ≡ 0) ⊎ (P m.w_idx × (m.w_idx ≢ empty))

  -- A walk takes one free slot for the member or none, and changes only the member's position.
  pub probe-Partial :
      (fuel size runs : ℕ) (m : Member) (lut : List ℕ)
      → Partial size runs lut
      → P m.w_idx
      → m.w_idx ≢ empty
      → let r = probe fuel size m lut in
        Partial size (runs + taken r.2) r.1 × (r.0.w_idx ≡ m.w_idx) × (r.0.weight ≡ m.weight)
  unfolding probe
  probe-Partial zero size runs m lut h p ne = (
    record { width = h.width; counted = omega (arith, h.counted); targets = h.targets },
    refl,
    refl,
  )
  probe-Partial (suc fuel) size runs m lut h p ne =
      let moved : Member = record m { next = m.next + 1 } in
      let cur = u32 (m.offset + u32 (m.next * m.skip)) % size in
      elim (Bool-cases (ltb m.next size)) [
        | inr a ↦ rw a (
          record { width = h.width; counted = omega (arith, h.counted); targets = h.targets },
          refl,
          refl,
        )
        | inl a ↦ elim (Bool-cases (get_or lut cur 0 == empty)) [
          | inr b ↦ rw (a, b) (probe-Partial fuel size runs moved lut h p ne)
          | inl b ↦
              rw (a, b)
                (
                  record {
                    width = rw length-set h.width;
                    counted = omega (
                      arith,
                      h.counted,
                      vacant-set lut cur m.w_idx (ground (arith, h.width)) ((==_iff _ empty).0 b)
                          ne,
                    );
                    targets = All-set lut cur m.w_idx h.targets p ne;
                  },
                  refl,
                  refl,
                )
        ]
      ]
