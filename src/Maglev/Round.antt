-- ===== src/Maglev/Round.antt =====
-- A pass over the members (src/wan_manager.c) keeps the ring partial, and reports its progress.
use flux_wan.Base.{
  ℕ, ◌+◌, ◌-◌, ◌≤◌, ◌<◌, ◌≡◌, ◌∙◌, ◌≢◌, ◌⊎◌, inl, inr, List, [], ◌∷◌, Bool, true, false, u32, leb,
  ◌==◌, Bool-cases, All, arith,
}
use flux_wan.Maglev.{empty, Member, Fill, probe, claim, round}
use flux_wan.Maglev.Probe.{Partial, IsTarget, taken, probe-Partial}

-- The progress flag rises only with the count of taken slots.
abbrev pub Advances : Fill → Fill → Type 0
Advances s t = (s.runs ≤ t.runs) × (t.progress ≡ true → (s.progress ≡ true) ⊎ (s.runs < t.runs))

Advances-refl : (s : Fill) → Advances s s
Advances-refl s = (omega arith, λ e. inl e)

Advances-trans : (s t u : Fill) → Advances s t → Advances t u → Advances s u
Advances-trans s t u f g = ground arith

module _ (P : ℕ → Type 0) where
  abbrev pub Goes : ℕ → Fill → List Member × Fill → Type 0
  Goes size s r = Partial P size r.1.runs r.1.lut × All (IsTarget P) r.0 × Advances s r.1

  IsTarget-of_same :
      (m m' : Member) → m'.w_idx ≡ m.w_idx → m'.weight ≡ m.weight → IsTarget P m → IsTarget P m'
  IsTarget-of_same m m' i w (inl z) = inl (w ∙ z)
  IsTarget-of_same m m' i w (inr (p, ne)) = inr (rw i p, rw i ne)

  claim_hit :
      (size : ℕ) (s : Fill) (m : Member) (r : Member × List ℕ × Bool)
      → Partial P size (s.runs + taken r.2) r.1
      → (r.0.w_idx ≡ m.w_idx)
      → (r.0.weight ≡ m.weight)
      → IsTarget P m
      → Partial P size (claim r s).runs (claim r s).lut × IsTarget P r.0 × Advances s (claim r s)
  claim_hit size s m (m', lut, true) h i w t = (h, IsTarget-of_same m m' i w t, omega arith)
  claim_hit size s m (m', lut, false) h i w t = (
    record { width = h.width; counted = omega (arith, h.counted); targets = h.targets },
    IsTarget-of_same m m' i w t,
    Advances-refl s,
  )

  is_target : (m : Member) → IsTarget P m → (m.weight == 0) ≡ false → P m.w_idx × (m.w_idx ≢ empty)
  is_target m (inl z) h = absurd (ground arith)
  is_target m (inr p) h = p

  pub round-Goes :
      (size max : ℕ) (ms : List Member) (s : Fill)
      → Partial P size s.runs s.lut
      → All (IsTarget P) ms
      → Goes size s (round size max ms s)
  unfolding round
  round-Goes size max [] s h all = (h, tt, Advances-refl s)
  round-Goes size max (m ∷ ms) s h all =
      let cum = u32 (m.cum_weight + m.weight) in
      let m1 : Member = record m { cum_weight = cum - max } in
      let hit = probe size size m1 s.lut in
      let idle = round-Goes size max ms s h all.1 in
      elim (Bool-cases (m.weight == 0)) [
        | inl a ↦ rw a (idle.0, (all.0, idle.1), idle.2)
        | inr a ↦ elim (Bool-cases (leb max cum)) [
          | inr b ↦ rw (a, b) (idle.0, (all.0, idle.1), idle.2)
          | inl b ↦
              let (p, ne) = is_target m all.0 a in
              let (walked, i, w) = probe-Partial P size size s.runs m1 s.lut h p ne in
              let (h', t, up) = claim_hit size s m hit walked i w all.0 in
              elim (Bool-cases ((claim hit s).runs == size)) [
                | inl c ↦ rw (a, b, c) (h', (t, all.1), up)
                | inr c ↦
                    let (h'', t'', up') = round-Goes size max ms (claim hit s) h' all.1 in
                    rw (a, b, c)
                      (
                        h'',
                        (t, t''),
                        Advances-trans s (claim hit s) (round size max ms (claim hit s)).1 up up',
                      )
              ]
        ]
      ]
