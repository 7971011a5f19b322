-- ===== src/Maglev/Full.antt =====
-- The ring builder of src/wan_manager.c ends, and leaves no slot without a usable WAN.
use flux_wan.Base.{
  ℕ, zero, suc, ◌<◌, ◌≡◌, refl, ◌∙◌, ◌≢◌, inl, inr, List, [], ◌∷◌, true, false, not, ◌&&◌, Option,
  none, some, ltb, ◌==◌, ==_iff, Bool-cases, get_elem?, length, All, arith,
}
use flux_wan.Config.{Wan}
use flux_wan.Maglev.{
  Member, Fill, empty, round, fill, fill_rest, eligible_at, active_members, first_active, member,
  set_up, may_take, members, is_eligible,
}
use flux_wan.Maglev.Probe.{vacant, Taken, Partial, IsTarget}
use flux_wan.Maglev.Round.{round-Goes}

get_elem?-ne-none : (wans : List Wan) (i : ℕ) → i < length wans → get_elem? wans i ≢ none
get_elem?-ne-none [] i h = absurd (omega arith)
get_elem?-ne-none (w ∷ wans) zero h = λ e. cc
get_elem?-ne-none (w ∷ wans) (suc i) h = get_elem?-ne-none wans i (omega arith)

module _ (P : ℕ → Type 0) where
  -- A ring of `size` slots that are all targets.
  abbrev pub IsFull : ℕ → List ℕ → Type 0
  IsFull size lut = (length lut ≡ size) × All P lut

  All-of_full : (lut : List ℕ) → All (Taken P) lut → vacant lut ≡ 0 → All P lut
  unfolding vacant
  All-of_full [] all z = tt
  All-of_full (x ∷ lut) (inl e, all) z = absurd (ground arith)
  All-of_full (x ∷ lut) (inr (p, ne), all) z = (p, All-of_full lut all (ground arith))

  fill_rest-IsFull :
      (first : ℕ) (lut : List ℕ)
      → P first
      → All (Taken P) lut
      → IsFull (length lut) (fill_rest first lut)
  unfolding fill_rest
  fill_rest-IsFull first [] p all = (refl, tt)
  fill_rest-IsFull first (x ∷ lut) p (inl e, all) =
      let (w, rest) = fill_rest-IsFull first lut p all in
      (omega arith, (rw ((==_iff x empty).1 e) p, rest))
  fill_rest-IsFull first (x ∷ lut) p (inr (q, ne), all) =
      let (w, rest) = fill_rest-IsFull first lut p all in
      (omega arith, (rw (not_empty x ne) q, rest))
    where
      not_empty : (x : ℕ) → x ≢ empty → (x == empty) ≡ false
      not_empty x h = ground arith

  -- With a round for each free slot and one more, the loop ends with a full ring.
  pub fill-IsFull :
      (fuel size max first runs : ℕ) (ms : List Member) (lut : List ℕ)
      → Partial P size runs lut
      → All (IsTarget P) ms
      → P first
      → vacant lut < fuel
      → (ring : List ℕ) × (fill fuel size max first ms runs lut ≡ some ring) × IsFull size ring
  unfolding fill
  fill-IsFull zero size max first runs ms lut h all p enough = absurd (omega arith)
  fill-IsFull (suc fuel) size max first runs ms lut h all p enough =
      let s0 : Fill = record { lut = lut; runs = runs; progress = false } in
      let s = (round size max ms s0).1 in
      let (h', all', up) = round-Goes P size max ms s0 h all in
      elim (Bool-cases (ltb runs size)) [
        | inr a ↦ (lut, rw a, (h.width, All-of_full lut h.targets (ground (arith, h.counted))))
        | inl a ↦ elim (Bool-cases (not s.progress && ltb s.runs size)) [
          | inl b ↦
              let (w, full) = fill_rest-IsFull first s.lut p h'.targets in
              (fill_rest first s.lut, rw (a, b), (w ∙ h'.width, full))
          | inr b ↦
              let (ring, e, full) =
                fill-IsFull fuel size max first s.runs (round size max ms s0).0 s.lut h' all' p
                  (ground (arith, h.counted, h'.counted)) in
              (ring, rw (a, b) e, full)
        ]
      ]

  set_up-IsTarget :
      (size : ℕ) (stale : Member) (i : ℕ) (o : Option Wan)
      → o ≢ none
      → (may_take o ≡ true → P i × (i ≢ empty))
      → IsTarget P (set_up size stale i o)
  set_up-IsTarget size stale i none there usable = absurd (there refl)
  set_up-IsTarget size stale i (some w) there usable = elim (Bool-cases (is_eligible w)) [
    | inl b ↦ rw b (inr (usable b))
    | inr b ↦ rw b (inl refl)
  ]

  pub members-IsTarget :
      (size : ℕ) (wans : List Wan) (stale : ℕ → Member) (m : ℕ) (is : List ℕ)
      → All (λ i. (i < length wans) × (eligible_at wans i ≡ true → P i × (i ≢ empty))) is
      → All (IsTarget P) (members size wans stale m is)
  unfolding members member
  members-IsTarget size wans stale m [] all = tt
  members-IsTarget size wans stale m (i ∷ is) (h, all) = (
    set_up-IsTarget size (stale m) i (get_elem? wans i) (get_elem?-ne-none wans i h.0) h.1,
    members-IsTarget size wans stale (suc m) is all,
  )

  pub first_active-target :
      (wans : List Wan) (first : ℕ) (is : List ℕ)
      → All (λ i. (i < length wans) × (eligible_at wans i ≡ true → P i × (i ≢ empty))) is
      → active_members wans is ≢ 0
      → P (first_active wans first is)
  unfolding active_members first_active
  first_active-target wans first [] all ne = absurd (ne refl)
  first_active-target wans first (i ∷ is) (h, all) ne = elim (Bool-cases (eligible_at wans i)) [
    | inl b ↦ rw b (h.1 b).0
    | inr b ↦ rw b (first_active-target wans first is all (rw b at ne))
  ]
