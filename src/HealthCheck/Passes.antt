-- ===== src/HealthCheck/Passes.antt =====
-- What one pass of `tc_hc_tx` in bpf/xdp_healthchecker.bpf.c does to one uplink.
use flux_wan.Base.{
  ℕ, zero, suc, ◌+◌, ◌≤◌, ◌<◌, ◌≡◌, refl, sym, subst, ◌^◌, ==_iff, ◌∙◌, ap, inl, inr, true, false,
  Option, Bool-cases, ◌==◌, arith,
}
use flux_wan.HealthCheck.{
  hc_probe_interval_ns, Result, Maps, probed, map_result, is_due, tx_one, tx_from, hc_tx,
}

-- What the maps hold of one uplink.
abbrev pub View : Type 0
View = Option Result × ℕ

unfoldable pub view : Maps → ℕ → View
view maps k = (maps.results k, maps.rate_limit k)

turn-other :
    (maps : Maps) (now i k : ℕ) → (i == k) ≡ false → view (tx_one maps now i) k ≡ view maps k
unfolding view tx_one
turn-other maps now i k h = ground arith

-- The turn of an uplink whose probe is due.
turn-due :
    (maps : Maps) (now k : ℕ)
    → is_due maps now k ≡ true
    → view (tx_one maps now k) k ≡ (map_result (probed now) (maps.results k), now)
unfolding view tx_one
turn-due maps now k h = ground arith

-- A turn, for an uplink whose probe is not due.
turn-kept :
    (maps : Maps) (now i k : ℕ)
    → is_due maps now k ≡ false
    → view (tx_one maps now i) k ≡ view maps k
turn-kept maps now i k d = elim (Bool-cases (i == k)) [
  | inl e ↦
      subst (λ j. view (tx_one maps now j) k ≡ view maps k) (sym ((==_iff i k).0 e))
        (unfold tx_one in rw d refl)
  | inr e ↦ turn-other maps now i k e
]

-- Whether a probe is due depends on the entries of its own uplink.
due-same :
    (maps maps' : Maps) (now k : ℕ)
    → maps'.targets ≡ maps.targets
    → view maps' k ≡ view maps k
    → is_due maps' now k ≡ is_due maps now k
due-same maps maps' now k t v =
    let r : maps'.rate_limit k ≡ maps.rate_limit k = unfold view in ap (λ (w : View). w.1) v in
    ground (arith, t, r)

tx_one-targets : (maps : Maps) (now i : ℕ) → (tx_one maps now i).targets ≡ maps.targets
unfolding tx_one
tx_one-targets maps now i = ground arith

-- The turns of the uplinks behind it leave an uplink alone.
tx_from-behind : (n i now k : ℕ) (maps : Maps) → k < i → view (tx_from n i maps now) k ≡ view maps k
unfolding tx_from
tx_from-behind zero i now k maps h = refl
tx_from-behind (suc n) i now k maps h =
    tx_from-behind n (suc i) now k (tx_one maps now i) (omega arith)
    ∙ turn-other maps now i k (ground arith)

tx_from-due :
    (n i now k : ℕ) (maps : Maps)
    → i ≤ k
    → k < i + n
    → is_due maps now k ≡ true
    → view (tx_from n i maps now) k ≡ (map_result (probed now) (maps.results k), now)
unfolding tx_from
tx_from-due zero i now k maps h l d = absurd (omega arith)
tx_from-due (suc n) i now k maps h l d = elim (Bool-cases (i == k)) [
  | inl e ↦
      tx_from-behind n (suc i) now k (tx_one maps now i) (ground arith)
      ∙ subst (λ j. view (tx_one maps now j) k ≡ (map_result (probed now) (maps.results k), now))
          (sym ((==_iff i k).0 e)) (turn-due maps now k d)
  | inr e ↦
      (let other = turn-other maps now i k e in
        let due = due-same maps (tx_one maps now i) now k (tx_one-targets maps now i) other ∙ d in
        let same : (tx_one maps now i).results k ≡ maps.results k =
          unfold view in ap (λ (w : View). w.0) other in
        tx_from-due n (suc i) now k (tx_one maps now i) (ground arith) (omega arith) due
        ∙ ap (λ o. (map_result (probed now) o, now)) same)
]

tx_from-kept :
    (n i now k : ℕ) (maps : Maps)
    → is_due maps now k ≡ false
    → view (tx_from n i maps now) k ≡ view maps k
unfolding tx_from
tx_from-kept zero i now k maps d = refl
tx_from-kept (suc n) i now k maps d =
    let same = turn-kept maps now i k d in
    let due = due-same maps (tx_one maps now i) now k (tx_one-targets maps now i) same ∙ d in
    tx_from-kept n (suc i) now k (tx_one maps now i) due ∙ same

tx_from-targets : (n i now : ℕ) (maps : Maps) → (tx_from n i maps now).targets ≡ maps.targets
unfolding tx_from
tx_from-targets zero i now maps = refl
tx_from-targets (suc n) i now maps =
    tx_from-targets n (suc i) now (tx_one maps now i) ∙ tx_one-targets maps now i

-- A pass over all uplinks, for one whose probe is due.
module _ (maps : Maps) (now k : ℕ) (small : k < 256) (due : is_due maps now k ≡ true) where
  pub pass-view : view (hc_tx maps now) k ≡ (map_result (probed now) (maps.results k), now)
  pass-view = unfold hc_tx in tx_from-due 256 0 now k maps (omega arith) (omega arith) due

  pub pass-results : (hc_tx maps now).results k ≡ map_result (probed now) (maps.results k)
  pass-results = unfold view in ap (λ (w : View). w.0) pass-view

  pub pass-due :
      (next : ℕ)
      → now + hc_probe_interval_ns ≤ next
      → next < 2 ^ 64
      → is_due (hc_tx maps now) next k ≡ true
  pass-due next h b =
      let rate : (hc_tx maps now).rate_limit k ≡ now =
        unfold view in ap (λ (w : View). w.1) pass-view in
      let targets : (hc_tx maps now).targets ≡ maps.targets =
        unfold hc_tx in tx_from-targets 256 0 now maps in
      ground (arith, due, rate, targets)

-- A pass leaves an uplink alone whose probe is not due.
pub pass-kept :
    (maps : Maps) (now k : ℕ)
    → is_due maps now k ≡ false
    → (hc_tx maps now).results k ≡ maps.results k
pass-kept maps now k d =
    let same : view (hc_tx maps now) k ≡ view maps k =
      unfold hc_tx in tx_from-kept 256 0 now k maps d in
    unfold view in ap (λ (w : View). w.0) same
