-- ===== src/HealthCheck/Verdicts.antt =====
-- What the verdicts of bpf/xdp_healthchecker.bpf.c rest on.
use flux_wan.Base.{
  ℕ, zero, suc, ◌+◌, ◌≤◌, ◌<◌, ◌≡◌, refl, ap, inl, inr, List, [], ◌∷◌, Bool, true, ◌&&◌, Option,
  none, some, Bool-cases, ltb, ◌==◌, ==_iff, if◌then◌else◌, arith,
}
use flux_wan.Router.Dispatch.{same_bit}
use flux_wan.HealthCheck.Passes.{pass-results, pass-kept}
use flux_wan.HealthCheck.{
  is_reply, is_due, Result, Maps, on_reply, reply_index, hc_rx, probed, map_result, tx_one, tx_from,
  hc_tx,
}

-- What happens to the maps: a packet that arrives at a time, or a pass of the probes.
pub data Event : Type 0 where
  reply : ℕ → List ℕ → Event
  pass : ℕ → Event

unfoldable pub step : Maps → Event → Maps
step maps (reply now buf) = hc_rx maps now buf
step maps (pass now) = hc_tx maps now

unfoldable pub run : Maps → List Event → Maps
run maps [] = maps
run maps (e ∷ es) = run (step maps e) es

-- The probes of an uplink that are counted since its last reply, after one more event and after a
-- run; they were `n` before. A reply is one that the program takes as a reply of this uplink, and a
-- pass counts a probe if it is due.
unfoldable pub missed_after : Maps → ℕ → ℕ → Event → ℕ
missed_after maps k n (reply now buf) = if is_reply buf && reply_index buf == k then 0 else n
missed_after maps k n (pass now) = if is_due maps now k then n + 1 else n

unfoldable pub missed : Maps → ℕ → ℕ → List Event → ℕ
unfolding missed_after step
missed maps k n [] = n
missed maps k n (e ∷ es) = missed (step maps e) k (missed_after maps k n e) es

-- A result that counts `n` missed probes, up to 255, and is alive exactly if they are fewer than
-- three.
abbrev pub counts : Option Result → ℕ → Bool
counts none n = true
counts (some r) n = r.miss_count == (if ltb n 255 then n else 255) && same_bit r.is_alive (ltb n 3)

probed-counts :
    (now n : ℕ) (o : Option Result)
    → counts o n ≡ true
    → counts (map_result (probed now) o) (n + 1) ≡ true
probed-counts now n none h = refl
probed-counts now n (some r) h = ground arith

replied-counts : (now : ℕ) (o : Option Result) → counts (some (on_reply now o)) 0 ≡ true
replied-counts now none = refl
replied-counts now (some r) = refl

hc_rx-results :
    (maps : Maps) (now k : ℕ) (buf : List ℕ)
    → (hc_rx maps now buf).results k ≡ (
        if is_reply buf && reply_index buf == k
        then some (on_reply now (maps.results k))
        else maps.results k)
hc_rx-results maps now k buf = elim (Bool-cases (is_reply buf)) [
  | inl b ↦ elim (Bool-cases (reply_index buf == k)) [
    | inl e ↦
        unfold hc_rx in
        rw (b, e)
          (ap (λ j. some (on_reply now (maps.results j))) ((==_iff (reply_index buf) k).0 e))
    | inr e ↦ unfold hc_rx in rw (b, e) refl
  ]
  | inr b ↦ unfold hc_rx in rw b refl
]

step-counts :
    (maps : Maps) (e : Event) (k n : ℕ)
    → k < 256
    → counts (maps.results k) n ≡ true
    → counts ((step maps e).results k) (missed_after maps k n e) ≡ true
unfolding step missed_after
step-counts maps (reply now buf) k n small h =
    rw (hc_rx-results maps now k buf) (elim (Bool-cases (is_reply buf && reply_index buf == k)) [
      | inl b ↦ rw b (replied-counts now (maps.results k))
      | inr b ↦ rw b h
    ])
step-counts maps (pass now) k n small h = elim (Bool-cases (is_due maps now k)) [
  | inl b ↦ rw (b, pass-results maps now k small b) (probed-counts now n (maps.results k) h)
  | inr b ↦ rw (b, pass-kept maps now k b) h
]

-- In whatever order replies and passes come, each verdict follows from the probes that were counted
-- since the last reply of its uplink: it counts them, up to 255, and the uplink is alive exactly if
-- they are fewer than three. Before, `n` were counted and the verdict, if there was one, said so.
-- The index of the uplink is below 256.
pub run-counts :
    (maps : Maps) (es : List Event) (k n : ℕ)
    → k < 256
    → counts (maps.results k) n ≡ true
    → counts ((run maps es).results k) (missed maps k n es) ≡ true
unfolding run missed
run-counts maps [] k n small h = h
run-counts maps (e ∷ es) k n small h =
    run-counts (step maps e) es k (missed_after maps k n e) small (step-counts maps e k n small h)

-- An uplink from the ninth on.
tx_one-none :
    (maps : Maps) (now i k : ℕ) → maps.results k ≡ none → (tx_one maps now i).results k ≡ none
unfolding tx_one
tx_one-none maps now i k h = ground arith

tx_from-none :
    (n i now k : ℕ) (maps : Maps) → maps.results k ≡ none → (tx_from n i maps now).results k ≡ none
unfolding tx_from
tx_from-none zero i now k maps h = h
tx_from-none (suc n) i now k maps h =
    tx_from-none n (suc i) now k (tx_one maps now i) (tx_one-none maps now i k h)

step-none :
    (maps : Maps) (e : Event) (k : ℕ)
    → 8 ≤ k
    → maps.results k ≡ none
    → (step maps e).results k ≡ none
unfolding step hc_tx hc_rx reply_index
step-none maps (reply now buf) k b h = ground arith
step-none maps (pass now) k b h = tx_from-none 256 0 now k maps h

-- Whatever replies arrive and however often the probes are counted, an uplink with an index of
-- eight or more never gets a verdict.
pub run-none :
    (maps : Maps) (es : List Event) (k : ℕ)
    → 8 ≤ k
    → maps.results k ≡ none
    → (run maps es).results k ≡ none
unfolding run
run-none maps [] k b h = h
run-none maps (e ∷ es) k b h = run-none (step maps e) es k b (step-none maps e k b h)
