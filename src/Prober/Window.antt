-- ===== src/Prober/Window.antt =====
-- The moving windows of src/prober.c and the metrics that they give.
use flux_wan.Base.{
  ℕ, ◌+◌, ◌*◌, ◌/◌, ◌%◌, ◌≤◌, ◌≡◌, inl, inr, List, [], ◌∷◌, Bool, false, u16, ltb, Bool-cases,
  get_or, length, length-set, length-replicate, All, arith,
}
use native.Mathlib.Nat.{div-le_of_le-mul}
use flux_wan.Config.{Wan, Metrics, ProberConfig}
use flux_wan.Prober.{
  ProbeState, init, blank, take_slot, timed_out, credit, record_loss, count_losses, count_rtt,
  total_rtt, window_metrics,
}

-- The arrays keep the sizes of their declarations.
pub record IsSized (ps : ProbeState) : Type 0 where
  pub rtts : length ps.rtt_history ≡ 32
  pub losses : length ps.loss_history ≡ 32
  pub slots : length ps.pending_probes ≡ 16

pub init-IsSized : IsSized init
unfolding init
init-IsSized = record {
  rtts = length-replicate 32 0;
  losses = length-replicate 32 false;
  slots = length-replicate 16 blank;
}

record_loss-IsSized : (ps : ProbeState) → IsSized ps → IsSized (record_loss ps)
record_loss-IsSized ps h = record {
  rtts = h.rtts;
  losses = rw length-set h.losses;
  slots = h.slots;
}

pub take_slot-IsSized :
    (p : ProberConfig) (now_us : ℕ) (ps : ProbeState) → IsSized ps → IsSized (take_slot p now_us ps)
unfolding take_slot
take_slot-IsSized p now_us ps h =
    let bumped : ProbeState = record ps { current_seq = u16 (ps.current_seq + 1) } in
    let same : IsSized bumped = record { rtts = h.rtts; losses = h.losses; slots = h.slots } in
    let aged = record_loss-IsSized bumped same in
    elim (Bool-cases (timed_out p now_us (get_or ps.pending_probes (ps.current_seq % 16) blank))) [
      | inl b ↦
          rw b (record { rtts = aged.rtts; losses = aged.losses; slots = rw length-set aged.slots })
      | inr b ↦ rw b (record { rtts = h.rtts; losses = h.losses; slots = rw length-set h.slots })
    ]

pub credit-IsSized :
    (now_us seq sent_us : ℕ) (w : Wan) (ps : ProbeState)
    → IsSized ps
    → IsSized (credit now_us seq sent_us (w, ps)).1
unfolding credit
credit-IsSized now_us seq sent_us w ps h = record {
  rtts = rw length-set h.rtts;
  losses = rw length-set h.losses;
  slots = rw length-set h.slots;
}

count_losses-le : (ls : List Bool) → count_losses ls ≤ length ls
unfolding count_losses
count_losses-le [] = omega arith
count_losses-le (l ∷ ls) = ground (arith, count_losses-le ls)

total_rtt-le : (b : ℕ) (rs : List ℕ) → All (λ r. r ≤ b) rs → total_rtt rs ≤ count_rtt rs * b
unfolding total_rtt count_rtt
total_rtt-le b [] h = omega arith
total_rtt-le b (r ∷ rs) h =
    let ih = total_rtt-le b rs h.1 in
    elim (Bool-cases (ltb 0 r)) [
      | inl p ↦ rw p (omega arith)
      | inr p ↦ rw p (let z : r ≡ 0 = ground arith in omega arith)
    ]

-- On windows of the declared sizes, the loss is at most 100 percent, and neither the average nor
-- the jitter exceeds a bound on the round trips in the window and on the last two values.
pub window_metrics_bounds :
    (ps : ProbeState) (now_us b : ℕ) (m : Metrics)
    → IsSized ps
    → All (λ r. r ≤ b) ps.rtt_history
    → m.rtt_ms ≤ b
    → m.jitter_ms ≤ b
    → let m' = window_metrics ps now_us m in
      (m'.packet_loss ≤ 100 * 32) × (m'.rtt_ms ≤ b) × (m'.jitter_ms ≤ b)
unfolding window_metrics
window_metrics_bounds ps now_us b m h all hr hj =
    let loss = count_losses-le ps.loss_history in
    let avg : total_rtt ps.rtt_history / count_rtt ps.rtt_history ≤ b =
      div-le_of_le-mul (count_rtt ps.rtt_history) (total_rtt-le b ps.rtt_history all) in
    ground (arith, h.losses)
