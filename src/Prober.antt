-- ===== src/Prober.antt =====
-- src/prober.c: ICMP probes, their moving windows, and the health verdict. What the
-- system answers about sockets and the datagrams that arrive are inputs, and the probes that are
-- sent are recorded.
pub mod Packet
pub mod Reply
pub mod Window
pub mod Report
pub mod Pass
use flux_wan.Base.{
  ℕ, zero, suc, ◌+◌, ◌-◌, ◌*◌, ◌/◌, ◌%◌, List, [], ◌∷◌, ◌++◌, Bool, true, false, not, ◌&&◌, ◌||◌,
  Option, none, some, u16, u32, u64, sub64, ltb, leb, ◌==◌, if◌then◌else◌, get_or, set, replicate,
  length,
}
use flux_wan.Checksum.{checksum}
use flux_wan.Config.{WanState, down, degraded, healthy, Wan, Metrics, ProberConfig}

abbrev pub probe_window_size : ℕ
probe_window_size = 32

pub record Slot : Type 0 where
  pub seq : ℕ
  pub send_time_us : ℕ
  pub received : Bool

pub record ProbeState : Type 0 where
  pub current_seq : ℕ  -- uint16_t
  pub rtt_history : List ℕ
  pub loss_history : List Bool
  pub history_idx : ℕ  -- uint32_t
  pub pending_probes : List Slot

abbrev pub blank : Slot
blank = record { seq = 0; send_time_us = 0; received = false }

-- What `prober_init` leaves of `calloc`.
unfoldable pub init : ProbeState
init = record {
  current_seq = 1;
  rtt_history = replicate 32 0;
  loss_history = replicate 32 false;
  history_idx = 0;
  pending_probes = replicate 16 blank;
}

-- A result at the moving position of the two windows.
abbrev pub record_loss : ProbeState → ProbeState
record_loss ps = record ps {
  loss_history = set ps.loss_history (ps.history_idx % 32) true;
  history_idx = u32 (ps.history_idx + 1);
}

abbrev pub record_rtt : ProbeState → ℕ → ProbeState
record_rtt ps rtt = record ps {
  rtt_history = set ps.rtt_history (ps.history_idx % 32) rtt;
  loss_history = set ps.loss_history (ps.history_idx % 32) false;
  history_idx = u32 (ps.history_idx + 1);
}

-- The probe of the slot was sent, not answered, and its time is over.
unfoldable pub timed_out : ProberConfig → ℕ → Slot → Bool
timed_out p now_us s =
    ltb 0 s.send_time_us
    && (not s.received && leb p.timeout_ms (sub64 now_us s.send_time_us / 1000))

-- The first half of the loop body of `prober_send_probes`.
unfoldable pub take_slot : ProberConfig → ℕ → ProbeState → ProbeState
take_slot p now_us ps =
    let seq = ps.current_seq in
    let slot = seq % 16 in
    let bumped : ProbeState = record ps { current_seq = u16 (seq + 1) } in
    let aged =
      if timed_out p now_us (get_or ps.pending_probes slot blank)
      then record_loss bumped
      else bumped in
    record aged {
      pending_probes =
          set aged.pending_probes slot
            (record { seq = seq; send_time_us = now_us; received = false });
    }

-- The bytes of a `uint64_t` in memory.
unfoldable pub le_bytes : ℕ → ℕ → List ℕ
le_bytes zero n = []
le_bytes (suc k) n = n % 256 ∷ le_bytes k (n / 256)

unfoldable pub of_le_bytes : List ℕ → ℕ
of_le_bytes [] = 0
of_le_bytes (b ∷ bs) = b + 256 * of_le_bytes bs

-- The echo request of 64 bytes; `ck` is its checksum field.
unfoldable pub echo_packet : ℕ → ℕ → ℕ → ℕ → ℕ → List ℕ
unfolding le_bytes
echo_packet type ck id seq now_us =
    type
    ∷ 0
    ∷ ck % 256
    ∷ ck / 256
    ∷ id / 256
    ∷ id % 256
    ∷ seq / 256
    ∷ seq % 256
    ∷ (le_bytes 8 now_us ++ replicate 48 0)

abbrev pub icmp_echo : ℕ
icmp_echo = 8

abbrev pub icmp_echoreply : ℕ
icmp_echoreply = 0

unfoldable pub probe_packet : ℕ → ℕ → ℕ → ℕ → List ℕ
probe_packet pid i seq now_us =
    let id = u16 (pid + i) in
    echo_packet icmp_echo (checksum (echo_packet icmp_echo 0 id seq now_us)) id seq now_us

-- The sums over the windows.
unfoldable pub total_rtt : List ℕ → ℕ
total_rtt [] = 0
total_rtt (r ∷ rs) = r + total_rtt rs

unfoldable pub count_rtt : List ℕ → ℕ
count_rtt [] = 0
count_rtt (r ∷ rs) = if ltb 0 r then suc (count_rtt rs) else count_rtt rs

unfoldable pub count_losses : List Bool → ℕ
count_losses [] = 0
count_losses (l ∷ ls) = if l then suc (count_losses ls) else count_losses ls

abbrev abs_diff : ℕ → ℕ → ℕ
abs_diff a b = if leb b a then a - b else b - a

-- The metrics that the second half of the loop body stores.
unfoldable pub window_metrics : ProbeState → ℕ → Metrics → Metrics
window_metrics ps now_us m =
    let count = count_rtt ps.rtt_history in
    let avg_rtt = u32 (total_rtt ps.rtt_history / count) in
    let timed : Metrics =
      if ltb 0 count
      then record m { jitter_ms = abs_diff avg_rtt m.rtt_ms; rtt_ms = avg_rtt }
      else m in
    record timed {
      packet_loss = count_losses ps.loss_history * 100;
      last_probe_time = now_us / 1000;
    }

unfoldable pub verdict : ProberConfig → Metrics → WanState
verdict p m =
    if ltb p.max_acceptable_loss m.packet_loss
    then down
    else (if ltb p.max_acceptable_rtt_ms m.rtt_ms then degraded else healthy)

abbrev pub be16 : List ℕ → ℕ → ℕ
be16 buf i = get_or buf i 0 * 256 + get_or buf (i + 1) 0

unfoldable pub slice : ℕ → ℕ → List ℕ → List ℕ
slice zero k [] = []
slice zero zero (x ∷ xs) = []
slice zero (suc k) (x ∷ xs) = x ∷ slice zero k xs
slice (suc i) k [] = []
slice (suc i) k (x ∷ xs) = slice i k xs

abbrev pub measure : ℕ → ℕ → ℕ
measure now_us send_time_us =
    let rounded = u32 (u64 (now_us - send_time_us + 500) / 1000) in
    if ltb 0 send_time_us && leb send_time_us now_us
    then (if rounded == 0 then 1 else rounded)
    else 1

-- What a reply with this sequence number and send time does to the WAN that it belongs to.
unfoldable pub credit : ℕ → ℕ → ℕ → Wan × ProbeState → Wan × ProbeState
credit now_us seq send_time_us (w, ps) =
    let rtt = measure now_us send_time_us in
    let ps' = record_rtt ps rtt in
    (
      record w { metrics = record (w.metrics) { rtt_ms = rtt; last_probe_time = now_us / 1000 } },
      record ps' {
        pending_probes =
            set ps.pending_probes (seq % 16)
              (record (get_or ps.pending_probes (seq % 16) blank) { received = true });
      },
    )

unfoldable pub credit_at : ℕ → ℕ → ℕ → ℕ → List Wan × List ProbeState → List Wan × List ProbeState
credit_at now_us seq send_time_us i ([], states) = ([], states)
credit_at now_us seq send_time_us i (w ∷ ws, []) = (w ∷ ws, [])
credit_at now_us seq send_time_us zero (w ∷ ws, s ∷ states) =
    let r = credit now_us seq send_time_us (w, s) in (r.0 ∷ ws, r.1 ∷ states)
credit_at now_us seq send_time_us (suc i) (w ∷ ws, s ∷ states) =
    let r = credit_at now_us seq send_time_us i (ws, states) in (w ∷ r.0, s ∷ r.1)

-- The fields of the ICMP header behind an IP header of `ip_hl` bytes.
pub record Echo : Type 0 where
  pub type : ℕ
  pub id : ℕ
  pub seq : ℕ
  pub stamp : ℕ  -- the embedded send time

unfoldable pub echo_at : ℕ → List ℕ → Echo
unfolding of_le_bytes slice
echo_at ip_hl buf = record {
  type = get_or buf ip_hl 0;
  id = be16 buf (ip_hl + 4);
  seq = be16 buf (ip_hl + 6);
  stamp = of_le_bytes (slice (ip_hl + 8) 8 buf);
}

-- The rest of `prober_handle_packet` on these fields; `stamped` says that the datagram is long
-- enough for the send time.
unfoldable pub on_echo :
    ℕ → ℕ → Bool → Echo → List Wan × List ProbeState → List Wan × List ProbeState
on_echo pid now_us stamped e st =
    let diff = u16 (e.id + 0x10000 - pid) in
    let pending = (get_or st.1 diff init).pending_probes in
    let send_time_us =
      if stamped then e.stamp else (get_or pending (e.seq % 16) blank).send_time_us in
    if not (e.type == icmp_echoreply) || leb (length st.0) diff
    then st
    else credit_at now_us e.seq send_time_us diff st

unfoldable pub handle_packet :
    ℕ → ℕ → List ℕ → List Wan × List ProbeState → List Wan × List ProbeState
handle_packet pid now_us buf st =
    let ip_hl = get_or buf 0 0 % 16 * 4 in
    if ltb (length buf) 28 || ltb (length buf) (ip_hl + 8)
    then st
    else on_echo pid now_us (leb (ip_hl + 16) (length buf)) (echo_at ip_hl buf) st
