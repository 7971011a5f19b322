-- ===== src/HealthCheck.antt =====
-- bpf/xdp_healthchecker.bpf.c: the state of each uplink from the probes that are counted and the
-- replies that arrive. The maps of one CPU are modelled; the clock is an input.
pub mod Passes
pub mod Verdicts
pub mod Silence
use flux_wan.Base.{
  put_at, ℕ, zero, suc, ◌+◌, ◌-◌, ◌*◌, ◌/◌, ◌%◌, List, [], ◌∷◌, Bool, true, false, not, ◌&&◌, ◌||◌,
  Option, none, some, u32, u64, sub64, ltb, leb, ◌==◌, if◌then◌else◌, get_elem?,
}
use flux_wan.Router.{htons, load8, load16, in_bounds}

abbrev pub hc_probe_magic_id : ℕ
hc_probe_magic_id = 0xF1A7

abbrev pub hc_probe_interval_ns : ℕ
hc_probe_interval_ns = 500_000_000

-- `struct hc_probe_key`, with the fields that are read.
pub record Target : Type 0 where
  pub gateway_ip : ℕ
  pub wan_ip : ℕ

-- `struct hc_result`.
pub record Result : Type 0 where
  pub last_probe_ns : ℕ
  pub last_reply_ns : ℕ
  pub rtt_us : ℕ
  pub is_alive : Bool
  pub probe_count : ℕ
  pub reply_count : ℕ
  pub miss_count : ℕ

pub record Maps : Type 0 where
  pub targets : List Target
  pub results : ℕ → Option Result
  pub rate_limit : ℕ → ℕ

abbrev pub replied : ℕ → Result → Result
replied now r = record r {
  rtt_us =
      if ltb 0 r.last_probe_ns && ltb r.last_probe_ns now
      then u32 ((now - r.last_probe_ns) / 1000)
      else r.rtt_us;
  last_reply_ns = now;
  is_alive = true;
  reply_count = u32 (r.reply_count + 1);
  miss_count = 0;
}

abbrev pub first_reply : ℕ → Result
first_reply now = record {
  last_probe_ns = 0;
  last_reply_ns = now;
  rtt_us = 0;
  is_alive = true;
  probe_count = 0;
  reply_count = 1;
  miss_count = 0;
}

abbrev pub on_reply : ℕ → Option Result → Result
on_reply now none = first_reply now
on_reply now (some r) = replied now r

-- Whether a packet is an echo reply with the ID of the probes, as `xdp_hc_rx` tests it.
unfoldable pub is_reply : List ℕ → Bool
is_reply buf =
    let icmph = 14 + load8 buf 14 % 16 * 4 in
    in_bounds buf 0 14
    && load16 buf 12 == htons 0x0800
    && in_bounds buf 14 20
    && load8 buf 23 == 1
    && in_bounds buf icmph 8
    && load8 buf icmph == 0
    && htons (load16 buf (icmph + 4)) == hc_probe_magic_id

-- The uplink of a reply: the low three bits of its sequence number.
unfoldable pub reply_index : List ℕ → ℕ
reply_index buf = htons (load16 buf (14 + load8 buf 14 % 16 * 4 + 6)) % 8

-- `xdp_hc_rx`. Both readings of the clock are `now`.
unfoldable pub hc_rx : Maps → ℕ → List ℕ → Maps
unfolding is_reply reply_index
hc_rx maps now buf =
    let idx = reply_index buf in
    if is_reply buf
    then record maps { results = put_at maps.results idx (some (on_reply now (maps.results idx))) }
    else maps

-- The result of an uplink whose probe falls due.
abbrev pub probed : ℕ → Result → Result
probed now r =
    let misses = if ltb r.miss_count 255 then r.miss_count + 1 else r.miss_count in
    record r {
      last_probe_ns = now;
      probe_count = u32 (r.probe_count + 1);
      miss_count = misses;
      is_alive = if leb 3 misses then false else r.is_alive;
    }

abbrev pub map_result : (Result → Result) → Option Result → Option Result
map_result f none = none
map_result f (some r) = some (f r)

abbrev pub has_target : Option Target → Bool
has_target none = false
has_target (some t) = not (t.gateway_ip == 0 || t.wan_ip == 0)

abbrev pub is_due : Maps → ℕ → ℕ → Bool
is_due maps now idx =
    leb hc_probe_interval_ns (sub64 now (maps.rate_limit idx))
    && has_target (get_elem? maps.targets idx)

-- One pass of the loop of `tc_hc_tx`.
unfoldable pub tx_one : Maps → ℕ → ℕ → Maps
tx_one maps now idx =
    if is_due maps now idx
    then record maps {
      rate_limit = put_at maps.rate_limit idx now;
      results = put_at maps.results idx (map_result (probed now) (maps.results idx));
    }
    else maps

unfoldable pub tx_from : ℕ → ℕ → Maps → ℕ → Maps
tx_from zero idx maps now = maps
tx_from (suc n) idx maps now = tx_from n (suc idx) (tx_one maps now idx) now

-- `tc_hc_tx`.
unfoldable pub hc_tx : Maps → ℕ → Maps
unfolding tx_from tx_one
hc_tx maps now = tx_from 256 0 maps now
