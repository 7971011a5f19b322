-- ===== src/Prober/Reply.antt =====
-- `prober_handle_packet` (src/prober.c) on the reply to a probe.
use flux_wan.Base.{
  ℕ, suc, ◌+◌, ◌-◌, ◌*◌, ◌^◌, ◌≤◌, ◌<◌, ◌≡◌, refl, ap, ◌∙◌, List, [], ◌∷◌, ◌++◌, false, u16, leb,
  get_or, length, length-append, arith, replicate,
}
use flux_wan.Config.{Wan}
use flux_wan.Prober.{
  ProbeState, Echo, echo_at, on_echo, of_le_bytes, echo_packet, icmp_echoreply, slice, credit_at,
  handle_packet,
}
use flux_wan.Prober.Packet.{of_le_bytes-le_bytes}

get_or-append : (h p : List ℕ) (n k : ℕ) → length h ≡ n → get_or (h ++ p) (n + k) 0 ≡ get_or p k 0
unfolding get_or
get_or-append [] p n k e = let z : n + k ≡ k = omega arith in rw z
get_or-append (x ∷ h) p n k e =
    let z : n + k ≡ suc (n - 1 + k) = omega arith in
    rw z (get_or-append h p (n - 1) k (omega arith))

slice-append : (h p : List ℕ) (n i k : ℕ) → length h ≡ n → slice (n + i) k (h ++ p) ≡ slice i k p
unfolding slice
slice-append [] p n i k e = let z : n + i ≡ i = omega arith in rw z
slice-append (x ∷ h) p n i k e =
    let z : n + i ≡ suc (n - 1 + i) = omega arith in
    rw z (slice-append h p (n - 1) i k (omega arith))

stamp_lem :
    (ck id seq sent_us : ℕ)
    → sent_us < 2 ^ 64
    → of_le_bytes (slice 8 8 (echo_packet icmp_echoreply ck id seq sent_us)) ≡ sent_us
unfolding slice echo_packet replicate
stamp_lem ck id seq sent_us h = of_le_bytes-le_bytes sent_us h

length-echo_packet :
    (ck id seq sent_us : ℕ) → length (echo_packet icmp_echoreply ck id seq sent_us) ≡ 64
unfolding echo_packet replicate
length-echo_packet ck id seq sent_us = refl

fields_lem :
    (ck id seq sent_us : ℕ)
    → let p = echo_packet icmp_echoreply ck id seq sent_us in
      let e : Echo = record {
        type = get_or p 0 0;
        id = get_or p 4 0 * 256 + get_or p 5 0;
        seq = get_or p 6 0 * 256 + get_or p 7 0;
        stamp = sent_us;
      } in
      e ≡ record { type = icmp_echoreply; id = id; seq = seq; stamp = sent_us }
unfolding echo_packet get_or
fields_lem ck id seq sent_us = ground arith

-- A reply is the header, whose first byte says 20 bytes, and the echoed packet.
abbrev pub reply : List ℕ → ℕ → ℕ → ℕ → ℕ → List ℕ
reply header ck id seq sent_us = header ++ echo_packet icmp_echoreply ck id seq sent_us

first_byte : (header p : List ℕ) → length header ≡ 20 → get_or (header ++ p) 0 0 ≡ get_or header 0 0
unfolding get_or
first_byte [] p h = absurd (omega arith)
first_byte (x ∷ header) p h = refl

-- The fields of a reply are those of the probe.
echo_at-reply :
    (header : List ℕ) (ck id seq sent_us : ℕ)
    → length header ≡ 20
    → sent_us < 2 ^ 64
    → echo_at 20 (reply header ck id seq sent_us)
      ≡ record { type = icmp_echoreply; id = id; seq = seq; stamp = sent_us }
unfolding echo_at
echo_at-reply header ck id seq sent_us size ht =
    let p = echo_packet icmp_echoreply ck id seq sent_us in
    let at = λ (k : ℕ). get_or-append header p 20 k size in
    let stamp : of_le_bytes (slice 28 8 (header ++ p)) ≡ sent_us =
      ap of_le_bytes (slice-append header p 20 8 8 size) ∙ stamp_lem ck id seq sent_us ht in
    rw (at 0, at 4, at 5, at 6, at 7, stamp) (fields_lem ck id seq sent_us)

-- The reply to the probe that was sent for a WAN at a time, with an IP header of 20 bytes and at
-- most 256 WANs, is credited to that WAN with that time, however late it is.
pub handle_packet-reply :
    (pid now_us i ck seq sent_us : ℕ) (header : List ℕ) (wans : List Wan) (states : List ProbeState)
    → length header ≡ 20
    → get_or header 0 0 ≡ 0x45
    → pid < 2 ^ 16
    → i < length wans
    → length wans ≤ 256
    → sent_us < 2 ^ 64
    → handle_packet pid now_us (reply header ck (u16 (pid + i)) seq sent_us) (wans, states)
      ≡ credit_at now_us seq sent_us i (wans, states)
unfolding handle_packet
handle_packet-reply pid now_us i ck seq sent_us header wans states size first hp hi few ht =
    let id = u16 (pid + i) in
    let p = echo_packet icmp_echoreply ck id seq sent_us in
    let width : length (header ++ p) ≡ 84 =
      length-append header p ∙ rw (size, length-echo_packet ck id seq sent_us) in
    let start : get_or (header ++ p) 0 0 ≡ 0x45 = first_byte header p size ∙ first in
    let whose : u16 (id + 0x10000 - pid) ≡ i = omega arith in
    let known : leb (length wans) i ≡ false = ground arith in
    rw (width, start, echo_at-reply header ck id seq sent_us size ht)
      (unfold on_echo in rw (whose, known))
