-- ===== src/Prober/Packet.antt =====
-- The probe that src/prober.c sends carries a checksum that its receiver accepts.
use flux_wan.Base.{ℕ, ◌+◌, ◌^◌, ◌<◌, ◌≡◌, u16, u32, replicate, arith}
use flux_wan.Checksum.{sum_words, fold_carry, checksum, not16}
use flux_wan.Checksum.Valid.{Accepted, fold_carry-Accepted}
use flux_wan.Prober.{le_bytes, of_le_bytes, echo_packet, probe_packet, icmp_echo}

sum_words-echo_packet :
    (ck id seq now_us : ℕ)
    → sum_words (echo_packet icmp_echo ck id seq now_us)
      ≡ sum_words (echo_packet icmp_echo 0 id seq now_us) + ck
unfolding sum_words echo_packet replicate
sum_words-echo_packet ck id seq now_us = omega arith

sum_words-lt :
    (id seq now_us : ℕ)
    → id < 2 ^ 16
    → seq < 2 ^ 16
    → sum_words (echo_packet icmp_echo 0 id seq now_us) < 2 ^ 31
unfolding sum_words echo_packet replicate
sum_words-lt id seq now_us hi hs = omega arith

-- The checksum field of every probe with a sequence number of 16 bits makes the sum over its words
-- come out as all ones.
pub probe_packet-Accepted :
    (pid i seq now_us : ℕ) → seq < 2 ^ 16 → Accepted (sum_words (probe_packet pid i seq now_us))
unfolding probe_packet checksum
probe_packet-Accepted pid i seq now_us h =
    let id = u16 (pid + i) in
    let sum = sum_words (echo_packet icmp_echo 0 id seq now_us) in
    let small : sum < 2 ^ 31 = sum_words-lt id seq now_us (omega arith) h in
    let word : u32 sum ≡ sum = omega arith in
    rw (sum_words-echo_packet (not16 (fold_carry (u32 sum))) id seq now_us, word)
      (fold_carry-Accepted sum small)

pub of_le_bytes-le_bytes : (n : ℕ) → n < 2 ^ 64 → of_le_bytes (le_bytes 8 n) ≡ n
unfolding of_le_bytes le_bytes
of_le_bytes-le_bytes n h = omega arith
