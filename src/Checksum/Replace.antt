-- ===== src/Checksum/Replace.antt =====
-- The incremental updates of bpf/xdp_router.bpf.c against the checksum over the whole header.
use flux_wan.Base.{ℕ, ◌+◌, ◌*◌, ◌/◌, ◌%◌, ◌<◌, ◌^◌, arith}
use flux_wan.Checksum.{fold_carry, csum_replace2, csum_replace4, csum_replace_ttl}
use flux_wan.Checksum.Valid.{Accepted}

-- A header whose other words add up to `rest` stays accepted when a word is replaced.
pub csum_replace2-Accepted :
    (rest from to csum : ℕ)
    → rest < 2 ^ 30
    → from < 2 ^ 16
    → to < 2 ^ 16
    → csum < 2 ^ 16
    → Accepted (rest + from + csum)
    → 0 < rest + to
    → Accepted (rest + to + csum_replace2 csum from to)
unfolding fold_carry csum_replace2
csum_replace2-Accepted rest from to csum hr hf ht hc ok pos = omega arith

pub csum_replace4-Accepted :
    (rest from to csum : ℕ)
    → rest < 2 ^ 30
    → from < 2 ^ 32
    → to < 2 ^ 32
    → csum < 2 ^ 16
    → Accepted (rest + (from / 2 ^ 16 + from % 2 ^ 16) + csum)
    → 0 < rest + (to / 2 ^ 16 + to % 2 ^ 16)
    → Accepted (rest + (to / 2 ^ 16 + to % 2 ^ 16) + csum_replace4 csum from to)
unfolding fold_carry csum_replace4
csum_replace4-Accepted rest from to csum hr hf ht hc ok pos = omega arith

-- `csum_replace_ttl` adds 0x0100 to the checksum as it is loaded. On a little-endian machine that
-- is not the byte of the TTL: an accepted header with a TTL above 0 is never accepted after it.
pub csum_replace_ttl-rejected :
    (rest ttl proto check : ℕ)
    → rest < 2 ^ 30
    → 0 < ttl
    → ttl < 256
    → proto < 256
    → check < 2 ^ 16
    → Accepted (rest + (ttl + 256 * proto) + check)
    → ¬ Accepted
        (rest + ((csum_replace_ttl check ttl).1 + 256 * proto) + (csum_replace_ttl check ttl).0)
unfolding fold_carry csum_replace_ttl
csum_replace_ttl-rejected rest ttl proto check hr h0 ht hp hc ok = omega arith
