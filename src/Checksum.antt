-- ===== src/Checksum.antt =====
-- The Internet checksums of src/prober.c and bpf/xdp_router.bpf.c and of `calc_ip_csum` in
-- bpf/xdp_nat46.bpf.c. The machine is little-endian, as the x86_64, ARM64 and MT7621 targets are:
-- a 16-bit word is its first byte and 256 times its second.
pub mod Valid
pub mod Replace
use flux_wan.Base.{
  ℕ, zero, suc, ◌+◌, ◌-◌, ◌*◌, ◌/◌, ◌%◌, List, [], ◌∷◌, Bool, u16, u32, u64, if◌then◌else◌, ◌==◌,
  ltb,
}

-- The words that a loop `sum += *buf++` adds up, with a last odd byte.
unfoldable pub sum_words : List ℕ → ℕ
sum_words [] = 0
sum_words (a ∷ []) = a
sum_words (a ∷ b ∷ rest) = a + 256 * b + sum_words rest

abbrev pub not16 : ℕ → ℕ
not16 x = 0xffff - x % 0x10000

-- `checksum` of src/prober.c.
unfoldable pub fold_carry : ℕ → ℕ
fold_carry sum = let s = sum / 0x10000 + sum % 0x10000 in u16 (s + s / 0x10000)

unfoldable pub checksum : List ℕ → ℕ
checksum bytes = not16 (fold_carry (u32 (sum_words bytes)))

-- One step of `csum = (csum & 0xffff) + (csum >> 16)`.
abbrev pub carry : ℕ → ℕ
carry c = c % 0x10000 + c / 0x10000

unfoldable pub csum_replace2 : ℕ → ℕ → ℕ → ℕ
csum_replace2 csum from to = not16 (carry (carry (u32 (not16 csum + not16 from + to))))

unfoldable pub csum_replace4 : ℕ → ℕ → ℕ → ℕ
csum_replace4 csum from to =
    let c =
      not16 csum + not16 (from / 0x10000) + not16 (from % 0x10000) + to / 0x10000 + to % 0x10000 in
    not16 (carry (carry (u32 c)))

-- `csum_replace_ttl`: the new checksum and the new TTL.
unfoldable pub csum_replace_ttl : ℕ → ℕ → ℕ × ℕ
csum_replace_ttl check ttl = (u16 (carry (u32 (check + 0x0100))), (ttl + 255) % 256)

abbrev carry_if : ℕ → ℕ
carry_if c = if c / 0x10000 == 0 then c else carry c

unfoldable pub csum_fold_helper : ℕ → ℕ
csum_fold_helper csum = not16 (carry_if (carry_if (carry_if (carry_if csum))))

-- The loop of `calc_ip_csum`, on fuel.
unfoldable pub carry_all : ℕ → ℕ → ℕ
carry_all zero c = c
carry_all (suc fuel) c = let next = carry_all fuel (carry c) in if c / 0x10000 == 0 then c else next

-- `calc_ip_csum` adds ten words in a `__u32`.
unfoldable pub calc_ip_csum : List ℕ → ℕ
unfolding carry_all
calc_ip_csum header = not16 (carry_all 3 (u32 (sum_words header)))
