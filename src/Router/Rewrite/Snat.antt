-- ===== src/Router/Rewrite/Snat.antt =====
-- Source NAT in bpf/xdp_router.bpf.c.
use flux_wan.Base.{
  ℕ, ◌+◌, ◌*◌, ◌/◌, ◌%◌, ◌^◌, ◌<◌, ◌≡◌, ◌≢◌, subst, List, ◌∷◌, get_or, take, drop, All, arith,
}
use flux_wan.Checksum.{fold_carry, sum_words, csum_replace4}
use flux_wan.Checksum.Valid.{Accepted}
use flux_wan.Checksum.Replace.{csum_replace4-Accepted}
use flux_wan.Router.{load8, load16, load32}
use flux_wan.Router.Rewrite.{snat_header}

abbrev pub IsByte : ℕ → Type 0
IsByte b = b < 256

-- What a receiver adds up for the checksum of TCP or UDP: the pseudo-header, whose length word is
-- `len`, and the segment with its checksum.
abbrev pub transport_sum : List ℕ → ℕ → ℕ
transport_sum h len =
    load16 h 12
    + load16 h 14
    + load16 h 16
    + load16 h 18
    + 256 * load8 h 9
    + len
    + sum_words (drop 20 h)

csum_replace4-lt : (csum from to : ℕ) → csum_replace4 csum from to < 2 ^ 16
unfolding csum_replace4
csum_replace4-lt csum from to = omega arith

module _ (a0 a1 a2 a3 a4 a5 a6 a7 a8 a9 c0 c1 s0 s1 s2 s3 d0 d1 d2 d3 : ℕ) (rest : List ℕ) where
  -- A header and what follows it: `c` are the bytes of the checksum, `s` of the source address.
  abbrev pub header_of : List ℕ
  header_of =
      a0 ∷ a1 ∷ a2 ∷ a3 ∷ a4 ∷ a5 ∷ a6 ∷ a7 ∷ a8 ∷ a9 ∷ c0 ∷ c1 ∷ s0 ∷ s1 ∷ s2 ∷ s3 ∷ d0 ∷ d1 ∷ d2
      ∷ d3 ∷ rest

  abbrev others : ℕ
  others =
      a0
      + 256 * a1
      + (a2 + 256 * a3)
      + (a4 + 256 * a5)
      + (a6 + 256 * a7)
      + (a8 + 256 * a9)
      + (d0 + 256 * d1)
      + (d2 + 256 * d3)

  -- An IPv4 header of 20 bytes whose checksum is accepted has an accepted checksum after the
  -- translation, if its words other than the checksum and the source address are not all zero.
  pub snat_header-Accepted :
      (ip : ℕ)
      → All IsByte (take 20 header_of)
      → ip < 2 ^ 32
      → 0 < others
      → Accepted (sum_words (take 20 header_of))
      → Accepted (sum_words (take 20 (snat_header header_of ip)))
  unfolding snat_header sum_words get_or
  snat_header-Accepted ip bytes small pos ok =
      let from = load32 header_of 12 in
      let check = csum_replace4 (load16 header_of 10) from ip in
      let lt = csum_replace4-lt (load16 header_of 10) from ip in
      let sum_is : sum_words (take 20 header_of)
          ≡ others + (from / 2 ^ 16 + from % 2 ^ 16) + load16 header_of 10 =
        ground arith in
      let sum_to : others + (ip / 2 ^ 16 + ip % 2 ^ 16) + check
          ≡ sum_words (take 20 (snat_header header_of ip)) =
        ground arith in
      subst Accepted sum_to (
        csum_replace4-Accepted others from ip (load16 header_of 10) (ground arith) (ground arith)
          small (ground arith) (subst Accepted sum_is ok) (omega arith))

  -- The translation leaves the segment's checksum as it was: if that was accepted, and the two
  -- source addresses have sums of their words that differ modulo 65535, it is not accepted after
  -- the translation. The segment's words add up to less than 2^29.
  pub snat_header-transport :
      (ip len : ℕ)
      → All IsByte (take 20 header_of)
      → ip < 2 ^ 32
      → len < 2 ^ 16
      → sum_words rest < 2 ^ 29
      → (ip / 2 ^ 16 + ip % 2 ^ 16) % 0xffff ≢ (load16 header_of 12 + load16 header_of 14) % 0xffff
      → Accepted (transport_sum header_of len)
      → ¬ Accepted (transport_sum (snat_header header_of ip) len)
  unfolding snat_header get_or fold_carry
  snat_header-transport ip len bytes small short bounded differ ok = ground arith
