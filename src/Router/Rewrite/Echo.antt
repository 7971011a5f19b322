-- ===== src/Router/Rewrite/Echo.antt =====
-- The replies that bpf/xdp_router.bpf.c writes itself.
use flux_wan.Base.{ℕ, ◌+◌, ◌*◌, ◌^◌, ◌<◌, ◌≡◌, subst, List, ◌∷◌, get_or, take, All, arith}
use flux_wan.Checksum.{sum_words, csum_replace2, csum_fold_helper}
use flux_wan.Checksum.Valid.{Accepted, csum_fold_helper-Accepted}
use flux_wan.Checksum.Replace.{csum_replace2-Accepted}
use flux_wan.Router.Rewrite.{update_ip_checksum, echo_header, echo_icmp}
use flux_wan.Router.Rewrite.Snat.{IsByte, header_of}

csum_fold_helper-lt : (sum : ℕ) → csum_fold_helper sum < 2 ^ 16
unfolding csum_fold_helper
csum_fold_helper-lt sum = omega arith

csum_replace2-lt : (csum from to : ℕ) → csum_replace2 csum from to < 2 ^ 16
unfolding csum_replace2
csum_replace2-lt csum from to = omega arith

module _ (a0 a1 a2 a3 a4 a5 a6 a7 a8 a9 c0 c1 s0 s1 s2 s3 d0 d1 d2 d3 : ℕ) (rest : List ℕ) where
  abbrev header : List ℕ
  header = header_of a0 a1 a2 a3 a4 a5 a6 a7 a8 a9 c0 c1 s0 s1 s2 s3 d0 d1 d2 d3 rest

  -- The first 20 bytes of the IPv4 header of an echo reply have an accepted checksum, whatever the
  -- request has.
  pub echo_header-Accepted :
      All IsByte (take 20 header) → Accepted (sum_words (take 20 (echo_header header)))
  unfolding echo_header update_ip_checksum sum_words
  echo_header-Accepted bytes =
      let addresses = d0 + 256 * d1 + (d2 + 256 * d3 + (s0 + 256 * s1 + (s2 + 256 * s3 + 0))) in
      let sum =
        a0
        + 256 * a1
        + (a2 + 256 * a3 + (a4 + 256 * a5 + (a6 + 256 * a7 + (64 + 256 * a9 + (0 + addresses))))) in
      let lt = csum_fold_helper-lt sum in
      let same : sum + csum_fold_helper sum ≡ sum_words (take 20 (echo_header header)) =
        ground arith in
      subst Accepted same (csum_fold_helper-Accepted sum (ground arith))

-- The answer to an echo request has an accepted checksum if the request has one, and the words
-- behind the checksum add up to more than 0 and less than 2^29.
pub echo_icmp-Accepted :
    (c0 c1 : ℕ) (rest : List ℕ)
    → IsByte c0
    → IsByte c1
    → 0 < sum_words rest
    → sum_words rest < 2 ^ 29
    → Accepted (sum_words (8 ∷ 0 ∷ c0 ∷ c1 ∷ rest))
    → Accepted (sum_words (echo_icmp (8 ∷ 0 ∷ c0 ∷ c1 ∷ rest)))
unfolding echo_icmp sum_words get_or
echo_icmp-Accepted c0 c1 rest h0 h1 pos bounded ok =
    let csum = c0 + 256 * c1 in
    let lt = csum_replace2-lt csum 8 0 in
    let sum_is : sum_words (8 ∷ 0 ∷ c0 ∷ c1 ∷ rest) ≡ sum_words rest + 8 + csum = omega arith in
    let sum_to : sum_words rest + 0 + csum_replace2 csum 8 0
        ≡ sum_words (echo_icmp (8 ∷ 0 ∷ c0 ∷ c1 ∷ rest)) =
      omega arith in
    subst Accepted sum_to (
      csum_replace2-Accepted (sum_words rest) 8 0 csum (omega arith) (omega arith) (omega arith)
        (omega arith) (subst Accepted sum_is ok) (omega arith))
