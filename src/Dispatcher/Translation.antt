-- ===== src/Dispatcher/Translation.antt =====
-- The checksum that `xdp_snat` of bpf/xdp_dispatcher.bpf.c writes: it covers the first 20 bytes of a
-- header.
use flux_wan.Base.{ℕ, ◌+◌, ◌%◌, ◌^◌, ◌<◌, ◌≡◌, ◌↔◌, subst, List, ◌∷◌, ◌++◌, take, drop, All, arith}
use flux_wan.Checksum.{fold_carry, sum_words, csum_fold_helper}
use flux_wan.Checksum.Valid.{Accepted, csum_fold_helper-Accepted}
use flux_wan.Router.Rewrite.{word32}
use flux_wan.Router.Rewrite.Snat.{IsByte}
use flux_wan.Dispatcher.{translated}

fold_carry-more :
    (sum more : ℕ)
    → sum < 2 ^ 30
    → more < 2 ^ 30
    → Accepted sum
    → (Accepted (sum + more) ↔ (more % 0xffff ≡ 0))
unfolding fold_carry
fold_carry-more sum more h k a = ((λ b. omega arith), (λ b. omega arith))

csum_fold_helper-lt : (sum : ℕ) → csum_fold_helper sum < 2 ^ 16
unfolding csum_fold_helper
csum_fold_helper-lt sum = omega arith

module _ (a0 a1 a2 a3 a4 a5 a6 a7 a8 a9 c0 c1 s0 s1 s2 s3 d0 d1 d2 d3 : ℕ) (rest : List ℕ) where
  abbrev pub header_of : List ℕ
  header_of =
      a0 ∷ a1 ∷ a2 ∷ a3 ∷ a4 ∷ a5 ∷ a6 ∷ a7 ∷ a8 ∷ a9 ∷ c0 ∷ c1 ∷ s0 ∷ s1 ∷ s2 ∷ s3 ∷ d0 ∷ d1 ∷ d2
      ∷ d3 ∷ rest

  -- The sum of the new header without its checksum.
  cleared_sum : ℕ → ℕ
  cleared_sum ip =
      sum_words (take 20 (take 10 header_of ++ (0 ∷ 0 ∷ word32 ip ++ drop 16 header_of)))

  cleared_sum-lt : (ip : ℕ) → All IsByte (take 20 header_of) → ip < 2 ^ 32 → cleared_sum ip < 2 ^ 20
  unfolding cleared_sum sum_words
  cleared_sum-lt ip bytes small = omega arith

  translated-sum :
      (ip : ℕ)
      → cleared_sum ip + csum_fold_helper (cleared_sum ip)
        ≡ sum_words (take 20 (translated header_of ip))
  unfolding cleared_sum translated sum_words
  translated-sum ip = omega (arith, csum_fold_helper-lt)

  translated-base :
      (ip : ℕ)
      → All IsByte (take 20 header_of)
      → ip < 2 ^ 32
      → Accepted (sum_words (take 20 (translated header_of ip)))
  translated-base ip bytes small =
      subst Accepted (translated-sum ip)
        (csum_fold_helper-Accepted (cleared_sum ip) (omega (arith, cleared_sum-lt ip bytes small)))

  -- The sum that a receiver takes over a translated header, its first 20 bytes and then its options,
  -- is accepted exactly if the words of the options add up to a multiple of 65535: it is without
  -- options. The words of the options add up to less than 2^30.
  pub translated-Accepted :
      (ip : ℕ) (options : List ℕ)
      → All IsByte (take 20 header_of)
      → ip < 2 ^ 32
      → sum_words options < 2 ^ 30
      → Accepted (sum_words (take 20 (translated header_of ip)) + sum_words options)
        ↔ (sum_words options % 0xffff ≡ 0)
  translated-Accepted ip options bytes small few =
      let low : sum_words (take 20 (translated header_of ip)) < 2 ^ 30 = omega (
        arith,
        translated-sum ip,
        csum_fold_helper-lt (cleared_sum ip),
        cleared_sum-lt ip bytes small,
      ) in
      fold_carry-more (sum_words (take 20 (translated header_of ip))) (sum_words options) low few
        (translated-base ip bytes small)
