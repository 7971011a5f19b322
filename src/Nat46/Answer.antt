-- ===== src/Nat46/Answer.antt =====
-- The answer to a packet that bpf/xdp_nat46.bpf.c has translated.
use flux_wan.Base.{ℕ, ◌+◌, ◌^◌, ◌<◌, ◌≡◌, subst, List, [], ◌∷◌, ◌++◌, u16, u32, arith}
use flux_wan.Checksum.{calc_ip_csum, sum_words}
use flux_wan.Checksum.Valid.{Accepted, carry_all-Accepted}
use flux_wan.Router.Rewrite.{word32}
use flux_wan.Nat46.{be_word, ipv4_header}

calc_ip_csum-lt : (header : List ℕ) → calc_ip_csum header < 2 ^ 16
unfolding calc_ip_csum
calc_ip_csum-lt header = omega arith

calc_ip_csum-Accepted :
    (header : List ℕ)
    → sum_words header < 2 ^ 31
    → Accepted (sum_words header + calc_ip_csum header)
unfolding calc_ip_csum
calc_ip_csum-Accepted header h =
    let word : u32 (sum_words header) ≡ sum_words header = omega arith in
    rw word (carry_all-Accepted (sum_words header) h)

-- The header with a checksum of zero.
abbrev cleared : ℕ → ℕ → ℕ → ℕ → List ℕ
cleared payload_len proto src dst =
    0x45 ∷ 0 ∷ be_word (u16 (payload_len + 20))
    ++ (0 ∷ 0 ∷ 0x40 ∷ 0 ∷ 64 ∷ proto ∷ [])
    ++ (0 ∷ 0 ∷ word32 src ++ word32 dst)

-- The IPv4 header that an answer is given has an accepted checksum.
pub ipv4_header-Accepted :
    (payload_len proto src dst : ℕ)
    → proto < 256
    → src < 2 ^ 32
    → dst < 2 ^ 32
    → Accepted (sum_words (ipv4_header payload_len proto src dst))
unfolding ipv4_header sum_words
ipv4_header-Accepted payload_len proto src dst hp hs hd =
    let header = cleared payload_len proto src dst in
    let lt = calc_ip_csum-lt header in
    let same : sum_words header + calc_ip_csum header
        ≡ sum_words (ipv4_header payload_len proto src dst) =
      omega arith in
    subst Accepted same (calc_ip_csum-Accepted header (omega arith))
