-- ===== src/Dns64/Question.antt =====
-- The question of a DNS message in src/dns64_daemon.c: its hash and its type. A message is the list
-- of its bytes; the header has 12.
pub mod Hash
use flux_wan.Base.{
  ℕ, zero, suc, ◌+◌, ◌-◌, ◌*◌, List, [], ◌∷◌, ◌&&◌, bit_xor, u8, u32, ltb, leb, ◌==◌, if◌then◌else◌,
  length, get_or, drop,
}

-- `tolower` in the C locale.
abbrev pub tolower : ℕ → ℕ
tolower c = if leb b'A' c && leb c b'Z' then c + 32 else c

-- One round of FNV-1a.
unfoldable pub fnv : ℕ → ℕ → ℕ
fnv hash c = u32 (bit_xor hash c * 16777619)

-- The loop over the labels, with the bytes that are left of the current one, and the rest of the
-- message behind the zero byte that ends the name.
unfoldable pub hash_name : ℕ → ℕ → List ℕ → ℕ × List ℕ
hash_name left hash [] = (hash, [])
hash_name zero hash (c ∷ p) = if c == 0 then (hash, p) else hash_name c hash p
hash_name (suc left) hash (c ∷ p) = hash_name left (fnv hash (tolower c)) p

-- QTYPE and QCLASS.
unfoldable pub hash_bytes : ℕ → ℕ → List ℕ → ℕ
hash_bytes zero hash p = hash
hash_bytes (suc n) hash [] = hash
hash_bytes (suc n) hash (c ∷ p) = hash_bytes n (fnv hash c) p

unfoldable pub dns_compute_question_hash : List ℕ → ℕ
unfolding hash_name hash_bytes fnv
dns_compute_question_hash buf =
    let (hash, p) = hash_name 0 2166136261 (drop 12 buf) in
    if leb (length buf) 12 then 0 else hash_bytes 4 hash p

-- The walk of the worker over the name: what stands behind it, nothing if it runs out of the
-- message.
unfoldable pub after_name : ℕ → List ℕ → List ℕ
after_name left [] = []
after_name zero (c ∷ q) = if c == 0 then q else after_name c q
after_name (suc left) (c ∷ q) = after_name left q

unfoldable pub qtype_of : List ℕ → ℕ
unfolding after_name
qtype_of buf =
    let q = after_name 0 (drop 12 buf) in
    if leb 4 (length q) then get_or q 0 0 * 0x100 + get_or q 1 0 else 0

-- The size of the message up to its first question.
unfoldable pub question_end : List ℕ → ℕ
unfolding after_name
question_end buf = 12 + (length (drop 12 buf) - length (after_name 0 (drop 12 buf))) + 4
