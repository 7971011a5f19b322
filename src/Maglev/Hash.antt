-- ===== src/Maglev/Hash.antt =====
-- The hashes of src/wan_manager.c that place a WAN on the ring.
use flux_wan.Base.{ℕ, ◌+◌, ◌-◌, ◌*◌, ◌^◌, List, [], ◌∷◌, bit_or, bit_xor, u64, shr}

abbrev pub rotl64 : ℕ → ℕ → ℕ
rotl64 x r = bit_or (u64 (x * 2 ^ r)) (shr x (64 - r))

abbrev c1 : ℕ
c1 = 0x87c37b91114253d5

abbrev c2 : ℕ
c2 = 0x4cf5ad432745937f

abbrev pub fmix64 : ℕ → ℕ
fmix64 h =
    let a = u64 (bit_xor h (shr h 33) * 0xff51afd7ed558ccd) in
    let b = u64 (bit_xor a (shr a 33) * 0xc4ceb9fe1a85ec53) in bit_xor b (shr b 33)

unfoldable pub murmurhash3_x64_64 : ℕ → ℕ → ℕ → ℕ
murmurhash3_x64_64 a b seed =
    let k1 = u64 (rotl64 (u64 (a * c1)) 31 * c2) in
    let h1 = u64 (u64 (rotl64 (bit_xor seed k1) 27 + seed) * 5 + 0x52dce729) in
    let k2 = u64 (rotl64 (u64 (b * c2)) 33 * c1) in
    let h2 = u64 (u64 (rotl64 (bit_xor seed k2) 31 + h1) * 5 + 0x38495ab5) in
    let g1 = u64 (bit_xor h1 16 + bit_xor h2 16) in
    let g2 = u64 (bit_xor h2 16 + g1) in u64 (fmix64 g1 + fmix64 g2)

-- The loop over the bytes of the interface name.
unfoldable pub name_hash : ℕ → List ℕ → ℕ
name_hash h [] = h
name_hash h (c ∷ name) = name_hash (bit_xor (u64 (h * 33)) c) name

unfoldable pub offset_hash : List ℕ → ℕ
unfolding murmurhash3_x64_64 name_hash
offset_hash name = murmurhash3_x64_64 (name_hash 0x811c9dc5 name) 42 0

unfoldable pub skip_hash : List ℕ → ℕ
unfolding murmurhash3_x64_64 name_hash
skip_hash name = murmurhash3_x64_64 (name_hash 0x811c9dc5 name) 2718281828 2307
