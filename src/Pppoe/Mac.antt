-- ===== src/Pppoe/Mac.antt =====
-- `generate_unique_virtual_mac` of src/pppoe_manager.c: the address of the virtual interface.
use flux_wan.Base.{
  ℕ, zero, suc, ◌+◌, ◌-◌, ◌*◌, ◌/◌, ◌%◌, List, [], ◌∷◌, ◌++◌, bit_xor, u8, u32, shr, ltb, ◌==◌,
  if◌then◌else◌, get_or,
}

-- `%d` of a number that is not negative; the fuel is more than its number of digits.
unfoldable digits_onto : ℕ → ℕ → List ℕ → List ℕ
digits_onto zero n acc = acc
digits_onto (suc fuel) n acc =
    let more = digits_onto fuel (n / 10) ((48 + n % 10) ∷ acc) in
    if n / 10 == 0 then (48 + n % 10) ∷ acc else more

unfoldable pub decimal : ℕ → List ℕ
unfolding digits_onto
decimal n = digits_onto 10 n []

-- A digit of `%x`.
abbrev pub hex_digit : ℕ → ℕ
hex_digit n = if ltb n 10 then 48 + n else 87 + n

-- `%02x` of a byte.
abbrev pub hex_byte : ℕ → List ℕ
hex_byte b = hex_digit (b / 16) ∷ hex_digit (b % 16) ∷ []

-- "%02x:%02x:…"
unfoldable pub mac_text : List ℕ → List ℕ
mac_text [] = []
mac_text (b ∷ []) = hex_byte b
mac_text (b ∷ c ∷ bs) = hex_byte b ++ (58 ∷ mac_text (c ∷ bs))

-- The three bytes of each vendor, TP-Link, Tenda and D-Link.
abbrev pub consumer_router_ouis : List (List ℕ)
consumer_router_ouis =
    (0xD8 ∷ 0x07 ∷ 0xB6 ∷ [])
    ∷ (0x50 ∷ 0xC7 ∷ 0xBF ∷ [])
    ∷ (0xE8 ∷ 0x48 ∷ 0xB8 ∷ [])
    ∷ (0xB0 ∷ 0x4E ∷ 0x26 ∷ [])
    ∷ (0x30 ∷ 0xDE ∷ 0x4B ∷ [])
    ∷ (0xEC ∷ 0x08 ∷ 0x6B ∷ [])
    ∷ (0x14 ∷ 0xEB ∷ 0xB6 ∷ [])
    ∷ (0x60 ∷ 0x32 ∷ 0xB1 ∷ [])
    ∷ (0xCC ∷ 0x2D ∷ 0x21 ∷ [])
    ∷ (0x50 ∷ 0x2B ∷ 0x73 ∷ [])
    ∷ (0x04 ∷ 0x95 ∷ 0xE6 ∷ [])
    ∷ (0xC8 ∷ 0x3A ∷ 0x35 ∷ [])
    ∷ (0xD8 ∷ 0x32 ∷ 0x14 ∷ [])
    ∷ (0x14 ∷ 0xD6 ∷ 0x4D ∷ [])
    ∷ (0x28 ∷ 0x10 ∷ 0x7B ∷ [])
    ∷ (0x00 ∷ 0x18 ∷ 0xE7 ∷ [])
    ∷ (0xC4 ∷ 0xA8 ∷ 0x1D ∷ [])
    ∷ (0x20 ∷ 0xCF ∷ 0x30 ∷ [])
    ∷ (0xB0 ∷ 0xC5 ∷ 0x54 ∷ [])
    ∷ []

abbrev num_ouis : ℕ
num_ouis = 19

-- h = (h ^ c) * prime over the bytes of a text.
unfoldable pub text_hash : ℕ → ℕ → List ℕ → ℕ
text_hash prime h [] = h
text_hash prime h (c ∷ text) = text_hash prime (u32 (bit_xor h c * prime)) text

unfoldable mixed_of : ℕ → List ℕ → List ℕ → ℕ
unfolding text_hash
mixed_of w parent_ifname username =
    let h1 = text_hash 0x01000193 0x811c9dc5 parent_ifname in
    let h2 = text_hash 0x85ebca6b 0x9e3779b9 username in
    let a = bit_xor (bit_xor h1 (u32 (h2 * 31))) (u32 (w * 0x45d9f3b)) in
    let b = u32 (bit_xor a (shr a 16) * 0x45d9f3b) in bit_xor b (shr b 16)

unfoldable low_mix_of : ℕ → ℕ → ℕ
low_mix_of w mixed =
    let a = bit_xor mixed (u32 (w * 0x27d4eb2d)) in
    let b = u32 (bit_xor a (shr a 15) * 0x85ebca6b) in
    let c = u32 (bit_xor b (shr b 13) * 0xc2b2ae35) in bit_xor c (shr c 16)

-- The last byte is neither 0x00 nor 0xFF.
abbrev pub last_byte : ℕ → ℕ
last_byte b = if b == 0x00 then 0x12 else (if b == 0xFF then 0xFE else b)

unfoldable pub virtual_mac_bytes : ℕ → List ℕ → List ℕ → List ℕ
unfolding mixed_of low_mix_of
virtual_mac_bytes wan_index parent_ifname username =
    let w = u32 (wan_index + 1) in
    let mixed = mixed_of w parent_ifname username in
    let oui_idx = (w - 1 + mixed % num_ouis) % num_ouis in
    let low_mix = low_mix_of w mixed in
    get_or consumer_router_ouis oui_idx []
    ++ (u8 (shr low_mix 16) ∷ u8 (shr low_mix 8) ∷ last_byte (u8 low_mix) ∷ [])

unfoldable pub generate_unique_virtual_mac : ℕ → List ℕ → List ℕ → List ℕ
unfolding virtual_mac_bytes mac_text
generate_unique_virtual_mac wan_index parent_ifname username =
    mac_text (virtual_mac_bytes wan_index parent_ifname username)
