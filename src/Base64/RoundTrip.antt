-- ===== src/Base64/RoundTrip.antt =====
-- The Base64 decoder undoes the encoder, up to the padding (src/crypto_ed25519.c).
use flux_wan.Base.{
  ℕ, zero, suc, ◌+◌, ◌*◌, ◌/◌, ◌%◌, ◌≤◌, ◌<◌, ◌≡◌, refl, ◌∙◌, List, [], ◌∷◌, ◌++◌, some, u8, length,
  take_all, All, arith,
}
use flux_wan.Base64.{
  b64_table, triple_chars, encode, b64_val, skip, take_value, quad_bytes, decode_from,
  crypto_base64_decode,
}

abbrev pub IsByte : ℕ → Type 0
IsByte b = b < 256

-- A character of the table decodes to its index.
take_value-b64_table : (v : ℕ) (s : List ℕ) → v < 64 → take_value (b64_table v ∷ s) ≡ (some v, s)
unfolding skip b64_table b64_val
take_value-b64_table v s h = ground arith

-- The bytes that the padding of the encoding decodes to.
abbrev pub padding : List ℕ → List ℕ
padding [] = []
padding (a ∷ []) = 0 ∷ 0 ∷ []
padding (a ∷ b ∷ []) = 0 ∷ []
padding (a ∷ b ∷ c ∷ rest) = padding rest

take_value-pad : (s : List ℕ) → take_value (61 ∷ s) ≡ (some 0, s)
unfolding skip
take_value-pad s = refl

quad :
    (fuel : ℕ) (cs s0 s1 s2 s : List ℕ) {w x y z : ℕ}
    → take_value cs ≡ (some w, s0)
    → take_value s0 ≡ (some x, s1)
    → take_value s1 ≡ (some y, s2)
    → take_value s2 ≡ (some z, s)
    → decode_from (suc fuel) cs
      ≡ u8 (w * 4 + x / 16) ∷ u8 (x % 16 * 16 + y / 4) ∷ u8 (y % 4 * 64 + z) ∷ decode_from fuel s
unfolding decode_from quad_bytes
quad fuel cs s0 s1 s2 s ew ex ey ez = rw (ew, ex, ey, ez) refl

decode_from-nil : (fuel : ℕ) → decode_from fuel [] ≡ []
unfolding decode_from skip quad_bytes
decode_from-nil zero = refl
decode_from-nil (suc fuel) = refl

list_ap :
    {x y z x' y' z' : ℕ} {s s' : List ℕ}
    → x ≡ x'
    → y ≡ y'
    → z ≡ z'
    → s ≡ s'
    → x ∷ y ∷ z ∷ s ≡ x' ∷ y' ∷ z' ∷ s'
list_ap ex ey ez es = rw (ex, ey, ez, es) refl

-- The loop of the decoder, with fuel for every character, undoes the encoder.
pub decode_from-encode :
    (fuel : ℕ) (src : List ℕ)
    → All IsByte src
    → length (encode src) < fuel
    → decode_from fuel (encode src) ≡ src ++ padding src
unfolding encode triple_chars
decode_from-encode zero src h enough = absurd (omega arith)
decode_from-encode (suc fuel) [] h enough = decode_from-nil (suc fuel)
decode_from-encode (suc fuel) (a ∷ []) h enough =
    let ha : a < 256 = h.0 in
    let t = a * 0x10000 + 0 * 0x100 + 0 in
    quad fuel _ _ _ _ _ (take_value-b64_table (t / 0x40000 % 64) _ (omega arith))
      (take_value-b64_table (t / 0x1000 % 64) _ (omega arith)) (take_value-pad _) (take_value-pad _)
    ∙ list_ap (omega arith) (omega arith) (omega arith) (decode_from-nil fuel)
decode_from-encode (suc fuel) (a ∷ b ∷ []) h enough =
    let ha : a < 256 = h.0 in
    let hb : b < 256 = h.1.0 in
    let t = a * 0x10000 + b * 0x100 + 0 in
    quad fuel _ _ _ _ _ (take_value-b64_table (t / 0x40000 % 64) _ (omega arith))
      (take_value-b64_table (t / 0x1000 % 64) _ (omega arith))
      (take_value-b64_table (t / 0x40 % 64) _ (omega arith)) (take_value-pad _)
    ∙ list_ap (omega arith) (omega arith) (omega arith) (decode_from-nil fuel)
decode_from-encode (suc fuel) (a ∷ b ∷ c ∷ rest) h enough =
    let ha : a < 256 = h.0 in
    let hb : b < 256 = h.1.0 in
    let hc : c < 256 = h.1.1.0 in
    let t = a * 0x10000 + b * 0x100 + c in
    quad fuel _ _ _ _ _ (take_value-b64_table (t / 0x40000 % 64) _ (omega arith))
      (take_value-b64_table (t / 0x1000 % 64) _ (omega arith))
      (take_value-b64_table (t / 0x40 % 64) _ (omega arith))
      (take_value-b64_table (t % 64) _ (omega arith))
    ∙ list_ap (omega arith) (omega arith) (omega arith)
        (decode_from-encode fuel rest h.1.1.1 (omega arith))

-- The text of a sequence of bytes decodes to these bytes, followed by a zero byte for each
-- character of padding, if the buffer has room for all of them.
pub crypto_base64_decode-encode :
    (src : List ℕ) (dst_max : ℕ)
    → All IsByte src
    → length (src ++ padding src) ≤ dst_max
    → crypto_base64_decode (encode src) dst_max ≡ src ++ padding src
unfolding crypto_base64_decode
crypto_base64_decode-encode src dst_max h fits =
    rw (decode_from-encode (suc (length (encode src))) src h (omega arith))
      (take_all dst_max (src ++ padding src) fits)
