-- ===== src/Base64.antt =====
-- The Base64 routines of src/crypto_ed25519.c. A string is the list of its characters; an `|` of
-- operands that share no bit is a sum.
pub mod RoundTrip
use flux_wan.Base.{
  ℕ, zero, suc, ◌+◌, ◌-◌, ◌*◌, ◌/◌, ◌%◌, List, [], ◌∷◌, ◌++◌, Bool, true, false, ◌&&◌, ◌||◌, Option,
  none, some, u8, ltb, leb, ◌==◌, if◌then◌else◌, length, take,
}

-- `b64_table`.
unfoldable pub b64_table : ℕ → ℕ
b64_table v =
    if ltb v 26
    then 65 + v
    else (if ltb v 52 then 71 + v else (if ltb v 62 then v - 4 else (if v == 62 then 43 else 47)))

unfoldable pub triple_chars : ℕ → ℕ → ℕ → ℕ × ℕ × ℕ × ℕ
triple_chars a b c =
    let triple = a * 0x10000 + b * 0x100 + c in
    (
      b64_table (triple / 0x40000 % 64),
      b64_table (triple / 0x1000 % 64),
      b64_table (triple / 0x40 % 64),
      b64_table (triple % 64),
    )

unfoldable pub encode : List ℕ → List ℕ
encode [] = []
encode (a ∷ []) = let (w, x, y, z) = triple_chars a 0 0 in w ∷ x ∷ 61 ∷ 61 ∷ []
encode (a ∷ b ∷ []) = let (w, x, y, z) = triple_chars a b 0 in w ∷ x ∷ y ∷ 61 ∷ []
encode (a ∷ b ∷ c ∷ rest) = let (w, x, y, z) = triple_chars a b c in w ∷ x ∷ y ∷ z ∷ encode rest

-- `crypto_base64_encode` into a buffer of `dst_max` bytes.
unfoldable pub crypto_base64_encode : List ℕ → ℕ → Option (List ℕ)
crypto_base64_encode src dst_max =
    if ltb dst_max (4 * ((length src + 2) / 3) + 1) then none else some (encode src)

abbrev pub within : ℕ → ℕ → ℕ → Bool
within lo hi c = leb lo c && leb c hi

unfoldable pub b64_val : ℕ → Option ℕ
b64_val c =
    if within 65 90 c
    then some (c - 65)
    else (if within 97 122 c
        then some (c - 71)
        else (if within 48 57 c
            then some (c + 4)
            else (if c == 43 || c == 45
                then some 62
                else (if c == 47 || c == 95 then some 63 else none))))

-- ' ', '\r', '\n' and '-'.
abbrev pub is_skipped : ℕ → Bool
is_skipped c = c == 32 || c == 13 || c == 10 || c == 45

unfoldable pub skip : List ℕ → List ℕ
skip [] = []
skip (c ∷ cs) = if is_skipped c then skip cs else c ∷ cs

abbrev pub value_or_pad : ℕ → Option ℕ
value_or_pad c = if c == 61 then some 0 else b64_val c

abbrev pub take_head : List ℕ → Option ℕ × List ℕ
take_head [] = (none, [])
take_head (c ∷ cs) = (value_or_pad c, cs)

-- One of the four characters: its value, none for -1, and what follows.
abbrev pub take_value : List ℕ → Option ℕ × List ℕ
take_value src = take_head (skip src)

-- The bytes of four characters; none stops the loop.
unfoldable pub quad_bytes : Option ℕ → Option ℕ → Option ℕ → Option ℕ → Option (List ℕ)
quad_bytes none b1 b2 b3 = none
quad_bytes (some b0) none b2 b3 = none
quad_bytes (some b0) (some b1) none none = some (u8 (b0 * 4 + b1 / 16) ∷ [])
quad_bytes (some b0) (some b1) (some b2) none =
    some (u8 (b0 * 4 + b1 / 16) ∷ u8 (b1 % 16 * 16 + b2 / 4) ∷ [])
quad_bytes (some b0) (some b1) none (some b3) =
    some (u8 (b0 * 4 + b1 / 16) ∷ u8 (3 * 64 + b3 % 64) ∷ [])
quad_bytes (some b0) (some b1) (some b2) (some b3) =
    some (u8 (b0 * 4 + b1 / 16) ∷ u8 (b1 % 16 * 16 + b2 / 4) ∷ u8 (b2 % 4 * 64 + b3) ∷ [])

abbrev pub then_more : Option (List ℕ) → List ℕ → List ℕ
then_more none rest = []
then_more (some bs) rest = bs ++ rest

-- The loop of the decoder on fuel: each round takes a character or stops.
unfoldable pub decode_from : ℕ → List ℕ → List ℕ
decode_from zero src = []
decode_from (suc fuel) src =
    let (b0, s0) = take_value src in
    let (b1, s1) = take_value s0 in
    let (b2, s2) = take_value s1 in
    let (b3, s3) = take_value s2 in
    let rest = decode_from fuel s3 in then_more (quad_bytes b0 b1 b2 b3) rest

-- `crypto_base64_decode` into a buffer of `dst_max` bytes: those that it holds.
unfoldable pub crypto_base64_decode : List ℕ → ℕ → List ℕ
crypto_base64_decode src dst_max = take dst_max (decode_from (suc (length src)) src)
