-- ===== src/Dhcp/Options.antt =====
-- DHCP options in src/dhcp_server.c: the scanner and the writer.
pub mod RoundTrip
use flux_wan.Base.{
  ℕ, zero, suc, ◌+◌, ◌-◌, List, [], ◌∷◌, ◌++◌, Bool, true, false, ◌||◌, Option, none, some, ltb,
  leb, ◌==◌, if◌then◌else◌, length, get_or, set, take, drop,
}

abbrev pub opt_pad : ℕ
opt_pad = 0

abbrev pub opt_end : ℕ
opt_end = 255

-- `get_dhcp_option` from a position to the end of the buffer, on fuel: each round reads a byte.
-- A pointer into the buffer is what stands from there on; the result is one with `out_len`.
unfoldable pub scan : ℕ → List ℕ → ℕ → Option (List ℕ × ℕ)
scan zero opts type = none
scan (suc fuel) [] type = none
scan (suc fuel) (t ∷ []) type = none
scan (suc fuel) (t ∷ len ∷ rest) type =
    let padded = scan fuel (len ∷ rest) type in
    let later = scan fuel (drop len rest) type in
    if t == opt_pad
    then padded
    else (if t == opt_end || ltb (length rest) len
        then none
        else (if t == type then some (rest, len) else later))

unfoldable pub get_dhcp_option : List ℕ → ℕ → Option (List ℕ × ℕ)
get_dhcp_option opts type = scan (length opts) opts type

-- The bytes of an option that was found.
abbrev pub value : Option (List ℕ × ℕ) → Option (List ℕ)
value none = none
value (some (rest, len)) = some (take len rest)

-- `memcpy` into the buffer.
unfoldable pub write : List ℕ → ℕ → List ℕ → List ℕ
write opts offset [] = opts
write opts offset (b ∷ bytes) = write (set opts offset b) (suc offset) bytes

-- `append_option`: the buffer and the new offset.
unfoldable pub append_option : List ℕ × ℕ → ℕ → List ℕ → List ℕ × ℕ
unfolding write
append_option (opts, offset) type bytes =
    if leb (length opts) (offset + 2 + length bytes)
    then (opts, offset)
    else (write opts offset (type ∷ length bytes ∷ bytes), offset + 2 + length bytes)

-- The calls of `append_option` in turn.
unfoldable pub append_options : List ℕ × ℕ → List (ℕ × List ℕ) → List ℕ × ℕ
append_options state [] = state
append_options state (o ∷ os) = append_options (append_option state o.0 o.1) os
