-- ===== src/Examples/DynBuf.antt =====
-- src/dyn_buf.c: "bc" behind "a" in a buffer of two bytes.
use flux_wan.Base.{◌≡◌, refl, [], ◌∷◌, ◌++◌, true, false, ◌⊎◌, arith}
use flux_wan.DynBuf.{DynBuf, minus_one, append_len, cstr}
use flux_wan.DynBuf.Growth.{is_sound, append_len-cstr}

abbrev two : DynBuf
two = record { text = b'a' ∷ []; capacity = 2; has_data = true }

append_len-cstr_example :
    (((cstr (append_len true two (b'b' ∷ b'c' ∷ [])).0 ≡ cstr two ++ (b'b' ∷ b'c' ∷ []))
        × ((append_len true two (b'b' ∷ b'c' ∷ [])).1 ≡ 2))
      ⊎ (true ≡ false) × (append_len true two (b'b' ∷ b'c' ∷ []) ≡ (two, minus_one)))
    × (is_sound (append_len true two (b'b' ∷ b'c' ∷ [])).0 ≡ true)
append_len-cstr_example =
    append_len-cstr true two (b'b' ∷ b'c' ∷ []) refl (omega arith) (omega arith)
