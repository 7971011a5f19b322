-- ===== src/WanManager/Addresses.antt =====
-- The texts of addresses in include/fluxwan.h.
use flux_wan.Base.{
  ℕ, ◌+◌, ◌-◌, ◌*◌, ◌/◌, ◌%◌, ◌<◌, ◌^◌, ◌≡◌, refl, subst, ap, ◌∙◌, inl, inr, List, [], ◌∷◌, ◌++◌,
  Bool, true, false, ◌&&◌, ◌⊎◌, Option, some, Bool-cases, ltb, leb, ◌==◌, length, get_or,
  append-nil, arith,
}
use flux_wan.WanManager.Links.{
  Octets, take_char, take_text, address_of, str_to_ip, octet, ip_to_str,
}

digit-taken :
    (before : List ℕ) (saw : Bool) (v d : ℕ)
    → d < 10
    → (saw && v == 0) ≡ false
    → v * 10 + d < 256
    → take_char (record { saw_digit = saw; value = v; before = before }) (48 + d)
      ≡ some (record { saw_digit = true; value = v * 10 + d; before = before })
digit-taken before saw v d small first fits =
    let shown : (48 + d - b'0') ≡ d = omega arith in
    let low : leb b'0' (48 + d) ≡ true = ground arith in
    let high : leb (48 + d) b'9' ≡ true = ground arith in
    let inside : ltb 255 (v * 10 + d) ≡ false = ground arith in
    rw (low, high, shown, first, inside) refl

abbrev at : List ℕ → Bool → ℕ → Option Octets
at before saw v = some (record { saw_digit = saw; value = v; before = before })

digit-read :
    (before rest : List ℕ) (saw : Bool) (v d : ℕ)
    → d < 10
    → (saw && v == 0) ≡ false
    → v * 10 + d < 256
    → take_text (at before saw v) ((48 + d) ∷ rest) ≡ take_text (at before true (v * 10 + d)) rest
digit-read before rest saw v d small first fits =
    unfold take_text in
    ap (λ (o : Option Octets). take_text o rest) (digit-taken before saw v d small first fits)

first-read :
    (before rest : List ℕ) (d : ℕ)
    → d < 10
    → take_text (at before false 0) ((48 + d) ∷ rest) ≡ take_text (at before true d) rest
first-read before rest d small =
    let same : 0 * 10 + d ≡ d = omega arith in
    digit-read before rest false 0 d small refl (omega arith)
    ∙ ap (λ v. take_text (at before true v) rest) same

-- The number of digits of an octet.
pub octet-cases :
    (b : ℕ)
    → (ltb b 10 ≡ true) × (octet b ≡ (48 + b) ∷ [])
      ⊎ (9 < b) × (b < 100) × (octet b ≡ (48 + b / 10) ∷ (48 + b % 10) ∷ [])
      ⊎ (99 < b) × (octet b ≡ (48 + b / 100) ∷ (48 + b / 10 % 10) ∷ (48 + b % 10) ∷ [])
unfolding octet
octet-cases b = elim (Bool-cases (ltb b 10)) [
  | inl one ↦ inl (one, rw one refl)
  | inr more ↦ elim (Bool-cases (ltb b 100)) [
    | inl two ↦ inr (inl (ground arith, ground arith, rw (more, two) refl))
    | inr three ↦ inr (inr (ground arith, rw (more, three) refl))
  ]
]

octet-read :
    (b : ℕ) (before rest : List ℕ)
    → b < 256
    → take_text (at before false 0) (octet b ++ rest) ≡ take_text (at before true b) rest
octet-read b before rest small = elim (octet-cases b) [
  | inl (one, e) ↦ rw e (first-read before rest b (ground arith))
  | inr (inl (lo, hi, e)) ↦
      (let same : b / 10 * 10 + b % 10 ≡ b = omega arith in
        let first = first-read before ((48 + b % 10) ∷ rest) (b / 10) (omega arith) in
        let second =
          digit-read before rest true (b / 10) (b % 10) (omega arith) (ground arith)
            (omega arith) in
        rw e (first ∙ second ∙ ap (λ v. take_text (at before true v) rest) same))
  | inr (inr (lo, e)) ↦
      (let same : (b / 100 * 10 + b / 10 % 10) * 10 + b % 10 ≡ b = omega arith in
        let first =
          first-read before ((48 + b / 10 % 10) ∷ (48 + b % 10) ∷ rest) (b / 100) (omega arith) in
        let second =
          digit-read before ((48 + b % 10) ∷ rest) true (b / 100) (b / 10 % 10) (omega arith)
            (ground arith) (omega arith) in
        let third =
          digit-read before rest true (b / 100 * 10 + b / 10 % 10) (b % 10) (omega arith)
            (ground arith) (omega arith) in
        rw e (first ∙ (second ∙ (third ∙ ap (λ v. take_text (at before true v) rest) same))))
]

dot-read :
    (before rest : List ℕ) (v : ℕ)
    → (length before == 3) ≡ false
    → take_text (at before true v) (b'.' ∷ rest) ≡ take_text (at (before ++ (v ∷ [])) false 0) rest
dot-read before rest v few =
    let step : take_char (record { saw_digit = true; value = v; before = before }) b'.'
        ≡ at (before ++ (v ∷ [])) false 0 =
      rw few refl in
    unfold take_text in ap (λ (o : Option Octets). take_text o rest) step

last-read :
    (d : ℕ) (before : List ℕ) → d < 256 → take_text (at before false 0) (octet d) ≡ at before true d
last-read d before small =
    subst (λ t. take_text (at before false 0) t ≡ at before true d) (append-nil (octet d))
      (octet-read d before [] small ∙ unfold take_text in refl)

-- An address that is printed reads back as it is.
pub str_to_ip-ip_to_str : (ip : ℕ) → ip < 2 ^ 32 → str_to_ip (ip_to_str ip) ≡ ip
str_to_ip-ip_to_str ip small =
    let a = ip % 0x100 in
    let b = ip / 0x100 % 0x100 in
    let c = ip / 0x10000 % 0x100 in
    let d = ip / 0x1000000 in
    let d_text = b'.' ∷ octet d in
    let c_text = b'.' ∷ octet c ++ d_text in
    let b_text = b'.' ∷ octet b ++ c_text in
    let read =
      octet-read a [] b_text (omega arith)
      ∙ (dot-read [] (octet b ++ c_text) a refl
          ∙ (octet-read b (a ∷ []) c_text (omega arith)
              ∙ (dot-read (a ∷ []) (octet c ++ d_text) b refl
                  ∙ (octet-read c (a ∷ b ∷ []) d_text (omega arith)
                      ∙ (dot-read (a ∷ b ∷ []) (octet d) c refl
                          ∙ last-read d (a ∷ b ∷ c ∷ []) (omega arith)))))) in
    let number : address_of (at (a ∷ b ∷ c ∷ []) true d) ≡ ip = unfold get_or in omega arith in
    unfold str_to_ip ip_to_str in ap address_of read ∙ number
