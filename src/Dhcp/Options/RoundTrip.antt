-- ===== src/Dhcp/Options/RoundTrip.antt =====
-- What `append_option` has written, `get_dhcp_option` finds (src/dhcp_server.c).
use flux_wan.Base.{
  ℕ, zero, suc, ◌+◌, ◌-◌, ◌≤◌, ◌<◌, ◌≡◌, refl, ◌≢◌, ◌∙◌, ap, sym, inl, inr, List, [], ◌∷◌, ◌++◌,
  false, Option, none, some, ltb, leb, ◌==◌, if◌then◌else◌, length, set, drop, length-append,
  take-append, drop-append, All, Bool-cases, arith, replicate, length-replicate,
}
use mathlib.Core.List.{append_assoc}
use flux_wan.Dhcp.Options.{
  opt_pad, opt_end, scan, get_dhcp_option, value, write, append_option, append_options,
}

-- A list of options in the wire format.
unfoldable pub encode : List (ℕ × List ℕ) → List ℕ
encode [] = []
encode ((t, bytes) ∷ os) = t ∷ length bytes ∷ bytes ++ encode os

abbrev pub IsOption : ℕ × List ℕ → Type 0
IsOption o = (o.0 ≢ opt_pad) × (o.0 ≢ opt_end)

-- The first option of a type.
unfoldable pub find : List (ℕ × List ℕ) → ℕ → Option (List ℕ)
find [] type = none
find ((t, bytes) ∷ os) type = if t == type then some bytes else find os type

-- The scanner finds the first option of a type in a list of options that a terminator ends.
pub scan-encode :
    (fuel : ℕ) (os : List (ℕ × List ℕ)) (rest : List ℕ) (type : ℕ)
    → All IsOption os
    → length (encode os) < fuel
    → value (scan fuel (encode os ++ opt_end ∷ rest) type) ≡ find os type
unfolding scan encode find
scan-encode zero os rest type h enough = absurd (omega arith)
scan-encode (suc fuel) [] [] type h enough = refl
scan-encode (suc fuel) [] (r ∷ rest) type h enough = refl
scan-encode (suc fuel) ((t, bytes) ∷ os) rest type h enough =
    let tail = encode os ++ opt_end ∷ rest in
    let assoc : (bytes ++ encode os) ++ opt_end ∷ rest ≡ bytes ++ tail =
      append_assoc bytes (encode os) (opt_end ∷ rest) in
    let len = length-append bytes tail in
    let lo = length-append bytes (encode os) in
    let ih = scan-encode fuel os rest type h.1 (omega arith) in
    let not_pad : (t == opt_pad) ≡ false = ground (arith, h.0.0) in
    let not_end : (t == opt_end) ≡ false = ground (arith, h.0.1) in
    let fits : ltb (length (bytes ++ tail)) (length bytes) ≡ false = ground (arith, len) in
    rw (assoc, not_pad, not_end, fits, drop-append bytes tail)
      (elim (Bool-cases (t == type)) [
        | inl b ↦ rw (b, take-append bytes tail) refl
        | inr b ↦ rw b ih
      ])

set-append : (p q : List ℕ) (x b : ℕ) → set (p ++ x ∷ q) (length p) b ≡ p ++ b ∷ q
unfolding set
set-append [] q x b = refl
set-append (y ∷ p) q x b = ap (λ (t : List ℕ). y ∷ t) (set-append p q x b)

-- Bytes written after a prefix replace as many bytes of the rest.
write-append :
    (p q bytes : List ℕ)
    → length bytes ≤ length q
    → write (p ++ q) (length p) bytes ≡ p ++ (bytes ++ drop (length bytes) q)
unfolding write
write-append p q [] h = refl
write-append p [] (b ∷ bytes) h = absurd (omega arith)
write-append p (x ∷ q) (b ∷ bytes) h =
    let ih = write-append (p ++ b ∷ []) q bytes (omega arith) in
    let len : length (p ++ b ∷ []) ≡ suc (length p) = omega (arith, length-append p (b ∷ [])) in
    let whole = append_assoc p (b ∷ []) in
    ap (λ t. write t (suc (length p)) bytes) (set-append p q x b ∙ sym (whole q))
    ∙ ap (λ n. write (p ++ b ∷ [] ++ q) n bytes) (sym len)
    ∙ ih
    ∙ whole (bytes ++ drop (length bytes) q)

drop-replicate : (k n a : ℕ) → drop k (replicate n a) ≡ replicate (n - k) a
unfolding replicate
drop-replicate zero n a = ap (λ k. replicate k a) (omega arith)
drop-replicate (suc k) zero a = let none_left : 0 - suc k ≡ 0 = omega arith in rw none_left refl
drop-replicate (suc k) (suc n) a =
    let same : suc n - suc k ≡ n - k = omega arith in rw same (drop-replicate k n a)

abbrev pub wire_size : List ℕ → ℕ
wire_size bytes = suc (suc (length bytes))

append_option_lem :
    (p : List ℕ) (n t : ℕ) (bytes : List ℕ)
    → wire_size bytes < n
    → append_option (p ++ replicate n 0, length p) t bytes ≡ (
      (p ++ (t ∷ length bytes ∷ bytes)) ++ replicate (n - wire_size bytes) 0,
      length (p ++ (t ∷ length bytes ∷ bytes)),
    )
unfolding append_option
append_option_lem p n t bytes h =
    let wire = t ∷ length bytes ∷ bytes in
    let zeros : List ℕ = replicate n 0 in
    let size : length (p ++ zeros) ≡ length p + n =
      omega (arith, length-append p zeros, length-replicate {A = ℕ} n 0) in
    let room : leb (length (p ++ zeros)) (length p + 2 + length bytes) ≡ false = ground arith in
    let fits : length wire ≤ length zeros = omega (arith, length-replicate {A = ℕ} n 0) in
    let offset : length p + 2 + length bytes ≡ length (p ++ wire) =
      omega (arith, length-append p wire) in
    let content : write (p ++ zeros) (length p) wire
        ≡ (p ++ wire) ++ replicate (n - wire_size bytes) 0 =
      write-append p zeros wire fits
      ∙ ap (λ z. p ++ (wire ++ z)) (drop-replicate (wire_size bytes) n 0)
      ∙ sym (append_assoc p wire (replicate (n - wire_size bytes) 0)) in
    rw (room, content, offset) refl

-- Written one after another into a zeroed buffer with room for them, the options stand there in
-- the wire format, and the offset is behind them.
pub append_options-encode :
    (p : List ℕ) (n : ℕ) (os : List (ℕ × List ℕ))
    → length (encode os) < n
    → append_options (p ++ replicate n 0, length p) os
      ≡ (p ++ (encode os ++ replicate (n - length (encode os)) 0), length p + length (encode os))
unfolding append_options encode
append_options-encode p n [] h =
    let all : n - 0 ≡ n = omega arith in
    let here : length p + 0 ≡ length p = omega arith in rw (all, here) refl
append_options-encode p n ((t, bytes) ∷ os) h =
    let wire = t ∷ length bytes ∷ bytes in
    let m = n - wire_size bytes in
    let lo = length-append bytes (encode os) in
    let ih = append_options-encode (p ++ wire) m os (omega arith) in
    let rest : List ℕ = replicate (m - length (encode os)) 0 in
    let same_rest : m - length (encode os) ≡ n - length (wire ++ encode os) = omega arith in
    let content : (p ++ wire) ++ (encode os ++ rest)
        ≡ p ++ ((wire ++ encode os) ++ replicate (n - length (wire ++ encode os)) 0) =
      append_assoc p wire (encode os ++ rest)
      ∙ ap (λ z. p ++ z) (sym (append_assoc wire (encode os) rest))
      ∙ ap (λ k. p ++ ((wire ++ encode os) ++ replicate k 0)) same_rest in
    let offset : length (p ++ wire) + length (encode os) ≡ length p + length (wire ++ encode os) =
      omega (arith, length-append p wire) in
    ap (λ s. append_options s os) (append_option_lem p n t bytes (omega arith))
    ∙ ih
    ∙ rw (content, offset) refl

replicate-suc : (n : ℕ) → replicate {A = ℕ} (suc n) 0 ≡ 0 ∷ replicate n 0
unfolding replicate
replicate-suc n = refl

-- Options other than the padding and the terminator, written with a terminator into a zeroed buffer
-- with room for them, read back as they are: the first of each type.
pub get_dhcp_option-append_options :
    (n : ℕ) (os : List (ℕ × List ℕ)) (type : ℕ)
    → All IsOption os
    → length (encode os) < n
    → let (buffer, offset) = append_options (replicate n 0, 0) os in
      value (get_dhcp_option (set buffer offset opt_end) type) ≡ find os type
unfolding get_dhcp_option
get_dhcp_option-append_options n os type ok h =
    let used = length (encode os) in
    let zeros : List ℕ = replicate (n - suc used) 0 in
    let last : n - used ≡ suc (n - suc used) = omega arith in
    let here : 0 + used ≡ used = omega arith in
    let split : replicate {A = ℕ} (n - used) 0 ≡ 0 ∷ zeros =
      rw last (replicate-suc (n - suc used)) in
    let size : length (encode os ++ opt_end ∷ zeros) ≡ n = omega (
      arith,
      length-append (encode os) (opt_end ∷ zeros),
      length-replicate {A = ℕ} (n - suc used) 0,
    ) in
    rw (append_options-encode [] n os h, here, split, set-append (encode os) zeros 0 opt_end, size)
      (scan-encode n os zeros type ok h)
