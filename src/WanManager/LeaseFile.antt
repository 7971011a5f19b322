-- ===== src/WanManager/LeaseFile.antt =====
-- The lease file that the hook script of src/wan_manager.c writes, read back.
use flux_wan.Base.{
  ℕ, zero, suc, ◌+◌, ◌/◌, ◌%◌, ◌<◌, ◌≤◌, ◌^◌, ◌≡◌, refl, ap, ◌∙◌, inl, inr, List, [], ◌∷◌, ◌++◌,
  false, length, length-append, All, arith,
}
use flux_wan.WanManager.Links.{octet, ip_to_str}
use flux_wan.WanManager.Addresses.{octet-cases}
use flux_wan.WanManager.Lease.{
  Lease, is_space, skip_spaces, word, or_old, scan_word, gateway_key, netmask_key, read_lines,
  read_lease,
}

abbrev Plain : List ℕ → Type 0
Plain text = All (λ c. is_space c ≡ false) text

Plain-append : (xs ys : List ℕ) → Plain xs → Plain ys → Plain (xs ++ ys)
Plain-append [] ys h k = k
Plain-append (x ∷ xs) ys (p, h) k = (p, Plain-append xs ys h k)

digit-Plain : (d : ℕ) → d < 10 → is_space (48 + d) ≡ false
digit-Plain d h = ground arith

octet-Plain : (b : ℕ) → b < 256 → Plain (octet b) × (length (octet b) ≤ 3) × (0 < length (octet b))
octet-Plain b small = elim (octet-cases b) [
  | inl (one, e) ↦ rw e ((digit-Plain b (ground arith), tt), omega arith, omega arith)
  | inr (inl (lo, hi, e)) ↦ rw e (
    (digit-Plain (b / 10) (omega arith), (digit-Plain (b % 10) (omega arith), tt)),
    omega arith,
    omega arith,
  )
  | inr (inr (lo, e)) ↦ rw e (
    (
      digit-Plain (b / 100) (omega arith),
      (digit-Plain (b / 10 % 10) (omega arith), (digit-Plain (b % 10) (omega arith), tt)),
    ),
    omega arith,
    omega arith,
  )
]

ip_to_str-Plain :
    (ip : ℕ)
    → ip < 2 ^ 32
    → Plain (ip_to_str ip) × (length (ip_to_str ip) ≤ 15) × (0 < length (ip_to_str ip))
unfolding ip_to_str
ip_to_str-Plain ip small =
    let (pa, la, na) = octet-Plain (ip % 0x100) (omega arith) in
    let (pb, lb, nb) = octet-Plain (ip / 0x100 % 0x100) (omega arith) in
    let (pc, lc, nc) = octet-Plain (ip / 0x10000 % 0x100) (omega arith) in
    let (pd, ld, nd) = octet-Plain (ip / 0x1000000) (omega arith) in
    let c_text = b'.' ∷ octet (ip / 0x1000000) in
    let b_text = b'.' ∷ octet (ip / 0x10000 % 0x100) ++ c_text in
    let a_text = b'.' ∷ octet (ip / 0x100 % 0x100) ++ b_text in
    (
      Plain-append (octet (ip % 0x100)) a_text pa (
        refl,
        Plain-append (octet (ip / 0x100 % 0x100)) b_text pb
            (refl, Plain-append (octet (ip / 0x10000 % 0x100)) c_text pc (refl, pd)),
      ),
      omega (
        arith,
        length-append (octet (ip % 0x100)) a_text,
        length-append (octet (ip / 0x100 % 0x100)) b_text,
        length-append (octet (ip / 0x10000 % 0x100)) c_text,
      ),
      omega (arith, length-append (octet (ip % 0x100)) a_text),
    )

word-line :
    (n : ℕ) (text : List ℕ) → Plain text → length text < n → word n (text ++ (10 ∷ [])) ≡ text
word-line zero text p h = absurd (omega arith)
word-line (suc n) [] p h = refl
word-line (suc n) (c ∷ text) (q, p) h = rw q (ap (λ t. c ∷ t) (word-line n text p (omega arith)))

scan_word-line :
    (text old : List ℕ)
    → Plain text
    → length text ≤ 15
    → 0 < length text
    → scan_word (text ++ (10 ∷ [])) old ≡ text
unfolding scan_word
scan_word-line [] old p h k = absurd (omega arith)
scan_word-line (c ∷ text) old (q, p) h k =
    let start : skip_spaces (c ∷ text ++ (10 ∷ [])) ≡ c ∷ text ++ (10 ∷ []) = rw q refl in
    ap (λ t. or_old (word 31 t) old) start
    ∙ ap (λ t. or_old t old) (word-line 31 (c ∷ text) (q, p) (omega arith))

scan_word-ip :
    (ip : ℕ) (old : List ℕ) → ip < 2 ^ 32 → scan_word (ip_to_str ip ++ (10 ∷ [])) old ≡ ip_to_str ip
scan_word-ip ip old small =
    let (p, h, k) = ip_to_str-Plain ip small in scan_word-line (ip_to_str ip) old p h k

abbrev pub ip_key : List ℕ
ip_key = b'I' ∷ b'P' ∷ b'=' ∷ []

-- The file as the script writes it.
abbrev pub file_of : ℕ → ℕ → ℕ → List (List ℕ)
file_of ip mask gw =
    (ip_key ++ (ip_to_str ip ++ (10 ∷ [])))
    ∷ (netmask_key ++ (ip_to_str mask ++ (10 ∷ [])))
    ∷ (gateway_key ++ (ip_to_str gw ++ (10 ∷ [])))
    ∷ []

-- A lease file as the script writes it reads back as its three addresses.
pub read_lease-file_of :
    (ip mask gw : ℕ)
    → ip < 2 ^ 32
    → mask < 2 ^ 32
    → gw < 2 ^ 32
    → read_lease (file_of ip mask gw)
      ≡ record { ip_str = ip_to_str ip; gw_str = ip_to_str gw; mask_str = ip_to_str mask }
read_lease-file_of ip mask gw hi hm hg =
    unfold read_lease read_lines in
    rw (scan_word-ip ip [] hi, scan_word-ip mask [] hm, scan_word-ip gw [] hg) refl
