-- ===== src/License/Key.antt =====
-- Which keys `parse_and_verify_license_key` accepts (src/license_manager.c).
use flux_wan.Base.{
  ℕ, ◌≡◌, refl, inl, inr, List, Bool, true, ◌==◌, Bool-cases, bytes_eq, bytes_eq→eq, ==_iff, length,
  take, drop,
}
use flux_wan.Base64.{crypto_base64_decode}
use flux_wan.License.{
  Payload, Parsed, verified, payload_of, magic, key_text, check_blob, parse_and_verify,
}

-- The payload of a result.
abbrev pub IsPayload : Payload → Parsed → Type 0
IsPayload p (verified q) = q ≡ p
IsPayload p _ = ⊥

module _ (verify : List ℕ → List ℕ → Bool) where
  check_blob_sound :
      (blob : List ℕ) (p : Payload)
      → IsPayload p (check_blob verify blob)
      → (length blob ≡ 204)
        × (take 4 blob ≡ magic)
        × (verify (drop 140 blob) (take 140 blob) ≡ true)
        × (payload_of (take 140 blob) ≡ p)
  unfolding check_blob
  check_blob_sound blob p h = elim (Bool-cases (length blob == 204)) [
    | inr a ↦ absurd (rw a at h)
    | inl a ↦
        let h1 = rw a at h in
        let size : length blob ≡ 204 = (==_iff (length blob) 204).0 a in
        elim (Bool-cases (bytes_eq (take 4 blob) magic)) [
          | inr b ↦ absurd (rw b at h1)
          | inl b ↦
              let h2 = rw b at h1 in
              elim (Bool-cases (verify (drop 140 blob) (take 140 blob))) [
                | inr c ↦ absurd (rw c at h2)
                | inl c ↦ (size, bytes_eq→eq (take 4 blob) magic b, c, rw c at h2)
              ]
        ]
  ]

  -- A key is only accepted if its text decodes to 204 bytes, of which the first 140 begin with the
  -- magic header and pass the signature check with the last 64; the payload is read from these 140
  -- bytes.
  pub parse_and_verify_sound :
      (key : List ℕ) (p : Payload)
      → parse_and_verify verify key ≡ verified p
      → let blob = crypto_base64_decode (key_text key) 512 in
        (length blob ≡ 204)
        × (take 4 blob ≡ magic)
        × (verify (drop 140 blob) (take 140 blob) ≡ true)
        × (payload_of (take 140 blob) ≡ p)
  unfolding parse_and_verify
  parse_and_verify_sound key p h =
      let accepted : IsPayload p (parse_and_verify verify key) = rw h refl in
      check_blob_sound (crypto_base64_decode (key_text key) 512) p accepted
