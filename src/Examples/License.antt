-- ===== src/Examples/License.antt =====
-- src/license_manager.c and the Base64 routines at concrete keys.
use flux_wan.Base.{
  ℕ, ◌≡◌, refl, List, [], ◌∷◌, ◌++◌, Bool, true, false, not, ◌&&◌, ◌||◌, some, leb, ◌==◌, length,
  take, drop, replicate, bytes_eq, arith,
}
use flux_wan.Base64.{
  b64_table, triple_chars, encode, crypto_base64_decode, decode_from, quad_bytes, b64_val, skip,
}
use flux_wan.Base64.RoundTrip.{crypto_base64_decode-encode, padding}
use flux_wan.License.{
  unlicensed, none_given, Info, Payload, State, verified, parse_and_verify, check_blob, key_text,
  skip_space, payload_of, magic, same_text, rolled_back, update_status, is_authorized,
}
use flux_wan.License.Operations.{init}
use flux_wan.License.Key.{parse_and_verify_sound}
use flux_wan.License.Status.{update_status-valid}
use flux_wan.License.Grace.{init-authorized}

crypto_base64_decode-encode_example :
    crypto_base64_decode (encode (1 ∷ 2 ∷ 3 ∷ 250 ∷ [])) 512
    ≡ (1 ∷ 2 ∷ 3 ∷ 250 ∷ []) ++ padding (1 ∷ 2 ∷ 3 ∷ 250 ∷ [])
crypto_base64_decode-encode_example =
    crypto_base64_decode-encode (1 ∷ 2 ∷ 3 ∷ 250 ∷ []) 512
      (omega arith, (omega arith, (omega arith, (omega arith, tt)))) (omega arith)

-- A signature check that accepts what a signature of zeros says.
abbrev zero_signature : List ℕ → List ℕ → Bool
zero_signature signature message = bytes_eq (take 4 signature) (0 ∷ 0 ∷ 0 ∷ 0 ∷ [])

abbrev blob : List ℕ
blob = magic ++ (1 ∷ 2 ∷ replicate 198 0)

abbrev key : List ℕ
key = encode blob

parsed :
    parse_and_verify zero_signature key
    ≡ verified (payload_of (take 140 (crypto_base64_decode (key_text key) 512)))
unfolding parse_and_verify check_blob crypto_base64_decode decode_from quad_bytes b64_val skip
    key_text skip_space encode triple_chars b64_table replicate bytes_eq
parsed = refl

parse_and_verify_sound_example :
    let found = crypto_base64_decode (key_text key) 512 in
    (length found ≡ 204)
    × (take 4 found ≡ magic)
    × (zero_signature (drop 140 found) (take 140 found) ≡ true)
    × (payload_of (take 140 found) ≡ payload_of (take 140 found))
parse_and_verify_sound_example =
    parse_and_verify_sound zero_signature key
      (payload_of (take 140 (crypto_base64_decode (key_text key) 512))) parsed

abbrev payload : Payload
payload = record {
  type = 1;
  max_wans = 8;
  issued_at = 1000;
  expires_at = 2000;
  days_total = 30;
  hwid = 70 ∷ 87 ∷ [];
  client_name = 65 ∷ [];
}

abbrev info : Info
info = record {
  type = unlicensed;
  status = none_given;
  is_valid = false;
  hwid = [];
  client_name = [];
  max_wans = 3;
  days_total = 0;
  days_remaining = 0;
  issued_at = 0;
  expires_at = 0;
  active_seconds_remaining = 0;
  grace_seconds_remaining = 0;
}

update_status-valid_example : (update_status (102 ∷ 119 ∷ []) 1500 payload info 0).0.is_valid ≡ (
    same_text payload.hwid (102 ∷ 119 ∷ [])
    && (payload.type == 2 || not (rolled_back 0 1500) && not (leb payload.expires_at 1500)))
update_status-valid_example = update_status-valid (102 ∷ 119 ∷ []) 1500 payload info 0

abbrev state : State
state = record { info = info; last_tick_ms = 100; watermark = 1200; key_file = some key }

init-authorized_example :
    is_authorized (init zero_signature (102 ∷ 119 ∷ []) 1500 state).info ≡ true
init-authorized_example = init-authorized zero_signature (102 ∷ 119 ∷ []) 1500 state
