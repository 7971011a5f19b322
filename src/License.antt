-- ===== src/License.antt =====
-- src/license_manager.c: the licence state and its operations. The files under /opt/fluxwan/config
-- are fields of the state: `watermark` is 0 where that file cannot be read. `time(NULL)` is the
-- argument `now_ts`. The texts of the status and of the errors are left out.
pub mod Operations
pub mod Key
pub mod Status
pub mod Grace
use flux_wan.Base.{
  ℕ, zero, suc, ◌+◌, ◌-◌, ◌*◌, ◌/◌, ◌%◌, List, [], ◌∷◌, ◌++◌, Bool, true, false, not, ◌&&◌, ◌||◌,
  Option, none, some, u32, u64, ltb, leb, ◌==◌, if◌then◌else◌, bytes_eq, length, get_or, take, drop,
}
use flux_wan.Base64.{within, crypto_base64_decode}

pub data LicenseType : Type 0 where
  unlicensed days lifetime : LicenseType

pub data LicenseStatus : Type 0 where
  none_given active expired tampered hw_mismatch grace : LicenseStatus

pub record Info : Type 0 where
  pub type : LicenseType
  pub status : LicenseStatus
  pub is_valid : Bool
  pub hwid : List ℕ
  pub client_name : List ℕ
  pub max_wans : ℕ
  pub days_total : ℕ
  pub days_remaining : ℕ
  pub issued_at : ℕ
  pub expires_at : ℕ
  pub active_seconds_remaining : ℕ
  pub grace_seconds_remaining : ℕ

pub record Payload : Type 0 where
  pub type : ℕ
  pub max_wans : ℕ
  pub issued_at : ℕ
  pub expires_at : ℕ
  pub days_total : ℕ
  pub hwid : List ℕ
  pub client_name : List ℕ

pub record State : Type 0 where
  pub info : Info
  pub last_tick_ms : ℕ
  pub watermark : ℕ
  pub key_file : Option (List ℕ)

abbrev pub default_grace_sec : ℕ
default_grace_sec = 1800

unfoldable pub c_string : List ℕ → List ℕ
c_string [] = []
c_string (b ∷ bs) = if b == 0 then [] else b ∷ c_string bs

-- A little-endian number.
unfoldable pub le_number : List ℕ → ℕ
le_number [] = 0
le_number (b ∷ bs) = b + 0x100 * le_number bs

abbrev pub field : ℕ → ℕ → List ℕ → ℕ
field at size blob = le_number (take size (drop at blob))

-- The packed `license_payload_t`. A text ends at the first zero byte, wherever that stands.
unfoldable pub payload_of : List ℕ → Payload
payload_of blob = record {
  type = field 5 1 blob;
  max_wans = field 6 2 blob;
  issued_at = field 8 8 blob;
  expires_at = field 16 8 blob;
  days_total = field 24 4 blob;
  hwid = c_string (drop 28 blob);
  client_name = c_string (drop 60 blob);
}

unfoldable pub skip_space : List ℕ → List ℕ
skip_space [] = []
skip_space (c ∷ cs) = if c == 32 || c == 9 || c == 13 || c == 10 then skip_space cs else c ∷ cs

-- "FLUX-LIC-" and "FLIC"
abbrev pub key_prefix : List ℕ
key_prefix = 70 ∷ 76 ∷ 85 ∷ 88 ∷ 45 ∷ 76 ∷ 73 ∷ 67 ∷ 45 ∷ []

abbrev pub magic : List ℕ
magic = 70 ∷ 76 ∷ 73 ∷ 67 ∷ []

unfoldable pub key_text : List ℕ → List ℕ
key_text key = let p = skip_space key in if bytes_eq (take 9 p) key_prefix then drop 9 p else p

-- The results of `parse_and_verify_license_key`. The decoder never reports an error, so -2 does not
-- occur.
pub data Parsed : Type 0 where
  verified : Payload → Parsed
  bad_length bad_magic bad_signature : Parsed

unfoldable pub check_blob : (List ℕ → List ℕ → Bool) → List ℕ → Parsed
check_blob verify blob =
    if not (length blob == 204)
    then bad_length
    else (if not (bytes_eq (take 4 blob) magic)
        then bad_magic
        else (if verify (drop 140 blob) (take 140 blob)
            then verified (payload_of (take 140 blob))
            else bad_signature))

unfoldable pub parse_and_verify : (List ℕ → List ℕ → Bool) → List ℕ → Parsed
parse_and_verify verify key = check_blob verify (crypto_base64_decode (key_text key) 512)

abbrev pub lower : ℕ → ℕ
lower c = if within 65 90 c then c + 32 else c

unfoldable pub same_text : List ℕ → List ℕ → Bool
same_text [] [] = true
same_text [] (d ∷ ds) = false
same_text (c ∷ cs) [] = false
same_text (c ∷ cs) (d ∷ ds) = lower c == lower d && same_text cs ds

abbrev pub later : ℕ → ℕ → ℕ
later wm now_ts = if ltb wm now_ts then now_ts else wm

-- The clock stands more than five minutes before the watermark.
abbrev pub rolled_back : ℕ → ℕ → Bool
rolled_back wm now_ts = ltb 0 wm && ltb (now_ts + 300) wm

abbrev pub days_left : ℕ → ℕ
days_left rem_sec = u32 ((rem_sec + 86399) / 86400)

-- What every branch of `update_license_status_from_payload` copies.
abbrev pub copied : Payload → Info → Info
copied p info = record info {
  max_wans = if ltb 0 p.max_wans then p.max_wans else 256;
  issued_at = p.issued_at;
  expires_at = p.expires_at;
  days_total = p.days_total;
  client_name = take 63 p.client_name;
  hwid = take 31 p.hwid;
}

abbrev pub ended : LicenseStatus → Info → Info
ended s info = record info {
  status = s;
  is_valid = false;
  days_remaining = 0;
  active_seconds_remaining = 0;
}

abbrev pub running : ℕ → Info → Info
running rem_sec info = record info {
  status = active;
  is_valid = true;
  active_seconds_remaining = rem_sec;
  days_remaining = days_left rem_sec;
}

-- The new info and the new watermark.
unfoldable pub update_status : List ℕ → ℕ → Payload → Info → ℕ → Info × ℕ
update_status local_hwid now_ts p info wm =
    let base = copied p info in
    let subscription : Info = record base { type = days } in
    let forever : Info = record base {
      type = lifetime;
      status = active;
      is_valid = true;
      days_remaining = 99999;
      active_seconds_remaining = 0xFFFFFFFF;
    } in
    if not (same_text p.hwid local_hwid)
    then (record base { status = hw_mismatch; is_valid = false }, wm)
    else (if p.type == 2
        then (forever, wm)
        else (if rolled_back wm now_ts then (ended tampered subscription, wm) else (
          if leb p.expires_at now_ts
              then ended expired subscription
              else running (p.expires_at - now_ts) subscription,
          later wm now_ts,
        )))

abbrev pub is_grace : LicenseStatus → Bool
is_grace grace = true
is_grace _ = false

abbrev pub is_days : LicenseType → Bool
is_days days = true
is_days _ = false

unfoldable pub is_authorized : Info → Bool
is_authorized info = info.is_valid || is_grace info.status && ltb 0 info.grace_seconds_remaining
