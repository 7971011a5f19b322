-- ===== src/Broadband/Import.antt =====
-- `pppoe_server_bulk_import` of src/pppoe_server.c.
use flux_wan.Base.{
  ℕ, ◌+◌, ◌*◌, List, [], ◌∷◌, ◌++◌, Bool, true, false, not, ◌&&◌, ◌||◌, Option, none, some, u64,
  ltb, ◌==◌, if◌then◌else◌, length,
}
use flux_wan.Broadband.{
  Profile, User, Server, World, max_pppoe_users, max_pppoe_profiles, day_sec, is_empty,
  write_secrets, find_user, find_profile, modify_user,
}
use flux_wan.Broadband.Accounts.{copied, with_created, put_profile}

abbrev pub or_same : List Profile → Option (List Profile) → List Profile
or_same profiles none = profiles
or_same profiles (some new) = new

-- The profiles come first. One without a name, or without room, is skipped.
unfoldable pub import_profiles : List Profile → List Profile → List Profile
import_profiles profiles [] = profiles
import_profiles profiles (p ∷ new) =
    import_profiles
      (if is_empty p.name then profiles else or_same profiles (put_profile p profiles)) new

-- "Auto-created on import"
abbrev pub import_note : List ℕ
import_note =
    65 ∷ 117 ∷ 116 ∷ 111 ∷ 45 ∷ 99 ∷ 114 ∷ 101 ∷ 97 ∷ 116 ∷ 101 ∷ 100 ∷ 32 ∷ 111 ∷ 110 ∷ 32 ∷ 105
    ∷ 109 ∷ 112 ∷ 111 ∷ 114 ∷ 116 ∷ []

-- 10 Mbit/s down, 5 up, 30 days.
abbrev pub auto_profile : List ℕ → Profile
auto_profile name = record {
  name = copied name;
  rate_down_kbps = 10240;
  rate_up_kbps = 5120;
  validity_days = 30;
  description = import_note;
}

abbrev pub or_expiry : ℕ → ℕ → User → User
or_expiry now days u = record u {
  expires_at = if u.expires_at == 0 && ltb 0 days then u64 (now + days * day_sec) else u.expires_at;
}

-- The account with its expiry, and the profiles with one for it if it names none that exists.
abbrev pub with_profile : ℕ → List Profile → User → Option Profile → List Profile × User
with_profile now profiles u (some p) = (profiles, or_expiry now p.validity_days u)
with_profile now profiles u none =
    if ltb (length profiles) max_pppoe_profiles
    then (profiles ++ (auto_profile u.profile ∷ []), or_expiry now 30 u)
    else (profiles, u)

abbrev pub settle : ℕ → List Profile → User → List Profile × User
settle now profiles u =
    if is_empty u.profile
    then (profiles, u)
    else with_profile now profiles u (find_profile u.profile profiles)

abbrev pub place : User → List User → Option User → List User
place u users (some old) = modify_user u.username (λ _. u) users
place u users none = if ltb (length users) max_pppoe_users then users ++ (u ∷ []) else users

-- An account without a name or a password is skipped.
unfoldable pub import_users : ℕ → List Profile → List User → List User → List Profile × List User
import_users now profiles users [] = (profiles, users)
import_users now profiles users (nu ∷ new) =
    let (profiles', u) = settle now profiles (with_created now nu) in
    let skip = is_empty nu.username || is_empty nu.password in
    import_users now (if skip then profiles else profiles')
      (if skip then users else place u users (find_user u.username users)) new

abbrev pub no_profiles : List Profile → Bool
no_profiles [] = true
no_profiles (p ∷ profiles) = false

-- In replace mode the accounts are dropped first, the profiles only if new ones come with the call.
unfoldable pub bulk_import : World → Server → List User → List Profile → Bool → Server
unfolding write_secrets import_profiles import_users
bulk_import w s new_users new_profs replace_mode =
    let kept = if replace_mode && not (no_profiles new_profs) then [] else s.profiles in
    let profiles = import_profiles kept new_profs in
    let (profiles', users) =
      import_users w.now profiles (if replace_mode then [] else s.users) new_users in
    write_secrets w (record s { profiles = profiles'; users = users })
