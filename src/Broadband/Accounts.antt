-- ===== src/Broadband/Accounts.antt =====
-- The operations of src/pppoe_server.c on one subscriber or profile, and its periodic check.
use flux_wan.Base.{
  ℕ, ◌+◌, ◌*◌, List, [], ◌∷◌, ◌++◌, Bool, true, false, not, ◌&&◌, ◌||◌, Option, none, some, u64,
  sub64, ltb, leb, ◌==◌, if◌then◌else◌, bytes_eq, length, take,
}
use flux_wan.Broadband.{
  Profile, User, Server, Live, World, Code, success, failure, max_pppoe_users, max_pppoe_profiles,
  day_sec, is_empty, is_expired, write_secrets, find_user, find_profile, modify_user, sessions_of,
  validity_of,
}

-- `safe_str_copy` into an array of 64 bytes.
abbrev pub copied : List ℕ → List ℕ
copied text = take 63 text

-- The time of creation and of expiry, where they are not given.
abbrev pub with_created : ℕ → User → User
with_created now u = record u { created_at = if u.created_at == 0 then now else u.created_at }

abbrev pub expiry_in : ℕ → ℕ → ℕ
expiry_in now days = if ltb 0 days then u64 (now + days * day_sec) else 0

abbrev pub with_expiry : ℕ → List Profile → User → User
with_expiry now profiles u = record u {
  expires_at =
      if u.expires_at == 0 && not (is_empty u.profile)
      then expiry_in now (validity_of (find_profile u.profile profiles))
      else u.expires_at;
}

abbrev pub same_flag : Bool → Bool → Bool
same_flag true b = b
same_flag false b = not b

abbrev pub is_changed : User → User → Bool
is_changed old u =
    not (bytes_eq old.password u.password)
    || not (bytes_eq old.profile u.profile)
    || not (same_flag old.enabled u.enabled)

abbrev pub place_user : World → Server → User → Option User → Server × List (List ℕ) × Code
place_user w s u none =
    if ltb (length s.users) max_pppoe_users
    then (write_secrets w (record s { users = s.users ++ (u ∷ []) }), [], success)
    else (s, [], failure)
place_user w s u (some old) = (
  write_secrets w (record s { users = modify_user u.username (λ _. u) s.users }),
  if is_changed old u then sessions_of u.username w.sessions else [],
  success,
)

-- `pppoe_server_set_user`.
unfoldable pub set_user : World → Server → User → Server × List (List ℕ) × Code
unfolding write_secrets
set_user w s user =
    let u = with_expiry w.now s.profiles (with_created w.now user) in
    if is_empty user.username
    then (s, [], failure)
    else place_user w s u (find_user user.username s.users)

unfoldable pub remove_user : List ℕ → List User → List User
remove_user name [] = []
remove_user name (u ∷ users) =
    if bytes_eq u.username name then users else u ∷ remove_user name users

abbrev pub delete_found : World → Server → List ℕ → Option User → Server
delete_found w s name none = s
delete_found w s name (some u) = write_secrets w (record s { users = remove_user name s.users })

-- `pppoe_server_delete_user`.
unfoldable pub delete_user : World → Server → List ℕ → Server × Code
unfolding write_secrets
delete_user w s username =
    if is_empty username
    then (s, failure)
    else (delete_found w s username (find_user username s.users), success)

abbrev pub new_profile_of : List ℕ → User → List ℕ
new_profile_of new_profile u =
    if is_empty new_profile || bytes_eq u.profile new_profile then u.profile else copied new_profile

-- 30 days where neither the call nor the profile names a number.
abbrev pub days_of : ℕ → List ℕ → List Profile → ℕ
days_of additional_days profile profiles =
    let validity = validity_of (find_profile profile profiles) in
    if additional_days == 0 then (if validity == 0 then 30 else validity) else additional_days

-- From now on if the subscription has ended or never had an end, else from its end on.
abbrev pub extend : ℕ → ℕ → ℕ → ℕ
extend now expires_at seconds =
    if expires_at == 0 || leb expires_at now
    then u64 (now + seconds)
    else u64 (expires_at + seconds)

abbrev pub renewed : ℕ → List Profile → ℕ → List ℕ → User → User
renewed now profiles additional_days new_profile u =
    let profile = new_profile_of new_profile u in
    record u {
      profile = profile;
      expires_at = extend now u.expires_at (days_of additional_days profile profiles * day_sec);
      enabled = true;
    }

abbrev pub renew_found :
    World → Server → List ℕ → ℕ → List ℕ → Option User → Server × List (List ℕ) × Code
renew_found w s username additional_days new_profile none = (s, [], failure)
renew_found w s username additional_days new_profile (some u) = (
  write_secrets w (record s {
    users = modify_user username (renewed w.now s.profiles additional_days new_profile) s.users;
  }),
  if is_empty new_profile || bytes_eq u.profile new_profile
      then []
      else sessions_of username w.sessions,
  success,
)

-- `pppoe_server_renew_user`. An empty `new_profile` is none.
unfoldable pub renew_user : World → Server → List ℕ → ℕ → List ℕ → Server × List (List ℕ) × Code
unfolding write_secrets
renew_user w s username additional_days new_profile =
    if is_empty username
    then (s, [], failure)
    else renew_found w s username additional_days new_profile (find_user username s.users)

abbrev pub toggle_found :
    World → Server → List ℕ → Bool → Option User → Server × List (List ℕ) × Code
toggle_found w s username enable none = (s, [], failure)
toggle_found w s username enable (some u) = (
  write_secrets w (record s {
    users = modify_user username (λ (v : User). record v { enabled = enable }) s.users;
  }),
  if enable then [] else sessions_of username w.sessions,
  success,
)

-- `pppoe_server_toggle_user`.
unfoldable pub toggle_user : World → Server → List ℕ → Bool → Server × List (List ℕ) × Code
unfolding write_secrets
toggle_user w s username enable =
    if is_empty username
    then (s, [], failure)
    else toggle_found w s username enable (find_user username s.users)

unfoldable pub any_expired : ℕ → List User → Bool
any_expired now [] = false
any_expired now (u ∷ users) = (u.enabled && is_expired now u) || any_expired now users

abbrev pub is_barred : ℕ → Option User → Bool
is_barred now none = false
is_barred now (some u) = not u.enabled || is_expired now u

-- The sessions of accounts that are disabled or have expired.
unfoldable pub barred : ℕ → List User → List Live → List (List ℕ)
barred now users [] = []
barred now users (l ∷ ls) =
    if is_barred now (find_user l.username users)
    then l.ifname ∷ barred now users ls
    else barred now users ls

-- `pppoe_server_periodic_tick`.
unfoldable pub periodic_tick : World → Server → ℕ → Server × List (List ℕ)
unfolding write_secrets
periodic_tick w s now_ms =
    let checked = record s { last_check_ms = now_ms } in
    if not s.enabled || ltb (sub64 now_ms s.last_check_ms) 5000 then (s, []) else (
      (if any_expired w.now s.users then write_secrets w checked else checked),
      barred w.now s.users w.sessions,
    )

unfoldable pub replace_profile : Profile → List Profile → List Profile
replace_profile p [] = []
replace_profile p (q ∷ profiles) =
    if bytes_eq q.name p.name then p ∷ profiles else q ∷ replace_profile p profiles

-- The profiles with one that is replaced or appended, none if there is no room.
abbrev pub place_profile : Profile → List Profile → Option Profile → Option (List Profile)
place_profile p profiles (some old) = some (replace_profile p profiles)
place_profile p profiles none =
    if ltb (length profiles) max_pppoe_profiles then some (profiles ++ (p ∷ [])) else none

unfoldable pub put_profile : Profile → List Profile → Option (List Profile)
put_profile p profiles = place_profile p profiles (find_profile p.name profiles)

abbrev pub with_profiles : Server → Option (List Profile) → Server × Code
with_profiles s none = (s, failure)
with_profiles s (some profiles) = (record s { profiles = profiles }, success)

-- `pppoe_server_set_profile`.
unfoldable pub set_profile : Server → Profile → Server × Code
unfolding put_profile
set_profile s profile =
    if is_empty profile.name then (s, failure) else with_profiles s (put_profile profile s.profiles)

unfoldable pub remove_profile : List ℕ → List Profile → List Profile
remove_profile name [] = []
remove_profile name (p ∷ profiles) =
    if bytes_eq p.name name then profiles else p ∷ remove_profile name profiles

-- `pppoe_server_delete_profile`.
unfoldable pub delete_profile : Server → List ℕ → Server × Code
unfolding remove_profile
delete_profile s name =
    if is_empty name
    then (s, failure)
    else (record s { profiles = remove_profile name s.profiles }, success)

unfoldable pub rename_first : List ℕ → List ℕ → List Profile → List Profile
rename_first old_name new_name [] = []
rename_first old_name new_name (p ∷ profiles) =
    if bytes_eq p.name old_name
    then record p { name = copied new_name } ∷ profiles
    else p ∷ rename_first old_name new_name profiles

unfoldable pub move_users : List ℕ → List ℕ → List User → List User
move_users old_name new_name [] = []
move_users old_name new_name (u ∷ users) =
    (if bytes_eq u.profile old_name then record u { profile = copied new_name } else u)
    ∷ move_users old_name new_name users

-- `pppoe_server_rename_profile`.
unfoldable pub rename_profile : Server → List ℕ → List ℕ → Server × Code
unfolding rename_first move_users
rename_profile s old_name new_name =
    if is_empty old_name || is_empty new_name then (s, failure) else (
      record s {
        profiles = rename_first old_name new_name s.profiles;
        users = move_users old_name new_name s.users;
      },
      success,
    )
