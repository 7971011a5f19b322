-- ===== src/Broadband/Profiles.antt =====
-- The table of profiles of src/pppoe_server.c, and what an import adds to both tables.
use flux_wan.Base.{
  ℕ, ◌≤◌, ◌≡◌, refl, inl, inr, List, [], ◌∷◌, ◌||◌, Option, none, some, Bool-cases, ltb, length,
  length-append, if_both, if◌then◌else◌, arith,
}
use flux_wan.Broadband.{User, Profile, is_empty, find_user, find_profile}
use flux_wan.Broadband.Accounts.{
  with_created, place_profile, put_profile, replace_profile, remove_profile, rename_first,
}
use flux_wan.Broadband.Import.{
  auto_profile, or_same, import_profiles, with_profile, settle, place, import_users,
}
use flux_wan.Broadband.Tables.{FitsUsers, FitsProfiles, append-Fits, replace-Fits}

pub replace_profile-length :
    (p : Profile) (profiles : List Profile) → length (replace_profile p profiles) ≡ length profiles
unfolding replace_profile
replace_profile-length p [] = refl
replace_profile-length p (q ∷ profiles) = ground (arith, replace_profile-length p profiles)

pub remove_profile-length :
    (name : List ℕ) (profiles : List Profile)
    → length (remove_profile name profiles) ≤ length profiles
unfolding remove_profile
remove_profile-length name [] = omega arith
remove_profile-length name (q ∷ profiles) = ground (arith, remove_profile-length name profiles)

pub rename_first-length :
    (old new : List ℕ) (profiles : List Profile)
    → length (rename_first old new profiles) ≡ length profiles
unfolding rename_first
rename_first-length old new [] = refl
rename_first-length old new (q ∷ profiles) = ground (arith, rename_first-length old new profiles)

pub place_profile-Fits :
    (p : Profile) (profiles : List Profile) (o : Option Profile)
    → FitsProfiles profiles
    → FitsProfiles (or_same profiles (place_profile p profiles o))
place_profile-Fits p profiles (some old) v = omega (arith, replace_profile-length p profiles)
place_profile-Fits p profiles none v = ground (arith, length-append profiles (p ∷ []))

pub put_profile-Fits :
    (p : Profile) (profiles : List Profile)
    → FitsProfiles profiles
    → FitsProfiles (or_same profiles (put_profile p profiles))
unfolding put_profile
put_profile-Fits p profiles v = place_profile-Fits p profiles (find_profile p.name profiles) v

pub import_profiles-Fits :
    (profiles new : List Profile)
    → FitsProfiles profiles
    → FitsProfiles (import_profiles profiles new)
unfolding import_profiles
import_profiles-Fits profiles [] v = v
import_profiles-Fits profiles (p ∷ new) v =
    import_profiles-Fits
      (if is_empty p.name then profiles else or_same profiles (put_profile p profiles)) new
      (if_both FitsProfiles (is_empty p.name) v (put_profile-Fits p profiles v))

pub with_profile-Fits :
    (now : ℕ) (profiles : List Profile) (u : User) (o : Option Profile)
    → FitsProfiles profiles
    → FitsProfiles (with_profile now profiles u o).0
with_profile-Fits now profiles u (some p) v = v
with_profile-Fits now profiles u none v =
    ground (arith, length-append profiles (auto_profile u.profile ∷ []))

pub settle-Fits :
    (now : ℕ) (profiles : List Profile) (u : User)
    → FitsProfiles profiles
    → FitsProfiles (settle now profiles u).0
settle-Fits now profiles u v = elim (Bool-cases (is_empty u.profile)) [
  | inl b ↦ rw b v
  | inr b ↦ rw b (with_profile-Fits now profiles u (find_profile u.profile profiles) v)
]

pub place-Fits :
    (u : User) (users : List User) (o : Option User)
    → find_user u.username users ≡ o
    → FitsUsers users
    → FitsUsers (place u users o)
place-Fits u users (some old) e v = replace-Fits u users v
place-Fits u users none e v = elim (Bool-cases (ltb (length users) 4096)) [
  | inl b ↦ rw b (append-Fits u users v e (ground arith))
  | inr b ↦ rw b v
]

pub import_users-Fits :
    (now : ℕ) (profiles : List Profile) (users new : List User)
    → FitsUsers users
    → FitsProfiles profiles
    → FitsUsers (import_users now profiles users new).1
      × FitsProfiles (import_users now profiles users new).0
unfolding import_users
import_users-Fits now profiles users [] v w = (v, w)
import_users-Fits now profiles users (nu ∷ new) v w =
    let r = settle now profiles (with_created now nu) in
    let skip = is_empty nu.username || is_empty nu.password in
    let users' = place r.1 users (find_user r.1.username users) in
    import_users-Fits now (if skip then profiles else r.0) (if skip then users else users') new
      (if_both FitsUsers skip v (place-Fits r.1 users (find_user r.1.username users) refl v))
      (if_both FitsProfiles skip w (settle-Fits now profiles (with_created now nu) w))
