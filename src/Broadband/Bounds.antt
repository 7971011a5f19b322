-- ===== src/Broadband/Bounds.antt =====
-- The tables of src/pppoe_server.c: no name stands twice among the subscribers, and neither table
-- outgrows its array.
use flux_wan.Base.{
  ℕ, ◌≡◌, refl, inl, inr, List, [], Bool, not, ◌&&◌, ◌||◌, Option, none, some, Bool-cases, ltb,
  length, if_both, if◌then◌else◌, arith,
}
use flux_wan.Broadband.{User, Profile, Server, World, Code, is_empty, write_secrets, find_user}
use flux_wan.Broadband.Accounts.{
  any_expired, set_user, place_user, delete_user, delete_found, remove_user, renew_user,
  renew_found, renewed, toggle_user, toggle_found, periodic_tick, set_profile, with_profiles,
  put_profile, delete_profile, rename_profile,
}
use flux_wan.Broadband.Import.{or_same, import_profiles, no_profiles, bulk_import}
use flux_wan.Broadband.Profiles.{
  remove_profile-length, rename_first-length, put_profile-Fits, import_profiles-Fits,
  import_users-Fits,
}
use flux_wan.Broadband.Tables.{
  count, FitsUsers, FitsProfiles, Fits, append-Fits, replace-Fits, modify-Fits, count-remove,
  length-remove, count-move, length-move,
}
use flux_wan.Broadband.Secrets.{
  Command, set, delete, renew, toggle, define, drop_profile, rename, load, tick, apply,
}

write_secrets-Fits : (w : World) (s : Server) → Fits s → Fits (write_secrets w s)
unfolding write_secrets
write_secrets-Fits w s v = v

place_user-Fits :
    (w : World) (s : Server) (u : User) (o : Option User)
    → find_user u.username s.users ≡ o
    → Fits s
    → Fits (place_user w s u o).0
unfolding write_secrets
place_user-Fits w s u (some old) e v = (replace-Fits u s.users v.0, v.1)
place_user-Fits w s u none e v = elim (Bool-cases (ltb (length s.users) 4096)) [
  | inl b ↦ rw b (append-Fits u s.users v.0 e (ground arith), v.1)
  | inr b ↦ rw b v
]

delete_found-Fits :
    (w : World) (s : Server) (name : List ℕ) (o : Option User)
    → Fits s
    → Fits (delete_found w s name o)
delete_found-Fits w s name none v = v
delete_found-Fits w s name (some u) v =
    write_secrets-Fits w (record s { users = remove_user name s.users })
      (
        record {
          once = λ key. omega (arith, count-remove name key s.users, v.0.once key);
          few = omega (arith, length-remove name s.users, v.0.few);
        },
        v.1,
      )

renew_found-Fits :
    (w : World) (s : Server) (name : List ℕ) (days : ℕ) (profile : List ℕ) (o : Option User)
    → Fits s
    → Fits (renew_found w s name days profile o).0
unfolding write_secrets
renew_found-Fits w s name days profile none v = v
renew_found-Fits w s name days profile (some u) v =
    (modify-Fits name (renewed w.now s.profiles days profile) s.users (λ u'. refl) v.0, v.1)

toggle_found-Fits :
    (w : World) (s : Server) (name : List ℕ) (enable : Bool) (o : Option User)
    → Fits s
    → Fits (toggle_found w s name enable o).0
unfolding write_secrets
toggle_found-Fits w s name enable none v = v
toggle_found-Fits w s name enable (some u) v =
    (modify-Fits name (λ (u' : User). record u' { enabled = enable }) s.users (λ u'. refl) v.0, v.1)

with_profiles-Fits :
    (s : Server) (o : Option (List Profile))
    → Fits s
    → FitsProfiles (or_same s.profiles o)
    → Fits (with_profiles s o).0
with_profiles-Fits s none v h = v
with_profiles-Fits s (some profiles) v h = (v.0, h)

rename-Fits : (s : Server) (old new : List ℕ) → Fits s → Fits (rename_profile s old new).0
unfolding rename_profile
rename-Fits s old new v =
    if_both (λ (r : Server × Code). Fits r.0) (is_empty old || is_empty new) v
      (
        record { once = λ key. rw count-move (v.0.once key); few = rw length-move v.0.few },
        omega (arith, rename_first-length old new s.profiles, v.1),
      )

bulk_import-Fits :
    (w : World) (s : Server) (users : List User) (profiles : List Profile) (replace : Bool)
    → Fits s
    → Fits (bulk_import w s users profiles replace)
unfolding bulk_import write_secrets
bulk_import-Fits w s users profiles replace v =
    let kept = if replace && not (no_profiles profiles) then [] else s.profiles in
    let none_left : FitsUsers [] = record {
      once = λ name. unfold count in omega arith;
      few = omega arith;
    } in
    let no_room : FitsProfiles [] = omega arith in
    let r =
      import_users-Fits w.now (import_profiles kept profiles) (if replace then [] else s.users)
        users (if_both FitsUsers replace {x = []} {y = s.users} none_left v.0)
        (import_profiles-Fits kept profiles (
          if_both FitsProfiles (replace && not (no_profiles profiles)) {x = []} {y = s.profiles}
            no_room v.1)) in
    (r.0, r.1)

periodic_tick-Fits :
    (w : World) (s : Server) (now_ms : ℕ) → Fits s → Fits (periodic_tick w s now_ms).0
unfolding periodic_tick write_secrets
periodic_tick-Fits w s now_ms v =
    if_both (λ (r : Server × List (List ℕ)). Fits r.0) _ v
      (if_both Fits (any_expired w.now s.users) v v)

set_user-Fits : (w : World) (s : Server) (u : User) → Fits s → Fits (set_user w s u).0
unfolding set_user
set_user-Fits w s u v = elim (Bool-cases (is_empty u.username)) [
  | inl b ↦ rw b v
  | inr b ↦ rw b (place_user-Fits w s _ (find_user u.username s.users) refl v)
]

delete_user-Fits : (w : World) (s : Server) (name : List ℕ) → Fits s → Fits (delete_user w s name).0
unfolding delete_user
delete_user-Fits w s name v = elim (Bool-cases (is_empty name)) [
  | inl b ↦ rw b v
  | inr b ↦ rw b (delete_found-Fits w s name (find_user name s.users) v)
]

renew_user-Fits :
    (w : World) (s : Server) (name : List ℕ) (days : ℕ) (profile : List ℕ)
    → Fits s
    → Fits (renew_user w s name days profile).0
unfolding renew_user
renew_user-Fits w s name days profile v = elim (Bool-cases (is_empty name)) [
  | inl b ↦ rw b v
  | inr b ↦ rw b (renew_found-Fits w s name days profile (find_user name s.users) v)
]

toggle_user-Fits :
    (w : World) (s : Server) (name : List ℕ) (enable : Bool)
    → Fits s
    → Fits (toggle_user w s name enable).0
unfolding toggle_user
toggle_user-Fits w s name enable v = elim (Bool-cases (is_empty name)) [
  | inl b ↦ rw b v
  | inr b ↦ rw b (toggle_found-Fits w s name enable (find_user name s.users) v)
]

set_profile-Fits : (s : Server) (p : Profile) → Fits s → Fits (set_profile s p).0
unfolding set_profile
set_profile-Fits s p v = elim (Bool-cases (is_empty p.name)) [
  | inl b ↦ rw b v
  | inr b ↦
      rw b (with_profiles-Fits s (put_profile p s.profiles) v (put_profile-Fits p s.profiles v.1))
]

delete_profile-Fits : (s : Server) (name : List ℕ) → Fits s → Fits (delete_profile s name).0
unfolding delete_profile
delete_profile-Fits s name v =
    if_both (λ (r : Server × Code). Fits r.0) (is_empty name) v
      (v.0, omega (arith, remove_profile-length name s.profiles, v.1))

-- Whatever is called, in the table of subscribers no name stands twice, and the tables hold at most
-- 4096 subscribers and 64 profiles, if it was so before.
pub apply-Fits : (w : World) (s : Server) (c : Command) → Fits s → Fits (apply w s c)
unfolding apply
apply-Fits w s (set u) v = set_user-Fits w s u v
apply-Fits w s (delete name) v = delete_user-Fits w s name v
apply-Fits w s (renew name days profile) v = renew_user-Fits w s name days profile v
apply-Fits w s (toggle name enable) v = toggle_user-Fits w s name enable v
apply-Fits w s (define p) v = set_profile-Fits s p v
apply-Fits w s (drop_profile name) v = delete_profile-Fits s name v
apply-Fits w s (rename old new) v = rename-Fits s old new v
apply-Fits w s (load users profiles replace) v = bulk_import-Fits w s users profiles replace v
apply-Fits w s (tick now_ms) v = periodic_tick-Fits w s now_ms v
