-- ===== src/Broadband/Secrets.antt =====
-- The files of secrets of src/pppoe_server.c against the accounts that may log in.
use flux_wan.Base.{
  ℕ, ◌≤◌, ◌≡◌, refl, inl, inr, List, [], ◌∷◌, Bool, true, false, ◌||◌, Option, none, some,
  Bool-cases, if_both, arith,
}
use flux_wan.Broadband.{
  Profile, User, Server, World, Code, is_empty, secrets, write_secrets, find_user,
}
use flux_wan.Broadband.Accounts.{
  set_user, place_user, delete_user, delete_found, renew_user, renew_found, toggle_user,
  toggle_found, any_expired, periodic_tick, set_profile, with_profiles, put_profile, delete_profile,
  rename_profile, move_users,
}
use flux_wan.Broadband.Import.{bulk_import}

-- Both files hold what the accounts were at a time.
pub record IsSynced (at : ℕ) (s : Server) : Type 0 where
  pub chap : s.chap_secrets ≡ some (secrets at s.users)
  pub pap : s.pap_secrets ≡ some (secrets at s.users)

-- Both files hold what the accounts were at some time until now.
abbrev pub Synced : ℕ → Server → Type 0
Synced now s = (at : ℕ) × (at ≤ now) × IsSynced at s

abbrev pub Opens : World → Type 0
Opens w = (w.opens_chap ≡ true) × (w.opens_pap ≡ true)

pub write_secrets-IsSynced : (w : World) (s : Server) → Opens w → IsSynced w.now (write_secrets w s)
unfolding write_secrets
write_secrets-IsSynced w s o = ground (arith, o.0, o.1)

-- As long as no enabled account expires, the same accounts are written.
pub secrets-later :
    (at now : ℕ) (users : List User)
    → at ≤ now
    → any_expired now users ≡ false
    → secrets at users ≡ secrets now users
unfolding secrets any_expired
secrets-later at now [] h e = refl
secrets-later at now (u ∷ users) h e = ground (arith, secrets-later at now users h)

secrets-move_users :
    (at : ℕ) (old new : List ℕ) (users : List User)
    → secrets at (move_users old new users) ≡ secrets at users
unfolding secrets move_users
secrets-move_users at old new [] = refl
secrets-move_users at old new (u ∷ users) = ground (arith, secrets-move_users at old new users)

-- A call of the server from outside.
pub data Command : Type 0 where
  set : User → Command
  delete : List ℕ → Command
  renew : List ℕ → ℕ → List ℕ → Command
  toggle : List ℕ → Bool → Command
  define : Profile → Command
  drop_profile : List ℕ → Command
  rename : List ℕ → List ℕ → Command
  load : List User → List Profile → Bool → Command
  tick : ℕ → Command

unfoldable pub apply : World → Server → Command → Server
apply w s (set u) = (set_user w s u).0
apply w s (delete name) = (delete_user w s name).0
apply w s (renew name days profile) = (renew_user w s name days profile).0
apply w s (toggle name enable) = (toggle_user w s name enable).0
apply w s (define p) = (set_profile s p).0
apply w s (drop_profile name) = (delete_profile s name).0
apply w s (rename old new) = (rename_profile s old new).0
apply w s (load users profiles replace) = bulk_import w s users profiles replace
apply w s (tick now_ms) = (periodic_tick w s now_ms).0

module _ (w : World) (o : Opens w) where
  written : (s : Server) → Synced w.now (write_secrets w s)
  written s = (w.now, omega arith, write_secrets-IsSynced w s o)

  place_user-Synced :
      (s : Server) (u : User) (f : Option User)
      → Synced w.now s
      → Synced w.now (place_user w s u f).0
  place_user-Synced s u (some old) v = written _
  place_user-Synced s u none v =
      if_both (λ (r : Server × List (List ℕ) × Code). Synced w.now r.0) _ (written _) v

  set_user-Synced : (s : Server) (u : User) → Synced w.now s → Synced w.now (set_user w s u).0
  unfolding set_user
  set_user-Synced s u v = elim (Bool-cases (is_empty u.username)) [
    | inl b ↦ rw b v
    | inr b ↦ rw b (place_user-Synced s _ (find_user u.username s.users) v)
  ]

  delete_user-Synced :
      (s : Server) (name : List ℕ) → Synced w.now s → Synced w.now (delete_user w s name).0
  unfolding delete_user
  delete_user-Synced s name v = elim (Bool-cases (is_empty name)) [
    | inl b ↦ rw b v
    | inr b ↦ rw b (found (find_user name s.users))
  ]
    where
      found : (f : Option User) → Synced w.now (delete_found w s name f)
      found none = v
      found (some u) = written _

  renew_user-Synced :
      (s : Server) (name : List ℕ) (days : ℕ) (profile : List ℕ)
      → Synced w.now s
      → Synced w.now (renew_user w s name days profile).0
  unfolding renew_user
  renew_user-Synced s name days profile v = elim (Bool-cases (is_empty name)) [
    | inl b ↦ rw b v
    | inr b ↦ rw b (found (find_user name s.users))
  ]
    where
      found : (f : Option User) → Synced w.now (renew_found w s name days profile f).0
      found none = v
      found (some u) = written _

  toggle_user-Synced :
      (s : Server) (name : List ℕ) (enable : Bool)
      → Synced w.now s
      → Synced w.now (toggle_user w s name enable).0
  unfolding toggle_user
  toggle_user-Synced s name enable v = elim (Bool-cases (is_empty name)) [
    | inl b ↦ rw b v
    | inr b ↦ rw b (found (find_user name s.users))
  ]
    where
      found : (f : Option User) → Synced w.now (toggle_found w s name enable f).0
      found none = v
      found (some u) = written _

  set_profile-Synced :
      (s : Server) (p : Profile) → Synced w.now s → Synced w.now (set_profile s p).0
  unfolding set_profile
  set_profile-Synced s p v = elim (Bool-cases (is_empty p.name)) [
    | inl b ↦ rw b v
    | inr b ↦ rw b (placed (put_profile p s.profiles))
  ]
    where
      placed : (o : Option (List Profile)) → Synced w.now (with_profiles s o).0
      placed none = v
      placed (some profiles) = (v.0, v.1, record { chap = v.2.chap; pap = v.2.pap })

  rename_profile-Synced :
      (s : Server) (old new : List ℕ) → Synced w.now s → Synced w.now (rename_profile s old new).0
  unfolding rename_profile
  rename_profile-Synced s old new v =
      if_both (λ (r : Server × Code). Synced w.now r.0) (is_empty old || is_empty new) v
        (
          v.0,
          v.1,
          record { chap = rw secrets-move_users v.2.chap; pap = rw secrets-move_users v.2.pap },
        )

  delete_profile-Synced :
      (s : Server) (name : List ℕ) → Synced w.now s → Synced w.now (delete_profile s name).0
  unfolding delete_profile
  delete_profile-Synced s name v =
      if_both (λ (r : Server × Code). Synced w.now r.0) (is_empty name) v
        (v.0, v.1, record { chap = v.2.chap; pap = v.2.pap })

  bulk_import-Synced :
      (s : Server) (users : List User) (profiles : List Profile) (replace : Bool)
      → Synced w.now (bulk_import w s users profiles replace)
  unfolding bulk_import
  bulk_import-Synced s users profiles replace = written _

  tick-Synced :
      (s : Server) (now_ms : ℕ) → Synced w.now s → Synced w.now (periodic_tick w s now_ms).0
  unfolding periodic_tick
  tick-Synced s now_ms v =
      let kept : Synced w.now (record s { last_check_ms = now_ms }) =
        (v.0, v.1, record { chap = v.2.chap; pap = v.2.pap }) in
      if_both (λ (r : Server × List (List ℕ)). Synced w.now r.0) _ v
        (if_both (Synced w.now) (any_expired w.now s.users) (written _) kept)

  pub apply-Synced : (s : Server) (c : Command) → Synced w.now s → Synced w.now (apply w s c)
  unfolding apply
  apply-Synced s (set u) v = set_user-Synced s u v
  apply-Synced s (delete name) v = delete_user-Synced s name v
  apply-Synced s (renew name days profile) v = renew_user-Synced s name days profile v
  apply-Synced s (toggle name enable) v = toggle_user-Synced s name enable v
  apply-Synced s (define p) v = set_profile-Synced s p v
  apply-Synced s (drop_profile name) v = delete_profile-Synced s name v
  apply-Synced s (rename old new) v = rename_profile-Synced s old new v
  apply-Synced s (load users profiles replace) v = bulk_import-Synced s users profiles replace
  apply-Synced s (tick now_ms) v = tick-Synced s now_ms v
