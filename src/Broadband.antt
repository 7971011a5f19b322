-- ===== src/Broadband.antt =====
-- src/pppoe_server.c: the subscribers of the PPPoE server and their profiles, with the files of
-- secrets that `pppd` reads. The clock, the live sessions and whether a file can be opened are
-- inputs; the sessions that are disconnected are recorded. The lock, the logging, the shell
-- scripts and the export are left out.
pub mod Accounts
pub mod Import
pub mod Secrets
pub mod History
pub mod Renewal
pub mod Tables
pub mod Profiles
pub mod Bounds
use flux_wan.Base.{
  ℕ, zero, suc, ◌+◌, ◌-◌, ◌*◌, List, [], ◌∷◌, ◌++◌, Bool, true, false, not, ◌&&◌, ◌||◌, Option,
  none, some, u64, sub64, ltb, leb, ◌==◌, if◌then◌else◌, bytes_eq, length,
}

-- `pppoe_profile_t`; 0 days are no limit.
pub record Profile : Type 0 where
  pub name : List ℕ
  pub rate_down_kbps : ℕ
  pub rate_up_kbps : ℕ
  pub validity_days : ℕ
  pub description : List ℕ

-- `pppoe_user_t`; an `expires_at` of 0 is no limit.
pub record User : Type 0 where
  pub username : List ℕ
  pub password : List ℕ
  pub profile : List ℕ
  pub static_ip : List ℕ
  pub comment : List ℕ
  pub created_at : ℕ
  pub expires_at : ℕ
  pub enabled : Bool

-- A line of a file of secrets; `address` is empty for `*`.
pub record Secret : Type 0 where
  pub client : List ℕ
  pub secret : List ℕ
  pub address : List ℕ

-- The settings of the server with the files, none for one that was never written, and the time of
-- the last check of `pppoe_server_periodic_tick`.
pub record Server : Type 0 where
  pub enabled : Bool
  pub profiles : List Profile
  pub users : List User
  pub chap_secrets : Option (List Secret)
  pub pap_secrets : Option (List Secret)
  pub last_check_ms : ℕ

-- A live session, as `pppoe_server_get_sessions` reads it.
pub record Live : Type 0 where
  pub ifname : List ℕ
  pub username : List ℕ

-- The outside of one call: `time(NULL)`, whether the two files can be opened, the live sessions.
pub record World : Type 0 where
  pub now : ℕ
  pub opens_chap : Bool
  pub opens_pap : Bool
  pub sessions : List Live

pub data Code : Type 0 where
  success failure : Code

abbrev pub max_pppoe_users : ℕ
max_pppoe_users = 4096

abbrev pub max_pppoe_profiles : ℕ
max_pppoe_profiles = 64

abbrev pub day_sec : ℕ
day_sec = 86400

abbrev pub is_empty : List ℕ → Bool
is_empty [] = true
is_empty (c ∷ text) = false

abbrev pub is_expired : ℕ → User → Bool
is_expired now u = ltb 0 u.expires_at && leb u.expires_at now

-- The accounts that `write_pppoe_secrets` writes.
abbrev pub is_written : ℕ → User → Bool
is_written now u = u.enabled && not (is_empty u.username) && not (is_expired now u)

abbrev pub secret_of : User → Secret
secret_of u = record { client = u.username; secret = u.password; address = u.static_ip }

unfoldable pub secrets : ℕ → List User → List Secret
secrets now [] = []
secrets now (u ∷ users) =
    if is_written now u then secret_of u ∷ secrets now users else secrets now users

-- `write_pppoe_secrets`.
unfoldable pub write_secrets : World → Server → Server
write_secrets w s = record s {
  chap_secrets = if w.opens_chap then some (secrets w.now s.users) else s.chap_secrets;
  pap_secrets = if w.opens_pap then some (secrets w.now s.users) else s.pap_secrets;
}

unfoldable pub find_user : List ℕ → List User → Option User
find_user name [] = none
find_user name (u ∷ users) = if bytes_eq u.username name then some u else find_user name users

unfoldable pub find_profile : List ℕ → List Profile → Option Profile
find_profile name [] = none
find_profile name (p ∷ profiles) =
    if bytes_eq p.name name then some p else find_profile name profiles

-- The first account with the name, changed.
unfoldable pub modify_user : List ℕ → (User → User) → List User → List User
modify_user name f [] = []
modify_user name f (u ∷ users) =
    if bytes_eq u.username name then f u ∷ users else u ∷ modify_user name f users

-- The interfaces of the sessions of a user.
unfoldable pub sessions_of : List ℕ → List Live → List (List ℕ)
sessions_of name [] = []
sessions_of name (l ∷ ls) =
    if bytes_eq l.username name then l.ifname ∷ sessions_of name ls else sessions_of name ls

abbrev pub validity_of : Option Profile → ℕ
validity_of none = 0
validity_of (some p) = p.validity_days
