-- ===== src/Examples/Broadband.antt =====
-- src/pppoe_server.c with the subscriber "a", whose subscription ends at second 1000.
use flux_wan.Base.{
  get_elem?, length, false, ℕ, ◌+◌, ◌*◌, ◌≤◌, ◌≡◌, refl, List, [], ◌∷◌, true, some, bytes_eq, sub64,
  ltb, if◌then◌else◌, arith,
}
use flux_wan.Broadband.{User, Server, World, success, day_sec, secrets, find_user}
use flux_wan.Broadband.Accounts.{toggle_user, periodic_tick, renew_user, days_of, new_profile_of}
use flux_wan.Broadband.Secrets.{Synced, set, toggle, apply}
use flux_wan.Broadband.History.{history, periodic_tick-exact}
use flux_wan.Broadband.Renewal.{RenewedUntil, renew_user-RenewedUntil}
use flux_wan.Broadband.Tables.{count, Fits}
use flux_wan.Broadband.Bounds.{apply-Fits}

abbrev name : List ℕ
name = b'a' ∷ []

abbrev user : User
user = record {
  username = name;
  password = b'x' ∷ [];
  profile = b'p' ∷ [];
  static_ip = [];
  comment = [];
  created_at = 1;
  expires_at = 1000;
  enabled = true;
}

abbrev server : Server
server = record {
  enabled = true;
  profiles = [];
  users = user ∷ [];
  chap_secrets = some (secrets 5 (user ∷ []));
  pap_secrets = some (secrets 5 (user ∷ []));
  last_check_ms = 0;
}

abbrev at : ℕ → World
at now = record { now = now; opens_chap = true; opens_pap = true; sessions = [] }

server-Synced : Synced 5 server
server-Synced = (5, omega arith, record { chap = refl; pap = refl })

check_due :
    ((history server ((at 7, toggle name true) ∷ [])).enabled ≡ true)
    × (5000 ≤ sub64 6000 (history server ((at 7, toggle name true) ∷ [])).last_check_ms)
unfolding history apply toggle_user find_user bytes_eq
check_due = (refl, omega arith)

periodic_tick-exact_example :
    ((periodic_tick (at 2000) (history server ((at 7, toggle name true) ∷ [])) 6000).0.chap_secrets
      ≡ some (secrets 2000 (history server ((at 7, toggle name true) ∷ [])).users))
    × ((periodic_tick (at 2000) (history server ((at 7, toggle name true) ∷ [])) 6000).0.pap_secrets
        ≡ some (secrets 2000 (history server ((at 7, toggle name true) ∷ [])).users))
periodic_tick-exact_example =
    periodic_tick-exact server 5 ((at 7, toggle name true) ∷ []) (at 2000) 6000 server-Synced
      (omega arith, (refl, refl), omega arith) (refl, refl) check_due.0 check_due.1

user_found : find_user name server.users ≡ some user
unfolding find_user bytes_eq
user_found = refl

profile_days : days_of 10 (new_profile_of [] user) server.profiles ≡ 10
profile_days = refl

renew_user-RenewedUntil_example :
    (u' : User) × ((renew_user (at 500) server name 10 []).2 ≡ success)
    × (find_user name (renew_user (at 500) server name 10 []).0.users ≡ some u')
    × RenewedUntil user u' (new_profile_of [] user) (
        (if ltb 500 user.expires_at then user.expires_at else 500)
        + days_of 10 (new_profile_of [] user) server.profiles * day_sec)
    × (length (renew_user (at 500) server name 10 []).0.users ≡ length server.users)
    × ((j : ℕ) (v : User)
        → get_elem? server.users j ≡ some v
        → bytes_eq v.username name ≡ false
        → get_elem? (renew_user (at 500) server name 10 []).0.users j ≡ some v)
renew_user-RenewedUntil_example =
    renew_user-RenewedUntil (at 500) server name [] 10 user refl user_found (omega arith)
      (omega arith)

server-Fits : Fits server
unfolding count
server-Fits = (record { once = λ key. ground arith; few = omega arith }, omega arith)

apply-Fits_example : Fits (apply (at 7) server (set user))
apply-Fits_example = apply-Fits (at 7) server (set user) server-Fits
