-- ===== src/Broadband/History.antt =====
-- Histories of calls of src/pppoe_server.c: its check every five seconds keeps the files of secrets
-- up to date.
use flux_wan.Base.{
  ℕ, ◌≤◌, ◌≡◌, ◌∙◌, ap, inl, inr, List, [], ◌∷◌, some, true, Bool-cases, sub64, arith,
}
use flux_wan.Broadband.{User, Server, World, secrets}
use flux_wan.Broadband.Accounts.{any_expired, periodic_tick}
use flux_wan.Broadband.Secrets.{
  IsSynced, Synced, Opens, Command, apply, apply-Synced, secrets-later,
}

-- A history of calls, on a clock that does not go back.
unfoldable pub history : Server → List (World × Command) → Server
history s [] = s
history s ((w, c) ∷ calls) = history (apply w s c) calls

abbrev pub InOrder : ℕ → List (World × Command) → ℕ → Type 0
InOrder from [] now = from ≤ now
InOrder from ((w, c) ∷ calls) now = (from ≤ w.now) × Opens w × InOrder w.now calls now

later : (from now : ℕ) (s : Server) → from ≤ now → Synced from s → Synced now s
later from now s h v = (v.0, omega (arith, v.1), v.2)

pub history-Synced :
    (s : Server) (from now : ℕ) (calls : List (World × Command))
    → Synced from s
    → InOrder from calls now
    → Synced now (history s calls)
unfolding history
history-Synced s from now [] v h = later from now s h v
history-Synced s from now ((w, c) ∷ calls) v h =
    history-Synced (apply w s c) w.now now calls (apply-Synced w h.1 s c (later from w.now s h.0 v))
      h.2

check_exact :
    (w : World) (s : Server) (now_ms : ℕ)
    → Opens w
    → Synced w.now s
    → s.enabled ≡ true
    → 5000 ≤ sub64 now_ms s.last_check_ms
    → IsSynced w.now (periodic_tick w s now_ms).0
unfolding periodic_tick
check_exact w s now_ms o v on due =
    let same = secrets-later v.0 w.now s.users v.1 in
    elim (Bool-cases (any_expired w.now s.users)) [
      | inl e ↦ ground (arith, o.0, o.1)
      | inr e ↦ ground (arith, same e, v.2.chap, v.2.pap)
    ]

periodic_tick-users :
    (w : World) (s : Server) (now_ms : ℕ) → (periodic_tick w s now_ms).0.users ≡ s.users
unfolding periodic_tick
periodic_tick-users w s now_ms = ground arith

-- The server writes the files of secrets only when an account is changed or has expired. That is as
-- good as always: after any history of calls on a clock that does not go back, from a state whose
-- files are in step with its accounts and with files that can be opened, a check that is due while the server is enabled leaves in both files exactly the
-- accounts that are enabled and not expired at that time.
pub periodic_tick-exact :
    (s : Server) (from : ℕ) (calls : List (World × Command)) (w : World) (now_ms : ℕ)
    → Synced from s
    → InOrder from calls w.now
    → Opens w
    → (history s calls).enabled ≡ true
    → 5000 ≤ sub64 now_ms (history s calls).last_check_ms
    → ((periodic_tick w (history s calls) now_ms).0.chap_secrets
        ≡ some (secrets w.now (history s calls).users))
      × ((periodic_tick w (history s calls) now_ms).0.pap_secrets
          ≡ some (secrets w.now (history s calls).users))
periodic_tick-exact s from calls w now_ms v h o on due =
    let t = history s calls in
    let synced = check_exact w t now_ms o (history-Synced s from w.now calls v h) on due in
    let same : (periodic_tick w t now_ms).0.users ≡ t.users = periodic_tick-users w t now_ms in
    (
      synced.chap ∙ ap (λ (us : List User). some (secrets w.now us)) same,
      synced.pap ∙ ap (λ (us : List User). some (secrets w.now us)) same,
    )
