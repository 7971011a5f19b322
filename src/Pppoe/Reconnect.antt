-- ===== src/Pppoe/Reconnect.antt =====
-- The sessions of src/pppoe_manager.c come up: the state machine does not get stuck.
use flux_wan.Base.{
  ℕ, ◌≤◌, ◌<◌, ◌≡◌, refl, ◌∙◌, List, [], ◌∷◌, Bool, true, false, Option, none, some, All, length,
  take_all, bytes_eq_refl, bytes_eq→eq, arith,
}
use flux_wan.Pppoe.{
  State, idle, dialing, auth, connected, disconnected, reconnecting, stopping, Session, Line,
  is_in_use, fresh, session_stop, session_start, prepared, safe_str_copy,
}
use flux_wan.Pppoe.Tick.{
  is_dialed, changed, check_credentials, check_process, verify, advance, tick_enabled, tick_session,
}
use flux_wan.Pppoe.Process.{Pass, run}
use flux_wan.Pppoe.Waiting.{is_stopping, run-IsValid, fresh-IsValid}

abbrev pub is_some {ℓ} : {A : Type ℓ} → Option A → Bool
is_some none = false
is_some (some a) = true

-- A tick on an enabled WAN where nothing outside fails, with these credentials.
pub record Serves (user password : List ℕ) (p : Pass) : Type 0 where
  pub enabled : p.line.wan.enabled ≡ true
  pub running : p.env.exited ≡ false
  pub writable : p.env.opts_writable ≡ true
  pub forks : is_some p.env.forked ≡ true
  pub answers : is_some p.env.address ≡ true
  pub username : p.line.ppp_username ≡ user
  pub secret : p.line.ppp_password ≡ password

-- A session that is dialing or connected with these credentials.
record IsUp (user password : List ℕ) (s : Session) : Type 0 where
  used : is_in_use s.state ≡ true
  name : s.last_username ≡ user
  secret : s.last_password ≡ password

module _ (user password : List ℕ) (fits : length user < 64) (fits' : length password < 64) where
  copy : (text : List ℕ) → length text < 64 → safe_str_copy text 64 ≡ text
  unfolding safe_str_copy
  copy text h = take_all 63 text (omega arith)

  session_start-IsUp :
      (i : ℕ) (p : Pass) (s : Session)
      → Serves user password p
      → is_in_use s.state ≡ false
      → IsUp user password (session_start i p.env p.line s).0
  unfolding session_start session_stop prepared
  session_start-IsUp i p s v n =
      ground (arith, copy user fits, copy password fits', v.writable, v.forks, v.username, v.secret)

  -- The session that the state machine of a tick sees.
  record IsReady (p : Pass) (s : Session) : Type 0 where
    going : is_stopping s.state ≡ false
    due : s.next_retry_ms ≤ p.now
    known : changed p.line s ≡ false

  advance-IsUp :
      (i : ℕ) (p : Pass) (s : Session) (state : State)
      → Serves user password p
      → IsReady p s
      → s.state ≡ state
      → (is_dialed state ≡ true → (s.last_username ≡ user) × (s.last_password ≡ password))
      → IsUp user password (advance p.now i p.env p.line s state).1
  unfolding advance verify
  advance-IsUp i p s idle v r e c = session_start-IsUp i p s v (rw e refl)
  advance-IsUp i p s dialing v r e c = ground (arith, v.answers, c refl)
  advance-IsUp i p s auth v r e c = ground (arith, v.answers, c refl)
  advance-IsUp i p s connected v r e c = ground (arith, v.answers, c refl)
  advance-IsUp i p s disconnected v r e c =
      let up = session_start-IsUp i p s v (rw e refl) in ground (arith, r.due)
  advance-IsUp i p s reconnecting v r e c =
      let up = session_start-IsUp i p s v (rw e refl) in ground (arith, r.due)
  advance-IsUp i p s stopping v r e c = ground (arith, r.going)

  -- The credentials of a dialed session that is not stopped are those of the settings.
  same_credentials :
      (line : Line) (s : Session)
      → changed line s ≡ false
      → is_dialed s.state ≡ true
      → (s.last_username ≡ line.ppp_username) × (s.last_password ≡ line.ppp_password)
  same_credentials line s c d = (bytes_eq→eq _ _ (ground arith), bytes_eq→eq _ _ (ground arith))

  check_credentials-IsReady :
      (p : Pass) (s : Session)
      → is_stopping s.state ≡ false
      → s.next_retry_ms ≤ p.now
      → IsReady p (check_credentials p.line s).0
  unfolding check_credentials session_stop
  check_credentials-IsReady p s g d = ground arith

  check_process-same :
      (p : Pass) (s : Session) → p.env.exited ≡ false → (check_process p.now p.env s).0 ≡ s
  unfolding check_process
  check_process-same p s e = ground arith

  -- The first tick dials or connects.
  tick_session-IsUp :
      (i : ℕ) (p : Pass) (s : Session)
      → Serves user password p
      → is_stopping s.state ≡ false
      → s.next_retry_ms ≤ p.now
      → IsUp user password (tick_session p.now i p.env p.line s).1
  unfolding tick_session tick_enabled
  tick_session-IsUp i p s v g d =
      let s1 = (check_credentials p.line s).0 in
      let r = check_credentials-IsReady p s g d in
      let up =
        advance-IsUp i p s1 s1.state v r refl (λ h.
          let c = same_credentials p.line s1 r.known h in (c.0 ∙ v.username, c.1 ∙ v.secret)) in
      let e = check_process-same p s1 v.running in ground (arith, v.enabled)

  up-known :
      (p : Pass) (s : Session)
      → Serves user password p
      → IsUp user password s
      → changed p.line s ≡ false
  up-known p s v u =
      ground
        (arith, v.username, v.secret, u.name, u.secret, bytes_eq_refl user, bytes_eq_refl password)

  -- The next one connects, and the session stays so.
  tick_session-connected :
      (i : ℕ) (p : Pass) (s : Session)
      → Serves user password p
      → IsUp user password s
      → ((tick_session p.now i p.env p.line s).1.state ≡ connected)
        × IsUp user password (tick_session p.now i p.env p.line s).1
  unfolding tick_session tick_enabled check_credentials check_process advance verify
  tick_session-connected i p s v u =
      ground (arith, up-known p s v u, v.enabled, v.running, v.answers)

  run-stays :
      (i : ℕ) (ps : List Pass) (s : Session)
      → All (Serves user password) ps
      → IsUp user password s
      → s.state ≡ connected
      → (run i ps s).0.state ≡ connected
  unfolding run
  run-stays i [] s v u c = c
  run-stays i (p ∷ ps) s v u c =
      let k = tick_session-connected i p s v.0 u in
      run-stays i ps (tick_session p.now i p.env p.line s).1 v.1 k.1 k.0

  -- A session that ran in any way is connected after two ticks, and stays connected, if from
  -- then on nothing outside fails, the WAN is enabled with the same credentials of less than 64
  -- bytes, and the first of these ticks is not before the time of the next dial.
  pub run-connects :
      (i : ℕ) (past : List Pass) (p q : Pass) (ps : List Pass)
      → (run i past fresh).0.next_retry_ms ≤ p.now
      → All (Serves user password) (p ∷ q ∷ ps)
      → (run i (p ∷ q ∷ ps) (run i past fresh).0).0.state ≡ connected
  run-connects i past p q ps d v =
      let s = (run i past fresh).0 in
      let valid = run-IsValid i past fresh fresh-IsValid in
      let t = (tick_session p.now i p.env p.line s).1 in
      let k = tick_session-connected i q t v.1.0 (tick_session-IsUp i p s v.0 valid.going d) in
      unfold run in run-stays i ps (tick_session q.now i q.env q.line t).1 v.1.1 k.1 k.0
