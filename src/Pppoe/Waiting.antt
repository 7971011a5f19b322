-- ===== src/Pppoe/Waiting.antt =====
-- The back-off of src/pppoe_manager.c after a process has ended.
use flux_wan.Base.{
  Bool, min, ℕ, ◌+◌, ◌*◌, ◌≤◌, ◌<◌, ◌^◌, ◌≡◌, refl, List, [], ◌∷◌, true, false, none, some, All,
  arith,
}
use flux_wan.Pppoe.{
  State, stopping, idle, dialing, auth, connected, reconnecting, fresh, session_stop, session_start,
  prepared, Session, disconnected, Line, Env, reap, on_disconnected,
}
use flux_wan.Pppoe.Tick.{
  next_backoff, verify, changed, lost, check_credentials, check_process, advance, tick_enabled,
  tick_session,
}
use flux_wan.Pppoe.Process.{Pass, run}

waits :
    (now i : ℕ) (env : Env) (line : Line) (s : Session)
    → line.wan.enabled ≡ true
    → s.state ≡ disconnected
    → s.pppd_pid ≡ none
    → now < s.next_retry_ms
    → tick_session now i env line s ≡ (line, s, [])
unfolding tick_session tick_enabled check_credentials check_process advance
waits now i env line s on d n h = ground arith

run_waits :
    (i : ℕ) (ps : List Pass) (s : Session)
    → s.state ≡ disconnected
    → s.pppd_pid ≡ none
    → All (λ p. (p.line.wan.enabled ≡ true) × (p.now < s.next_retry_ms)) ps
    → run i ps s ≡ (s, [])
unfolding run
run_waits i [] s d n h = refl
run_waits i (p ∷ ps) s d n h =
    rw (waits p.now i p.env p.line s h.0.0 d n h.0.1, run_waits i ps s d n h.1) refl

ends :
    (now i pid : ℕ) (env : Env) (line : Line) (s : Session)
    → line.wan.enabled ≡ true
    → changed line s ≡ false
    → s.pppd_pid ≡ some pid
    → env.exited ≡ true
    → 0 < s.backoff_s
    → now + s.backoff_s * 1000 < 2 ^ 64
    → tick_session now i env line s
      ≡ (line, lost now s, reap pid ∷ on_disconnected s.ppp_ifname (s.reconnect_attempts + 1) ∷ [])
unfolding tick_session tick_enabled check_credentials check_process advance
ends now i pid env line s on c e x b h = ground arith

abbrev pub is_stopping : State → Bool
is_stopping stopping = true
is_stopping _ = false

-- The delay before the next dial lies between 15 and 120 seconds; no session is left stopping.
pub record IsValid (s : Session) : Type 0 where
  pub floor : 15 ≤ s.backoff_s
  pub ceiling : s.backoff_s ≤ 120
  pub going : is_stopping s.state ≡ false

pub fresh-IsValid : IsValid fresh
fresh-IsValid = record { floor = omega arith; ceiling = omega arith; going = refl }

session_stop-IsValid : {s : Session} → IsValid s → IsValid (session_stop s).0
unfolding session_stop
session_stop-IsValid v = ground arith

session_start-IsValid :
    (i : ℕ) (env : Env) (line : Line) (s : Session)
    → IsValid s
    → IsValid (session_start i env line s).0
unfolding session_start session_stop prepared
session_start-IsValid i env line s v = ground arith

advance-IsValid :
    (now i : ℕ) (env : Env) (line : Line) (s : Session) (state : State)
    → IsValid s
    → IsValid (advance now i env line s state).1
unfolding advance verify
advance-IsValid now i env line s idle v = session_start-IsValid i env line s v
advance-IsValid now i env line s dialing v = ground (arith, session_stop-IsValid v)
advance-IsValid now i env line s auth v = ground (arith, session_stop-IsValid v)
advance-IsValid now i env line s connected v = ground arith
advance-IsValid now i env line s disconnected v = ground (arith, session_start-IsValid i env line s)
advance-IsValid now i env line s reconnecting v = ground (arith, session_start-IsValid i env line s)
advance-IsValid now i env line s stopping v = session_stop-IsValid v

check_credentials-IsValid :
    (line : Line) (s : Session) → IsValid s → IsValid (check_credentials line s).0
unfolding check_credentials
check_credentials-IsValid line s v = ground (arith, session_stop-IsValid v)

check_process-IsValid :
    (now : ℕ) (env : Env) (s : Session) → IsValid s → IsValid (check_process now env s).0
unfolding check_process
check_process-IsValid now env s v = ground arith

tick_session-IsValid :
    (now i : ℕ) (env : Env) (line : Line) (s : Session)
    → IsValid s
    → IsValid (tick_session now i env line s).1
unfolding tick_session tick_enabled
tick_session-IsValid now i env line s v =
    let s1 = (check_credentials line s).0 in
    let s2 = (check_process now env s1).0 in
    let v3 =
      advance-IsValid now i env line s2 s2.state
        (check_process-IsValid now env s1 (check_credentials-IsValid line s v)) in
    let w = session_stop-IsValid v in ground arith

-- Over any sequence of ticks, whatever the system answers and the settings become, a session keeps a
-- reconnect delay of 15 to 120 seconds and is never left in the stopping state.
pub run-IsValid : (i : ℕ) (ps : List Pass) (s : Session) → IsValid s → IsValid (run i ps s).0
unfolding run
run-IsValid i [] s v = v
run-IsValid i (p ∷ ps) s v =
    run-IsValid i ps (tick_session p.now i p.env p.line s).1
      (tick_session-IsValid p.now i p.env p.line s v)

next_backoff-eq-min : (n : ℕ) → next_backoff n ≡ min (n * 2) 120
next_backoff-eq-min n = ground arith

-- When the process of a session ends, the tick reports it and sets the next dial 15 to 120 seconds
-- ahead, as its back-off says. The back-off is doubled up to 120 seconds. Whatever the outside
-- answers, no later tick before that time starts a process or changes the session, as long as the
-- WAN stays enabled.
pub run-ended :
    (now i pid : ℕ) (env : Env) (line : Line) (s : Session) (ps : List Pass)
    → IsValid s
    → line.wan.enabled ≡ true
    → changed line s ≡ false
    → s.pppd_pid ≡ some pid
    → env.exited ≡ true
    → now < 2 ^ 63
    → All (λ p. (p.line.wan.enabled ≡ true) × (p.now < now + s.backoff_s * 1000)) ps
    → run i (record { now = now; env = env; line = line } ∷ ps) s ≡ (
      record s {
        pppd_pid = none;
        state = disconnected;
        reconnect_attempts = s.reconnect_attempts + 1;
        backoff_s = min (s.backoff_s * 2) 120;
        next_retry_ms = now + s.backoff_s * 1000;
      },
      reap pid ∷ on_disconnected s.ppp_ifname (s.reconnect_attempts + 1) ∷ [],
    )
unfolding run
run-ended now i pid env line s ps v on c e x h later =
    let t : Session = record s {
      pppd_pid = none;
      state = disconnected;
      reconnect_attempts = s.reconnect_attempts + 1;
      backoff_s = min (s.backoff_s * 2) 120;
      next_retry_ms = now + s.backoff_s * 1000;
    } in
    let same : lost now s ≡ t = ground (arith, next_backoff-eq-min s.backoff_s, v.ceiling) in
    let first =
      ends now i pid env line s on c e x (omega (arith, v.floor)) (omega (arith, v.ceiling)) in
    rw (first, same, run_waits i ps t refl refl later) refl
