-- ===== src/Pppoe/Process.antt =====
-- The `pppd` processes of one session of src/pppoe_manager.c: there is never more than one, and the
-- session always knows it.
use flux_wan.Base.{
  if_both, leb, ltb, sub64, ℕ, ◌≡◌, refl, inl, inr, List, [], ◌∷◌, ◌++◌, Bool, true, false, Option,
  none, some, ◌==◌, if◌then◌else◌, Bool-cases, ltb, leb, sub64, arith,
}
use flux_wan.Pppoe.{
  State, idle, dialing, auth, connected, disconnected, reconnecting, stopping, Session, Line,
  Address, Env, Effect, kill, reap, launch, kill_pppd, delete_macvlan, is_in_use, prepared,
  launch_pppd, session_stop, session_start, prepare_effects, remove_files, add_log, on_connected,
  on_disconnected,
}
use flux_wan.Pppoe.Tick.{
  beside, changed, check_credentials, check_pid, check_process, dial, verify, retry, advance,
  is_at_rest, tick_enabled, tick_session,
}

-- The process that is alive after an effect, if the effect is one that can happen: a launch needs
-- that none is alive, and only the process that is alive is killed or reaped.
unfoldable pub alive_after : Option ℕ → Effect → Option (Option ℕ)
alive_after none (launch pid) = some (some pid)
alive_after (some q) (launch pid) = none
alive_after none (kill pid) = none
alive_after (some q) (kill pid) = if q == pid then some none else none
alive_after none (reap pid) = none
alive_after (some q) (reap pid) = if q == pid then some none else none
alive_after o _ = some o

abbrev pub then_alive : Option (Option ℕ) → (Option ℕ → Option (Option ℕ)) → Option (Option ℕ)
then_alive none f = none
then_alive (some o) f = f o

unfoldable pub alive : Option ℕ → List Effect → Option (Option ℕ)
alive o [] = some o
alive o (e ∷ es) = then_alive (alive_after o e) (λ p. alive p es)

alive-step :
    (p : Option (Option ℕ)) (xs ys : List Effect)
    → ((q : Option ℕ) → alive q (xs ++ ys) ≡ then_alive (alive q xs) (λ r. alive r ys))
    → then_alive p (λ q. alive q (xs ++ ys))
      ≡ then_alive (then_alive p (λ q. alive q xs)) (λ q. alive q ys)
alive-step none xs ys h = refl
alive-step (some q) xs ys h = h q

pub alive-append :
    (o : Option ℕ) (xs ys : List Effect)
    → alive o (xs ++ ys) ≡ then_alive (alive o xs) (λ p. alive p ys)
unfolding alive
alive-append o [] ys = refl
alive-append o (x ∷ xs) ys = alive-step (alive_after o x) xs ys (λ q. alive-append q xs ys)

-- The effects lead from the one process to the other.
abbrev pub Leads : Option ℕ → List Effect → Option ℕ → Type 0
Leads o es p = alive o es ≡ some p

pub Leads-append :
    (o p q : Option ℕ) (xs ys : List Effect) → Leads o xs p → Leads p ys q → Leads o (xs ++ ys) q
Leads-append o p q xs ys h k = rw (alive-append o xs ys, h) k

delete_macvlan-Leads :
    (o : Option ℕ) (name : List ℕ) → Leads o (delete_macvlan name ++ (remove_files ∷ [])) o
unfolding alive alive_after
delete_macvlan-Leads none [] = refl
delete_macvlan-Leads none (c ∷ name) = refl
delete_macvlan-Leads (some p) [] = refl
delete_macvlan-Leads (some p) (c ∷ name) = refl

kill_pppd-Leads : (o : Option ℕ) → Leads o (kill_pppd o) none
unfolding alive alive_after
kill_pppd-Leads none = refl
kill_pppd-Leads (some p) = ground arith

pub session_stop-Leads : (s : Session) → Leads s.pppd_pid (session_stop s).1 none
unfolding session_stop
session_stop-Leads s =
    Leads-append s.pppd_pid none none (kill_pppd s.pppd_pid) _ (kill_pppd-Leads s.pppd_pid)
      (delete_macvlan-Leads none s.macvlan_ifname)

launch_pppd-Leads :
    (forked : Option ℕ) (ms : ℕ) (line : Line) (t : Session)
    → t.pppd_pid ≡ none
    → Leads none (launch_pppd forked ms line t).1 (launch_pppd forked ms line t).0.pppd_pid
unfolding alive alive_after
launch_pppd-Leads none ms line t e = rw e
launch_pppd-Leads (some pid) ms line t e = refl

prepare_effects-Leads : (line : Line) (t : Session) → Leads none (prepare_effects line t) none
unfolding prepare_effects alive alive_after
prepare_effects-Leads line t = refl

pub session_start-Leads :
    (i : ℕ) (env : Env) (line : Line) (s : Session)
    → Leads s.pppd_pid (session_start i env line s).1 (session_start i env line s).0.pppd_pid
unfolding session_start
session_start-Leads i env line s =
    let t = prepared i line (session_stop s).0 in
    let gone : t.pppd_pid ≡ none = (unfold prepared session_stop in refl) in
    let setup : Leads s.pppd_pid ((session_stop s).1 ++ prepare_effects line t) none =
      Leads-append s.pppd_pid none none (session_stop s).1 _ (session_stop-Leads s)
        (prepare_effects-Leads line t) in
    let run = launch_pppd-Leads env.forked env.dial_ms line t gone in
    elim (Bool-cases (is_in_use s.state)) [
      | inl b ↦ rw b (unfold alive in refl)
      | inr b ↦ rw b (elim (Bool-cases env.opts_writable) [
        | inl w ↦ rw w (
            Leads-append s.pppd_pid none (launch_pppd env.forked env.dial_ms line t).0.pppd_pid
              ((session_stop s).1 ++ prepare_effects line t) _ setup run)
        | inr w ↦ rw (w, gone) setup
      ])
    ]

told-Leads : (o : Option ℕ) (name : List ℕ) (n : ℕ) → Leads o (on_disconnected name n ∷ []) o
unfolding alive alive_after
told-Leads none name n = refl
told-Leads (some p) name n = refl

reported-Leads :
    (o : Option ℕ) (name : List ℕ) (ip gw : ℕ) → Leads o (on_connected name ip gw ∷ []) o
unfolding alive alive_after
reported-Leads none name ip gw = refl
reported-Leads (some p) name ip gw = refl

logged-Leads :
    (o p : Option ℕ) (user : List ℕ) (es : List Effect)
    → Leads o es p
    → Leads o (add_log user ∷ es) p
unfolding alive alive_after
logged-Leads none p user es h = h
logged-Leads (some q) p user es h = h

-- What a part of the tick does to the process.
abbrev KeepsOne : Session → Session × List Effect → Type 0
KeepsOne s r = Leads s.pppd_pid r.1 r.0.pppd_pid

same-KeepsOne : (s t : Session) → t.pppd_pid ≡ s.pppd_pid → KeepsOne s (t, [])
unfolding alive
same-KeepsOne s t e = rw e refl

session_stop-KeepsOne : (s : Session) → KeepsOne s (session_stop s)
session_stop-KeepsOne s =
    let e : (session_stop s).0.pppd_pid ≡ none = unfold session_stop in refl in
    rw e (session_stop-Leads s)

check_credentials-KeepsOne : (line : Line) (s : Session) → KeepsOne s (check_credentials line s)
unfolding check_credentials
check_credentials-KeepsOne line s = elim (Bool-cases (changed line s)) [
  | inl b ↦ rw b (
      logged-Leads s.pppd_pid (session_stop s).0.pppd_pid line.ppp_username (session_stop s).1
        (session_stop-KeepsOne s))
  | inr b ↦ rw b (same-KeepsOne s s refl)
]

check_pid-KeepsOne :
    (now : ℕ) (exited : Bool) (s : Session) (o : Option ℕ)
    → s.pppd_pid ≡ o
    → KeepsOne s (check_pid now exited s o)
check_pid-KeepsOne now exited s none e = same-KeepsOne s s refl
check_pid-KeepsOne now true s (some p) e = rw e (unfold alive alive_after in ground arith)
check_pid-KeepsOne now false s (some p) e = same-KeepsOne s s refl

check_process-KeepsOne : (now : ℕ) (env : Env) (s : Session) → KeepsOne s (check_process now env s)
unfolding check_process
check_process-KeepsOne now env s = check_pid-KeepsOne now env.exited s s.pppd_pid refl

-- The same for a part that may change the settings too.
abbrev KeepsOneToo : Session → Line × Session × List Effect → Type 0
KeepsOneToo s r = Leads s.pppd_pid r.2 r.1.pppd_pid

dial-KeepsOne :
    (now : ℕ) (address : Option Address) (line : Line) (s : Session)
    → KeepsOneToo s (dial now address line s)
dial-KeepsOne now (some a) line s = reported-Leads s.pppd_pid s.ppp_ifname a.ip a.gw
dial-KeepsOne now none line s = elim (Bool-cases (ltb 45000 (sub64 now s.dial_start_ms))) [
  | inl b ↦ rw b (session_stop-KeepsOne s)
  | inr b ↦ rw b (same-KeepsOne s s refl)
]

verify-KeepsOne :
    (now : ℕ) (address : Option Address) (s : Session) → KeepsOne s (verify now address s)
unfolding verify
verify-KeepsOne now none s = elim (Bool-cases (leb 5000 (sub64 now s.last_check_ms))) [
  | inl b ↦ rw b (told-Leads s.pppd_pid s.ppp_ifname s.reconnect_attempts)
  | inr b ↦ rw b (same-KeepsOne s s refl)
]
verify-KeepsOne now (some a) s = elim (Bool-cases (leb 5000 (sub64 now s.last_check_ms))) [
  | inl b ↦ rw b (same-KeepsOne s (record s { last_check_ms = now }) refl)
  | inr b ↦ rw b (same-KeepsOne s s refl)
]

retry-KeepsOne :
    (now i : ℕ) (env : Env) (line : Line) (s : Session) → KeepsOneToo s (retry now i env line s)
retry-KeepsOne now i env line s = elim (Bool-cases (leb s.next_retry_ms now)) [
  | inl b ↦ rw b (session_start-Leads i env line s)
  | inr b ↦ rw b (same-KeepsOne s s refl)
]

advance-KeepsOne :
    (now i : ℕ) (env : Env) (line : Line) (s : Session) (state : State)
    → KeepsOneToo s (advance now i env line s state)
unfolding advance
advance-KeepsOne now i env line s idle = session_start-Leads i env line s
advance-KeepsOne now i env line s dialing = dial-KeepsOne now env.address line s
advance-KeepsOne now i env line s auth = dial-KeepsOne now env.address line s
advance-KeepsOne now i env line s connected = verify-KeepsOne now env.address s
advance-KeepsOne now i env line s disconnected = retry-KeepsOne now i env line s
advance-KeepsOne now i env line s reconnecting = retry-KeepsOne now i env line s
advance-KeepsOne now i env line s stopping = session_stop-KeepsOne s

pub tick_session-KeepsOne :
    (now i : ℕ) (env : Env) (line : Line) (s : Session)
    → KeepsOneToo s (tick_session now i env line s)
unfolding tick_session tick_enabled
tick_session-KeepsOne now i env line s =
    let c = check_credentials line s in
    let p = check_process now env c.0 in
    let a = advance now i env line p.0 p.0.state in
    if_both (KeepsOneToo s) line.wan.enabled {x = (a.0, a.1, c.1 ++ (p.1 ++ a.2))}
      {y = if is_at_rest s.state then (line, s, []) else beside line (session_stop s)}
      (Leads-append s.pppd_pid c.0.pppd_pid a.1.pppd_pid c.1 (p.1 ++ a.2)
        (check_credentials-KeepsOne line s)
        (Leads-append c.0.pppd_pid p.0.pppd_pid a.1.pppd_pid p.1 a.2
          (check_process-KeepsOne now env c.0) (advance-KeepsOne now i env line p.0 p.0.state)))
      (if_both (KeepsOneToo s) (is_at_rest s.state) {x = (line, s, [])}
        {y = beside line (session_stop s)} (same-KeepsOne s s refl) (session_stop-KeepsOne s))

-- A session over several ticks. Each has its own clock, answers and settings.
pub record Pass : Type 0 where
  pub now : ℕ
  pub env : Env
  pub line : Line

unfoldable pub run : ℕ → List Pass → Session → Session × List Effect
run i [] s = (s, [])
run i (p ∷ ps) s =
    let (line', t, es) = tick_session p.now i p.env p.line s in
    let (u, fs) = run i ps t in (u, es ++ fs)

-- Whatever the outside answers and however the settings change between the ticks, a session
-- launches a process only when none of its own is alive, kills and reaps only the one that is
-- alive, and at the end `pppd_pid` is the process that is alive, or -1 if there is none.
pub run-one_process :
    (i : ℕ) (ps : List Pass) (s : Session)
    → alive s.pppd_pid (run i ps s).1 ≡ some (run i ps s).0.pppd_pid
unfolding run alive
run-one_process i [] s = refl
run-one_process i (p ∷ ps) s =
    let t = tick_session p.now i p.env p.line s in
    Leads-append s.pppd_pid t.1.pppd_pid (run i ps t.1).0.pppd_pid t.2 (run i ps t.1).1
      (tick_session-KeepsOne p.now i p.env p.line s) (run-one_process i ps t.1)
