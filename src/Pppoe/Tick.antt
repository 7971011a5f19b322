-- ===== src/Pppoe/Tick.antt =====
-- `pppoe_manager_tick` of src/pppoe_manager.c.
use flux_wan.Base.{
  ℕ, ◌+◌, ◌*◌, List, [], ◌∷◌, ◌++◌, Bool, true, false, not, ◌&&◌, ◌||◌, Option, none, some, u64,
  sub64, ltb, leb, ◌==◌, if◌then◌else◌, bytes_eq,
}
use flux_wan.Config.{WanType}
use flux_wan.Dhcp.Leases.{htonl}
use flux_wan.Pppoe.{
  State, idle, dialing, auth, connected, disconnected, reconnecting, stopping, Session, Line,
  Address, Env, Effect, reap, add_log, on_connected, on_disconnected, initial_backoff_s,
  max_backoff_s, safe_str_copy, session_stop, session_start,
}

abbrev pub is_dialed : State → Bool
is_dialed connected = true
is_dialed dialing = true
is_dialed auth = true
is_dialed _ = false

abbrev pub changed : Line → Session → Bool
changed line s =
    is_dialed s.state
    && (not (bytes_eq s.last_username line.ppp_username)
        || not (bytes_eq s.last_password line.ppp_password))

-- A session whose credentials were changed is stopped.
unfoldable pub check_credentials : Line → Session → Session × List Effect
check_credentials line s =
    let (t, ended) = session_stop s in
    if changed line s then (t, add_log line.ppp_username ∷ ended) else (s, [])

abbrev pub next_backoff : ℕ → ℕ
next_backoff s = if ltb max_backoff_s (s * 2) then max_backoff_s else s * 2

-- The session after its process has ended.
abbrev pub lost : ℕ → Session → Session
lost now s = record s {
  pppd_pid = none;
  state = disconnected;
  reconnect_attempts = s.reconnect_attempts + 1;
  backoff_s = next_backoff s.backoff_s;
  next_retry_ms = u64 (now + s.backoff_s * 1000);
}

abbrev pub check_pid : ℕ → Bool → Session → Option ℕ → Session × List Effect
check_pid now exited s none = (s, [])
check_pid now exited s (some pid) =
    if exited
    then (lost now s, reap pid ∷ on_disconnected s.ppp_ifname (s.reconnect_attempts + 1) ∷ [])
    else (s, [])

unfoldable pub check_process : ℕ → Env → Session → Session × List Effect
check_process now env s = check_pid now env.exited s s.pppd_pid

abbrev pub established : ℕ → Address → Session → Session
established now a s = record s {
  assigned_ip = a.ip;
  remote_ip = a.gw;
  assigned_ip_str = safe_str_copy a.ip_str 20;
  remote_ip_str = safe_str_copy a.gw_str 20;
  state = connected;
  connected_since_ms = now;
  backoff_s = initial_backoff_s;
  reconnect_attempts = 0;
}

abbrev pub is_empty : List ℕ → Bool
is_empty [] = true
is_empty (c ∷ text) = false

-- The WAN with the address of its session; the peer is probed if no target is configured.
unfoldable pub updated : Address → Line → Line
updated a line =
    let no_target = is_empty line.probe_target || line.wan.probe_target_ip == 0 in
    record line {
      wan = record line.wan {
        ip_addr = htonl a.ip;
        gateway = htonl a.gw;
        probe_target_ip = if no_target then htonl a.gw else line.wan.probe_target_ip;
      };
      netmask = htonl 0xFFFFFFFF;
      probe_target = if no_target then safe_str_copy a.gw_str 64 else line.probe_target;
    }

abbrev pub dial : ℕ → Option Address → Line → Session → Line × Session × List Effect
dial now (some a) line s =
    (updated a line, established now a s, on_connected s.ppp_ifname a.ip a.gw ∷ [])
dial now none line s =
    let (t, ended) = session_stop s in
    if ltb 45000 (sub64 now s.dial_start_ms)
    then (line, record t { state = reconnecting; next_retry_ms = u64 (now + 5000) }, ended)
    else (line, s, [])

abbrev pub no_carrier : ℕ → Option Address → Session → Session × List Effect
no_carrier now (some a) s = (s, [])
no_carrier now none s = (
  record s { state = disconnected; next_retry_ms = u64 (now + 5000) },
  on_disconnected s.ppp_ifname s.reconnect_attempts ∷ [],
)

unfoldable pub verify : ℕ → Option Address → Session → Session × List Effect
verify now address s =
    if leb 5000 (sub64 now s.last_check_ms)
    then no_carrier now address (record s { last_check_ms = now })
    else (s, [])

abbrev pub beside : Line → Session × List Effect → Line × Session × List Effect
beside line (s, effects) = (line, s, effects)

abbrev pub restart : ℕ → Env → Line → Session → Line × Session × List Effect
restart i env line s = let (t, effects, code) = session_start i env line s in (line, t, effects)

abbrev pub retry : ℕ → ℕ → Env → Line → Session → Line × Session × List Effect
retry now i env line s = if leb s.next_retry_ms now then restart i env line s else (line, s, [])

-- The state machine.
unfoldable pub advance : ℕ → ℕ → Env → Line → Session → State → Line × Session × List Effect
unfolding session_start session_stop updated verify
advance now i env line s idle = restart i env line s
advance now i env line s dialing = dial now env.address line s
advance now i env line s auth = dial now env.address line s
advance now i env line s connected = beside line (verify now env.address s)
advance now i env line s disconnected = retry now i env line s
advance now i env line s reconnecting = retry now i env line s
advance now i env line s stopping = beside line (session_stop s)

abbrev pub is_at_rest : State → Bool
is_at_rest idle = true
is_at_rest stopping = true
is_at_rest _ = false

-- One session whose WAN is enabled, and any session of a PPPoE WAN.
unfoldable pub tick_enabled : ℕ → ℕ → Env → Line → Session → Line × Session × List Effect
unfolding check_credentials check_process advance
tick_enabled now i env line s =
    let (s1, e1) = check_credentials line s in
    let (s2, e2) = check_process now env s1 in
    let (line', s3, e3) = advance now i env line s2 s2.state in (line', s3, e1 ++ (e2 ++ e3))

unfoldable pub tick_session : ℕ → ℕ → Env → Line → Session → Line × Session × List Effect
unfolding tick_enabled
tick_session now i env line s =
    if line.wan.enabled
    then tick_enabled now i env line s
    else (if is_at_rest s.state then (line, s, []) else beside line (session_stop s))

abbrev pub is_pppoe : WanType → Bool
is_pppoe WanType.pppoe = true
is_pppoe _ = false

-- The loop over the WANs, each with its session. `env` gives the answers to each index.
unfoldable pub tick_from :
    ℕ → (ℕ → Env) → ℕ → List (Line × Session) → List (Line × Session × List Effect)
unfolding tick_session
tick_from now env i [] = []
tick_from now env i ((line, s) ∷ rest) =
    (if is_pppoe line.wan.type then tick_session now i (env i) line s else (line, s, []))
    ∷ tick_from now env (i + 1) rest

unfoldable pub tick : ℕ → (ℕ → Env) → List (Line × Session) → List (Line × Session × List Effect)
unfolding tick_from
tick now env sessions = tick_from now env 0 sessions

-- The loop of `pppoe_manager_start_all`.
unfoldable pub start_from : (ℕ → Env) → ℕ → List (Line × Session) → List (Session × List Effect)
start_from env i [] = []
start_from env i ((line, s) ∷ rest) =
    let (t, effects, code) = session_start i (env i) line s in
    (if is_pppoe line.wan.type && line.wan.enabled then (t, effects) else (s, []))
    ∷ start_from env (i + 1) rest

unfoldable pub start_all : (ℕ → Env) → List (Line × Session) → List (Session × List Effect)
unfolding start_from
start_all env sessions = start_from env 0 sessions
