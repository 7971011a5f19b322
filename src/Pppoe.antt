-- ===== src/Pppoe.antt =====
-- src/pppoe_manager.c: the sessions that `pppd` processes hold for the WANs of type PPPoE. What the
-- outside answers (the clock, `waitpid`, `fork`, the options file, the address of the interface) is
-- an input; the commands and callbacks are recorded as effects. Logging is left out.
pub mod Mac
pub mod Tick
pub mod Process
pub mod Waiting
pub mod Reconnect
use flux_wan.Base.{
  ℕ, zero, suc, ◌+◌, ◌-◌, ◌*◌, ◌/◌, ◌%◌, List, [], ◌∷◌, ◌++◌, Bool, true, false, ◌||◌, Option, none,
  some, ltb, leb, if◌then◌else◌, length, take,
}
use flux_wan.Config.{Wan}
use flux_wan.Pppoe.Mac.{decimal, generate_unique_virtual_mac}

-- `pppoe_state_t`.
pub data State : Type 0 where
  idle dialing auth connected disconnected reconnecting stopping : State

-- `pppd_pid` is none for -1.
pub record Session : Type 0 where
  pub state : State
  pub pppd_pid : Option ℕ
  pub ppp_ifname : List ℕ
  pub macvlan_ifname : List ℕ
  pub virtual_mac : List ℕ
  pub assigned_ip : ℕ
  pub remote_ip : ℕ
  pub assigned_ip_str : List ℕ
  pub remote_ip_str : List ℕ
  pub dial_start_ms : ℕ
  pub connected_since_ms : ℕ
  pub next_retry_ms : ℕ
  pub last_check_ms : ℕ
  pub backoff_s : ℕ
  pub reconnect_attempts : ℕ
  pub last_username : List ℕ
  pub last_password : List ℕ

-- The settings of a WAN that only PPPoE uses, beside the others.
pub record Line : Type 0 where
  pub wan : Wan
  pub netmask : ℕ
  pub probe_target : List ℕ
  pub ppp_username : List ℕ
  pub ppp_password : List ℕ
  pub custom_mac : List ℕ

-- What `get_ppp_interface_ip` reads from the system.
pub record Address : Type 0 where
  pub ip : ℕ
  pub gw : ℕ
  pub ip_str : List ℕ
  pub gw_str : List ℕ

-- What the outside answers to one session during one tick: whether `waitpid` reports the end of the
-- process, the address of the interface, whether the options file can be written, the child of
-- `fork` and the clock after it.
pub record Env : Type 0 where
  pub exited : Bool
  pub address : Option Address
  pub opts_writable : Bool
  pub forked : Option ℕ
  pub dial_ms : ℕ

pub data Effect : Type 0 where
  kill : ℕ → Effect
  reap : ℕ → Effect
  launch : ℕ → Effect
  delete_link : List ℕ → Effect
  add_link : List ℕ → List ℕ → List ℕ → Effect
  set_up : List ℕ → Effect
  add_secrets : List ℕ → List ℕ → Effect
  write_options : List ℕ → List ℕ → List ℕ → Effect
  remove_files : Effect
  add_log : List ℕ → Effect
  on_connected : List ℕ → ℕ → ℕ → Effect
  on_disconnected : List ℕ → ℕ → Effect

pub data Code : Type 0 where
  success failure : Code

abbrev pub initial_backoff_s : ℕ
initial_backoff_s = 15

abbrev pub max_backoff_s : ℕ
max_backoff_s = 120

-- A session as `pppoe_manager_init` leaves it.
abbrev pub fresh : Session
fresh = record {
  state = idle;
  pppd_pid = none;
  ppp_ifname = [];
  macvlan_ifname = [];
  virtual_mac = [];
  assigned_ip = 0;
  remote_ip = 0;
  assigned_ip_str = [];
  remote_ip_str = [];
  dial_start_ms = 0;
  connected_since_ms = 0;
  next_retry_ms = 0;
  last_check_ms = 0;
  backoff_s = initial_backoff_s;
  reconnect_attempts = 0;
  last_username = [];
  last_password = [];
}

-- `safe_str_copy` into an array of `max_len` bytes.
unfoldable pub safe_str_copy : List ℕ → ℕ → List ℕ
safe_str_copy src max_len = take (max_len - 1) src

abbrev pub kill_pppd : Option ℕ → List Effect
kill_pppd none = []
kill_pppd (some pid) = kill pid ∷ []

abbrev pub delete_macvlan : List ℕ → List Effect
delete_macvlan [] = []
delete_macvlan (c ∷ name) = delete_link (c ∷ name) ∷ []

abbrev pub stopped : Session → Session
stopped s = record s {
  state = idle;
  pppd_pid = none;
  assigned_ip = 0;
  remote_ip = 0;
  assigned_ip_str = [];
  remote_ip_str = [];
}

-- `pppoe_session_stop`.
unfoldable pub session_stop : Session → Session × List Effect
session_stop s =
    (stopped s, kill_pppd s.pppd_pid ++ (delete_macvlan s.macvlan_ifname ++ (remove_files ∷ [])))

-- A configured address has 17 bytes at least; any other is replaced by a generated one.
abbrev pub mac_for : ℕ → Line → List ℕ
mac_for i line =
    if ltb (length line.custom_mac) 17
    then generate_unique_virtual_mac i line.wan.name line.ppp_username
    else safe_str_copy line.custom_mac 18

-- The stopped session with the names, the address and the credentials of the new dial.
unfoldable pub prepared : ℕ → Line → Session → Session
unfolding safe_str_copy
prepared i line s = record s {
  last_username = safe_str_copy line.ppp_username 64;
  last_password = safe_str_copy line.ppp_password 64;
  ppp_ifname = b'p' ∷ b'p' ∷ b'p' ∷ decimal i;
  macvlan_ifname = b'm' ∷ b'v' ∷ b'_' ∷ b'w' ∷ b'a' ∷ b'n' ∷ decimal i;
  virtual_mac = mac_for i line;
}

unfoldable pub prepare_effects : Line → Session → List Effect
prepare_effects line t =
    delete_link t.macvlan_ifname
    ∷ add_link line.wan.name t.macvlan_ifname t.virtual_mac
    ∷ set_up t.macvlan_ifname
    ∷ add_secrets line.ppp_username line.ppp_password
    ∷ []

abbrev pub launched : ℕ → ℕ → Session → Session
launched pid ms t = record t {
  pppd_pid = some pid;
  state = dialing;
  dial_start_ms = ms;
  next_retry_ms = 0;
}

-- The options file and the process.
abbrev pub launch_pppd : Option ℕ → ℕ → Line → Session → Session × List Effect × Code
launch_pppd none ms line t =
    (t, write_options t.macvlan_ifname line.ppp_username line.ppp_password ∷ [], failure)
launch_pppd (some pid) ms line t = (
  launched pid ms t,
  write_options t.macvlan_ifname line.ppp_username line.ppp_password ∷ launch pid ∷ [],
  success,
)

abbrev pub is_in_use : State → Bool
is_in_use connected = true
is_in_use dialing = true
is_in_use _ = false

-- `pppoe_session_start`.
unfoldable pub session_start : ℕ → Env → Line → Session → Session × List Effect × Code
unfolding session_stop prepared prepare_effects
session_start i env line s =
    let (old, ended) = session_stop s in
    let t = prepared i line old in
    let setup = ended ++ prepare_effects line t in
    let (u, run, code) = launch_pppd env.forked env.dial_ms line t in
    if is_in_use s.state
    then (s, [], success)
    else (if env.opts_writable then (u, setup ++ run, code) else (t, setup, failure))
