-- ===== src/Examples/Pppoe.antt =====
-- src/pppoe_manager.c on the first WAN, whose provider gives the address 10.0.0.2.
use flux_wan.Base.{ℕ, ◌≡◌, refl, List, [], ◌∷◌, Bool, true, false, none, some, arith}
use flux_wan.Config.{WanState, WanType}
use flux_wan.Examples.Steering.{line as uplink}
use flux_wan.Pppoe.{Line, Address, connected, fresh}
use flux_wan.Pppoe.Process.{Pass, run, alive, run-one_process}
use flux_wan.Pppoe.Waiting.{IsValid, run-IsValid, fresh-IsValid}
use flux_wan.Pppoe.Reconnect.{Serves, run-connects}

abbrev user : List ℕ
user = b'm' ∷ b'e' ∷ []

abbrev port : Line
port = record {
  wan = record (uplink 1 10 WanState.healthy) { type = WanType.pppoe };
  netmask = 0;
  probe_target = [];
  ppp_username = user;
  ppp_password = user;
  custom_mac = [];
}

abbrev peer : Address
peer = record { ip = 0x0A000002; gw = 0x0A000001; ip_str = b'1' ∷ []; gw_str = b'2' ∷ [] }

abbrev at : ℕ → Bool → Pass
at now exited = record {
  now = now;
  line = port;
  env = record {
    exited = exited;
    address = some peer;
    opts_writable = true;
    forked = some 77;
    dial_ms = now;
  };
}

run-one_process_example :
    alive none (run 0 (at 10 false ∷ at 20 true ∷ at 15_020 false ∷ []) fresh).1
    ≡ some (run 0 (at 10 false ∷ at 20 true ∷ at 15_020 false ∷ []) fresh).0.pppd_pid
run-one_process_example = run-one_process 0 (at 10 false ∷ at 20 true ∷ at 15_020 false ∷ []) fresh

serves : (now : ℕ) → Serves user user (at now false)
serves now = record {
  enabled = refl;
  running = refl;
  writable = refl;
  forks = refl;
  answers = refl;
  username = refl;
  secret = refl;
}

run-connects_example :
    (run 0 (at 510 false ∷ at 1010 false ∷ []) (run 0 [] fresh).0).0.state ≡ connected
run-connects_example =
    run-connects user user (omega arith) (omega arith) 0 [] (at 510 false) (at 1010 false) []
      (unfold run in omega arith) (serves 510, (serves 1010, tt))

run-IsValid_example : IsValid (run 0 (at 10 false ∷ at 20 true ∷ []) fresh).0
run-IsValid_example = run-IsValid 0 (at 10 false ∷ at 20 true ∷ []) fresh fresh-IsValid
