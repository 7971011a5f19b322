-- ===== src/Prober/Report.antt =====
-- The verdict of `prober_send_probes` (src/prober.c) and its callback into src/wan_manager.c, which
-- share one configuration.
use flux_wan.Base.{
  ℕ, zero, suc, ◌<◌, ◌≡◌, refl, ◌∙◌, inl, inr, List, [], ◌∷◌, ◌++◌, map, put_at, ltb, ◌==◌, Bool,
  true, false, not, ◌&&◌, ◌||◌, Option, none, some, if◌then◌else◌, Bool-cases, get_or, get_elem?,
  set, set-set, get_elem?-set_self, length, ap,
}
use flux_wan.Config.{WanState, WanType, Wan}
use flux_wan.Maglev.{Member}
use flux_wan.WanManager.{Ctx, Effect}
use flux_wan.WanManager.Health.{
  same_state, put_wan, on_health_update, on_health_update_same, same_state→eq,
}
use flux_wan.WanManager.Links.{str_to_ip}
use flux_wan.Prober.{ProbeState, init, probe_packet, take_slot, window_metrics, verdict}

-- The setting `probe_target` of a WAN, and what the system answers about its interface: the index
-- (0 if there is none), the socket, whether it can be bound, and whether a send says that it is gone.
pub record Device : Type 0 where
  pub probe_target : List ℕ
  pub ifindex : ℕ
  pub opened : Option ℕ
  pub binds : Bool
  pub gone : Bool

-- The context of the prober, with what it shares with the WAN manager. A descriptor is none for -1.
pub record Shared : Type 0 where
  pub ctx : Ctx
  pub states : List ProbeState
  pub wan_send_fds : ℕ → Option ℕ
  pub raw_fd : Option ℕ
  pub pid : ℕ

pub data ProbeEffect : Type 0 where
  close_fd : ℕ → ProbeEffect
  send_to : ℕ → ℕ → List ℕ → ProbeEffect
  manager : Effect → ProbeEffect

abbrev pub is_pppoe : WanType → Bool
is_pppoe WanType.pppoe = true
is_pppoe _ = false

-- Whether `target_dev` is not empty; "ppp%u" never is.
abbrev pub has_dev : Wan → Bool
has_dev w = is_pppoe w.type || ltb 0 (length w.name)

-- A socket whose interface is gone is closed.
abbrev pub keep_fd : Bool → Device → Option ℕ → Option ℕ × List ProbeEffect
keep_fd named dev none = (none, [])
keep_fd named dev (some fd) =
    if named && dev.ifindex == 0 then (none, close_fd fd ∷ []) else (some fd, [])

abbrev pub bind_fd : Bool → Option ℕ → Option ℕ × List ProbeEffect
bind_fd binds none = (none, [])
bind_fd binds (some fd) = if binds then (some fd, []) else (none, close_fd fd ∷ [])

abbrev pub open_fd : Bool → Device → Option ℕ → Option ℕ × List ProbeEffect
open_fd named dev (some fd) = (some fd, [])
open_fd named dev none =
    if named && ltb 0 dev.ifindex then bind_fd dev.binds dev.opened else (none, [])

-- 8.8.8.8
abbrev pub default_ip : ℕ
default_ip = 0x08080808

unfoldable pub target_ip : Wan → Device → ℕ
target_ip w dev =
    let ip =
      if w.probe_target_ip == 0 && ltb 0 (length dev.probe_target)
      then str_to_ip dev.probe_target
      else w.probe_target_ip in
    if ip == 0 then default_ip else ip

abbrev pub or_raw : Option ℕ → Option ℕ → Option ℕ
or_raw (some fd) raw = some fd
or_raw none raw = raw

abbrev pub sent_on : Option ℕ → ℕ → List ℕ → List ProbeEffect
sent_on none ip packet = []
sent_on (some fd) ip packet = send_to fd ip packet ∷ []

abbrev pub drop_gone : Bool → Option ℕ → Option ℕ × List ProbeEffect
drop_gone gone none = (none, [])
drop_gone gone (some fd) = if gone then (none, close_fd fd ∷ []) else (some fd, [])

-- The socket of a WAN, and the probe.
unfoldable pub transmit : Device → Wan → Option ℕ → Option ℕ → List ℕ → Option ℕ × List ProbeEffect
unfolding target_ip
transmit dev w fd raw packet =
    let (fd1, e1) = keep_fd (has_dev w) dev fd in
    let (fd2, e2) = open_fd (has_dev w) dev fd1 in
    let (fd3, e3) = drop_gone dev.gone fd2 in
    (fd3, e1 ++ (e2 ++ (sent_on (or_raw fd2 raw) (target_ip w dev) packet ++ e3)))

abbrev after :
    List ProbeEffect → Option (Shared × List ProbeEffect) → Option (Shared × List ProbeEffect)
after es none = none
after es (some (sh, fs)) = some (sh, es ++ fs)

abbrev then_do :
    Option (Shared × List ProbeEffect)
    → (Shared → Option (Shared × List ProbeEffect))
    → Option (Shared × List ProbeEffect)
then_do none f = none
then_do (some (sh, es)) f = after es (f sh)

module _ (size : ℕ) (stale : ℕ → Member) (authorized : Bool) where
  -- `if (w->state != new_state) { w->state = new_state; callback(...); }`
  unfoldable pub report : Ctx → ℕ → Wan → WanState → Option (Ctx × List Effect)
  report ctx i w s =
      if same_state w.state s
      then some (put_wan ctx i w, [])
      else on_health_update size stale authorized (put_wan ctx i (record w { state = s })) i s
          (some w.metrics)

  abbrev pub with_report :
      Shared → List ProbeEffect → Option (Ctx × List Effect) → Option (Shared × List ProbeEffect)
  with_report sh es none = none
  with_report sh es (some (ctx, fs)) = some (record sh { ctx = ctx }, es ++ map manager fs)

  -- The loop body for the WAN at an index.
  unfoldable pub send_probe :
      ℕ → Device → Shared → ℕ → Option Wan → Option (Shared × List ProbeEffect)
  unfolding transmit
  send_probe now_us dev sh i none = some (sh, [])
  send_probe now_us dev sh i (some w) =
      let p = sh.ctx.config.prober in
      let old = get_or sh.states i init in
      let ps = take_slot p now_us old in
      let packet = probe_packet sh.pid i old.current_seq now_us in
      let (fd, es) = transmit dev w (sh.wan_send_fds i) sh.raw_fd packet in
      let w' : Wan = record w { metrics = window_metrics ps now_us w.metrics } in
      let sh' = record sh {
        states = set sh.states i ps;
        wan_send_fds = put_at sh.wan_send_fds i fd;
      } in
      if not w.enabled || w.proxy_enabled
      then some (sh, [])
      else with_report sh' es (report sh.ctx i w' (verdict p w'.metrics))

  -- The loop over the WANs from an index, with the number that is left.
  unfoldable pub send_probes :
      ℕ → (ℕ → Device) → ℕ → ℕ → Shared → Option (Shared × List ProbeEffect)
  send_probes now_us devs i zero sh = some (sh, [])
  send_probes now_us devs i (suc n) sh =
      then_do (send_probe now_us (devs i) sh i (get_elem? sh.ctx.config.wans i))
        (send_probes now_us devs (suc i) n)

module _ (size : ℕ) (stale : ℕ → Member) (authorized : Bool) where
  same_put : (ctx : Ctx) (i : ℕ) (w : Wan) → put_wan (put_wan ctx i w) i w ≡ put_wan ctx i w
  same_put ctx i w = rw set-set

  -- The state is stored before the callback compares with it. So a report never rebalances, logs
  -- or sends anything, and a WAN that is draining loses that state.
  pub report_silent :
      (ctx : Ctx) (i : ℕ) (w : Wan) (s : WanState)
      → i < length ctx.config.wans
      → report size stale authorized ctx i w s ≡ some (put_wan ctx i (record w { state = s }), [])
  unfolding report
  report_silent ctx i w s h =
      let w' : Wan = record w { state = s } in
      elim (Bool-cases (same_state w.state s)) [
        | inl b ↦ rw b (
            ap (λ (x : WanState). some (put_wan ctx i (record w { state = x }), []))
              (same_state→eq w.state s b))
        | inr b ↦ rw b (
            on_health_update_same size stale authorized (put_wan ctx i w') i s (some w.metrics)
              (get_elem?-set_self ctx.config.wans i w' h) refl
            ∙ ap (λ (c : Ctx). some (c, [])) (same_put ctx i w'))
      ]
