-- ===== src/Prober/Pass.antt =====
-- What one pass of `prober_send_probes` (src/prober.c) over the WANs does.
use flux_wan.Base.{
  ℕ, zero, suc, ◌+◌, ◌≤◌, ◌<◌, ◌≡◌, ◌≢◌, refl, sym, ap, ◌∙◌, inl, inr, List, [], ◌∷◌, ◌++◌, Bool,
  true, false, not, ◌&&◌, ◌||◌, Option, none, some, ltb, ◌==◌, if◌then◌else◌, Bool-cases, get_or,
  get_elem?, get_elem?-set_other, set, put_at, length, length-set, arith,
}
use flux_wan.Config.{Wan}
use flux_wan.Maglev.{Member}
use flux_wan.WanManager.{Effect}
use flux_wan.WanManager.Health.{put_wan}
use flux_wan.Prober.{init, probe_packet, take_slot, window_metrics, verdict}
use flux_wan.Prober.Report.{
  Device, Shared, ProbeEffect, close_fd, send_to, manager, has_dev, keep_fd, bind_fd, open_fd,
  target_ip, or_raw, sent_on, drop_gone, transmit, send_probe, send_probes, report_silent,
}

-- Where the probes among some effects go, and what the WAN manager is made to do.
unfoldable pub targets : List ProbeEffect → List ℕ
targets [] = []
targets (send_to fd ip packet ∷ es) = ip ∷ targets es
targets (close_fd fd ∷ es) = targets es
targets (manager e ∷ es) = targets es

unfoldable pub to_manager : List ProbeEffect → List Effect
to_manager [] = []
to_manager (send_to fd ip packet ∷ es) = to_manager es
to_manager (close_fd fd ∷ es) = to_manager es
to_manager (manager e ∷ es) = e ∷ to_manager es

targets-append : (xs ys : List ProbeEffect) → targets (xs ++ ys) ≡ targets xs ++ targets ys
unfolding targets
targets-append [] ys = refl
targets-append (send_to fd ip packet ∷ xs) ys = ap (λ t. ip ∷ t) (targets-append xs ys)
targets-append (close_fd fd ∷ xs) ys = targets-append xs ys
targets-append (manager e ∷ xs) ys = targets-append xs ys

to_manager-append :
    (xs ys : List ProbeEffect) → to_manager (xs ++ ys) ≡ to_manager xs ++ to_manager ys
unfolding to_manager
to_manager-append [] ys = refl
to_manager-append (send_to fd ip packet ∷ xs) ys = to_manager-append xs ys
to_manager-append (close_fd fd ∷ xs) ys = to_manager-append xs ys
to_manager-append (manager e ∷ xs) ys = ap (λ t. e ∷ t) (to_manager-append xs ys)

-- Effects without a probe and without a call of the WAN manager.
record Quiet (es : List ProbeEffect) : Type 0 where
  no_probe : targets es ≡ []
  no_call : to_manager es ≡ []

nothing-Quiet : Quiet []
nothing-Quiet = record { no_probe = unfold targets in refl; no_call = unfold to_manager in refl }

close-Quiet : (fd : ℕ) → Quiet (close_fd fd ∷ [])
close-Quiet fd = record { no_probe = unfold targets in refl; no_call = unfold to_manager in refl }

keep_fd-Quiet : (named : Bool) (dev : Device) (fd : Option ℕ) → Quiet (keep_fd named dev fd).1
keep_fd-Quiet named dev none = nothing-Quiet
keep_fd-Quiet named dev (some fd) = elim (Bool-cases (named && dev.ifindex == 0)) [
  | inl b ↦ rw b (close-Quiet fd)
  | inr b ↦ rw b nothing-Quiet
]

bind_fd-Quiet : (binds : Bool) (fd : Option ℕ) → Quiet (bind_fd binds fd).1
bind_fd-Quiet binds none = nothing-Quiet
bind_fd-Quiet true (some fd) = nothing-Quiet
bind_fd-Quiet false (some fd) = close-Quiet fd

open_fd-Quiet : (named : Bool) (dev : Device) (fd : Option ℕ) → Quiet (open_fd named dev fd).1
open_fd-Quiet named dev (some fd) = nothing-Quiet
open_fd-Quiet named dev none = elim (Bool-cases (named && ltb 0 dev.ifindex)) [
  | inl b ↦ rw b (bind_fd-Quiet dev.binds dev.opened)
  | inr b ↦ rw b nothing-Quiet
]

drop_gone-Quiet : (gone : Bool) (fd : Option ℕ) → Quiet (drop_gone gone fd).1
drop_gone-Quiet gone none = nothing-Quiet
drop_gone-Quiet true (some fd) = close-Quiet fd
drop_gone-Quiet false (some fd) = nothing-Quiet

sent_on-targets :
    (fd : Option ℕ) (raw ip : ℕ) (packet : List ℕ)
    → (targets (sent_on (or_raw fd (some raw)) ip packet) ≡ ip ∷ [])
      × (to_manager (sent_on (or_raw fd (some raw)) ip packet) ≡ [])
unfolding targets to_manager
sent_on-targets none raw ip packet = (refl, refl)
sent_on-targets (some fd) raw ip packet = (refl, refl)

-- Around one probe to an address nothing else is sent.
around :
    (e1 e2 e3 e4 : List ProbeEffect) (ip : ℕ)
    → Quiet e1
    → Quiet e2
    → targets e3 ≡ ip ∷ []
    → to_manager e3 ≡ []
    → Quiet e4
    → (targets (e1 ++ (e2 ++ (e3 ++ e4))) ≡ ip ∷ []) × (to_manager (e1 ++ (e2 ++ (e3 ++ e4))) ≡ [])
around e1 e2 e3 e4 ip q1 q2 t m q4 = (
  rw
      (
        targets-append e1,
        targets-append e2,
        targets-append e3,
        q1.no_probe,
        q2.no_probe,
        t,
        q4.no_probe,
      )
      refl,
  rw
      (
        to_manager-append e1,
        to_manager-append e2,
        to_manager-append e3,
        q1.no_call,
        q2.no_call,
        m,
        q4.no_call,
      )
      refl,
)

transmit-targets :
    (dev : Device) (w : Wan) (fd : Option ℕ) (raw : ℕ) (packet : List ℕ)
    → (targets (transmit dev w fd (some raw) packet).1 ≡ target_ip w dev ∷ [])
      × (to_manager (transmit dev w fd (some raw) packet).1 ≡ [])
unfolding transmit
transmit-targets dev w fd raw packet =
    let named = has_dev w in
    let r1 = keep_fd named dev fd in
    let r2 = open_fd named dev r1.0 in
    let r3 = drop_gone dev.gone r2.0 in
    let ip = target_ip w dev in
    let (t, m) = sent_on-targets r2.0 raw ip packet in
    around r1.1 r2.1 (sent_on (or_raw r2.0 (some raw)) ip packet) r3.1 ip
      (keep_fd-Quiet named dev fd) (open_fd-Quiet named dev r1.0) t m
      (drop_gone-Quiet dev.gone r2.0)

-- Where the probe of a WAN goes, if it is probed.
abbrev pub own_target : Device → Option Wan → List ℕ
own_target dev none = []
own_target dev (some w) = if not w.enabled || w.proxy_enabled then [] else target_ip w dev ∷ []

-- The targets of `n` WANs from an index on.
unfoldable pub due_targets : (ℕ → Device) → List Wan → ℕ → ℕ → List ℕ
due_targets devs ws i zero = []
due_targets devs ws i (suc n) =
    own_target (devs i) (get_elem? ws i) ++ due_targets devs ws (suc i) n

due_targets-same :
    (devs : ℕ → Device) (a b : List Wan) (i n : ℕ)
    → ((k : ℕ) → i ≤ k → get_elem? a k ≡ get_elem? b k)
    → due_targets devs a i n ≡ due_targets devs b i n
unfolding due_targets
due_targets-same devs a b i zero h = refl
due_targets-same devs a b i (suc n) h = rw (h i (omega arith)) (
    ap (λ t. own_target (devs i) (get_elem? b i) ++ t)
      (due_targets-same devs a b (suc i) n (λ k l. h k (omega arith))))

due_targets-first :
    (devs : ℕ → Device) (ws : List Wan) (i n : ℕ) (es fs : List ProbeEffect)
    → targets es ≡ own_target (devs i) (get_elem? ws i)
    → targets fs ≡ due_targets devs ws (suc i) n
    → targets (es ++ fs) ≡ due_targets devs ws i (suc n)
unfolding due_targets
due_targets-first devs ws i n es fs h k = rw (targets-append es fs, h, k) refl

-- What one pass of the loop does and keeps.
record Probes (i : ℕ) (dev : Device) (sh sh' : Shared) (es : List ProbeEffect) (o : Option Wan)
    : Type 0 where
  goes : targets es ≡ own_target dev o
  quiet : to_manager es ≡ []
  ring : sh'.ctx.maglev_lut ≡ sh.ctx.maglev_lut
  raw : sh'.raw_fd ≡ sh.raw_fd
  size : length sh'.ctx.config.wans ≡ length sh.ctx.config.wans
  rest : (k : ℕ) → k ≢ i → get_elem? sh'.ctx.config.wans k ≡ get_elem? sh.ctx.config.wans k

module _ (size : ℕ) (stale : ℕ → Member) (authorized : Bool) where
  unprobed :
      (i : ℕ) (dev : Device) (sh : Shared) (o : Option Wan)
      → own_target dev o ≡ []
      → Probes i dev sh sh [] o
  unprobed i dev sh o e = record {
    goes = unfold targets in sym e;
    quiet = unfold to_manager in refl;
    ring = refl;
    raw = refl;
    size = refl;
    rest = λ k h. refl;
  }

  send_probe-Probes :
      (now_us i raw : ℕ) (dev : Device) (sh : Shared) (o : Option Wan)
      → i < length sh.ctx.config.wans
      → sh.raw_fd ≡ some raw
      → (sh' : Shared) × (es : List ProbeEffect) × (send_probe size stale authorized now_us dev sh i
            o
          ≡ some (sh', es))
        × Probes i dev sh sh' es o
  unfolding send_probe
  send_probe-Probes now_us i raw dev sh none h r = (sh, [], refl, unprobed i dev sh none refl)
  send_probe-Probes now_us i raw dev sh (some w) h r =
      let p = sh.ctx.config.prober in
      let old = get_or sh.states i init in
      let ps = take_slot p now_us old in
      let packet = probe_packet sh.pid i old.current_seq now_us in
      let done = transmit dev w (sh.wan_send_fds i) sh.raw_fd packet in
      let w' : Wan = record w { metrics = window_metrics ps now_us w.metrics } in
      let s = verdict p w'.metrics in
      let v : Wan = record w' { state = s } in
      elim (Bool-cases (not w.enabled || w.proxy_enabled)) [
        | inl b ↦ (sh, [], rw b refl, unprobed i dev sh (some w) (rw b refl))
        | inr b ↦
            (let sent : (targets done.1 ≡ target_ip w dev ∷ []) × (to_manager done.1 ≡ []) =
                rw r (transmit-targets dev w (sh.wan_send_fds i) raw packet) in
              (
                record sh {
                  ctx = put_wan sh.ctx i v;
                  states = set sh.states i ps;
                  wan_send_fds = put_at sh.wan_send_fds i done.0;
                },
                done.1 ++ [],
                rw (b, report_silent size stale authorized sh.ctx i w' s h) refl,
                record {
                  goes = rw (targets-append done.1, b) (unfold targets in rw sent.0 refl);
                  quiet = rw (to_manager-append done.1) (unfold to_manager in rw sent.1 refl);
                  ring = refl;
                  raw = refl;
                  size = length-set sh.ctx.config.wans i v;
                  rest = λ k n. get_elem?-set_other sh.ctx.config.wans i k v n;
                },
              ))
      ]

  -- A pass of the prober over WANs of the configuration, with its raw socket open, sends one probe
  -- to the target of each enabled WAN without a proxy, in their order. It never makes the WAN
  -- manager log, alert or update a map, and leaves the ring as it was, whatever it finds.
  pub send_probes-targets :
      (now_us raw : ℕ) (devs : ℕ → Device) (i n : ℕ) (sh : Shared)
      → i + n ≤ length sh.ctx.config.wans
      → sh.raw_fd ≡ some raw
      → (sh' : Shared) × (es : List ProbeEffect) × (send_probes size stale authorized now_us devs i
            n sh
          ≡ some (sh', es))
        × (targets es ≡ due_targets devs sh.ctx.config.wans i n)
        × (to_manager es ≡ [])
        × (sh'.ctx.maglev_lut ≡ sh.ctx.maglev_lut)
  unfolding send_probes
  send_probes-targets now_us raw devs i zero sh h r =
      (sh, [], refl, unfold targets due_targets in refl, unfold to_manager in refl, refl)
  send_probes-targets now_us raw devs i (suc n) sh h r =
      let o = get_elem? sh.ctx.config.wans i in
      let (sh1, es1, e1, p) = send_probe-Probes now_us i raw (devs i) sh o (omega arith) r in
      let (sh2, es2, e2, goes, quiet, ring) =
        send_probes-targets now_us raw devs (suc i) n sh1 (omega (arith, p.size)) (p.raw ∙ r) in
      let later =
        due_targets-same devs sh1.ctx.config.wans sh.ctx.config.wans (suc i) n
          (λ k l. p.rest k (omega arith)) in
      (
        sh2,
        es1 ++ es2,
        rw (e1, e2) refl,
        due_targets-first devs sh.ctx.config.wans i n es1 es2 p.goes (goes ∙ later),
        rw (to_manager-append es1 es2, p.quiet, quiet) refl,
        ring ∙ p.ring,
      )
