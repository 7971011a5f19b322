-- ===== src/Dispatcher/Target.antt =====
-- The uplink that the chain of bpf/xdp_dispatcher.bpf.c gives a packet.
use flux_wan.Base.{
  ℕ, zero, suc, ◌+◌, ◌≡◌, refl, sym, subst, length, inl, inr, ◌∙◌, ap, List, [], ◌∷◌, ◌++◌, Bool,
  true, false, not, ◌&&◌, Option, none, some, Bool-cases, Option-cases, get_elem?, ltb, ◌==◌,
  if◌then◌else◌, take, drop, arith,
}
use flux_wan.Router.{FlowKey, Session, in_bounds, max_ebpf_wans}
use flux_wan.Router.Parse.{is_ipv4}
use flux_wan.Router.Dispatch.{erase}
use flux_wan.Dispatcher.{
  count_packet, modify_at, with_stage, on_flow, call, cleared, WanEntry, WanStats, PktCtx, Progs,
  Maps, is_up, is_closing, on_sticky, maglev_target, first_up, choose, save, balanced, balance,
  with_target, is_private, classify, classified, rewritten, translated, xdp_stats, xdp_snat, xdp_lb,
  xdp_classifier, xdp_dispatcher,
}

-- If an uplink is up, the walk over the table finds one.
first_up-up :
    (ws : List WanEntry) (i j : ℕ)
    → is_up (get_elem? ws j) ≡ true
    → (k : ℕ) × (first_up ws i ≡ some (i + k)) × (is_up (get_elem? ws k) ≡ true)
unfolding first_up
first_up-up [] i j h = ground arith
first_up-up (we ∷ ws) i zero h = (0, ground arith, h)
first_up-up (we ∷ ws) i (suc j) h = elim (Bool-cases (is_up (some we))) [
  | inl b ↦ (0, rw b (ground arith), b)
  | inr b ↦ (let (k, e, u) = first_up-up ws (suc i) j h in (suc k, rw (b, e) (ground arith), u))
]

abbrev pub up_at : Maps → ℕ → Bool
up_at maps w = is_up (get_elem? maps.wan_table w)

choose-up : (maps : Maps) (j : ℕ) → up_at maps j ≡ true → up_at maps (choose maps) ≡ true
unfolding choose
choose-up maps j h = elim (Bool-cases (up_at maps (maglev_target maps))) [
  | inl b ↦ rw b b
  | inr b ↦
      (let (k, e, u) = first_up-up maps.wan_table 0 j h in
        rw (b, e) (let same : 0 + k ≡ k = omega arith in rw same u))
]

balanced-up :
    (maps : Maps) (j : ℕ) (o : Option Session)
    → up_at maps j ≡ true
    → up_at maps (balanced maps.pctx.flow (on_sticky maps maps.pctx.flow o)).1 ≡ true
unfolding on_sticky
balanced-up maps j none h = choose-up maps j h
balanced-up maps j (some s) h =
    elim (Bool-cases (ltb s.wan_idx max_ebpf_wans && up_at maps s.wan_idx)) [
      | inl b ↦ rw b (elim (Bool-cases (is_closing maps.pctx.flow)) [
        | inl c ↦
            rw c
              (choose-up (record maps { sticky_flow = erase maps.sticky_flow maps.pctx.flow }) j h)
        | inr c ↦ rw c (ground arith)
      ])
      | inr b ↦ rw b (choose-up maps j h)
    ]

balance-up : (maps : Maps) (j : ℕ) → up_at maps j ≡ true → up_at maps (balance maps).1 ≡ true
unfolding balance
balance-up maps j h = balanced-up maps j (maps.sticky_flow maps.pctx.flow) h

-- The choice of an uplink changes the sessions only.
abbrev SameRest : Maps → Maps → Type 0
SameRest a b =
    (a.wan_table ≡ b.wan_table)
    × (a.pctx ≡ b.pctx)
    × (a.progs ≡ b.progs)
    × (a.wan_stats ≡ b.wan_stats)

balanced-SameRest :
    (maps : Maps) (key : FlowKey) (o : Option Session)
    → SameRest (balanced key (on_sticky maps key o)).0 maps
unfolding on_sticky save
balanced-SameRest maps key none = (ground arith, ground arith, ground arith, ground arith)
balanced-SameRest maps key (some s) = (ground arith, ground arith, ground arith, ground arith)

balance-SameRest : (maps : Maps) → SameRest (balance maps).0 maps
unfolding balance
balance-SameRest maps = balanced-SameRest maps maps.pctx.flow (maps.sticky_flow maps.pctx.flow)

-- All four programs are loaded.
abbrev pub all_loaded : Progs
all_loaded = record { classifier = true; lb = true; snat = true; stats = true }

-- The packet of a flow that leaves by an uplink.
abbrev pub sent_by : WanEntry → FlowKey → List ℕ → List ℕ
sent_by we flow buf =
    if is_private flow.src_ip
      && not (we.ip_addr == 0)
      && in_bounds buf 0 14
      && in_bounds buf 14 20
      && is_ipv4 buf 14
    then take 14 buf ++ translated (drop 14 buf) we.ip_addr
    else buf

call_loaded :
    (b : Bool) (program : Maps → List ℕ → Maps × List ℕ) (maps : Maps) (buf : List ℕ)
    → b ≡ true
    → call b program maps buf ≡ program maps buf
call_loaded b program maps buf h = rw h refl

-- The maps and the packet behind the translation and the statistics.
abbrev finished : Maps → List ℕ → Maps × List ℕ
finished maps buf =
    let packet = rewritten maps.pctx buf in
    let idx = maps.pctx.target_wan_idx in
    let last = with_stage maps 3 in
    (
      record last {
        wan_stats =
            modify_at maps.wan_stats (if ltb idx max_ebpf_wans then idx else 0)
              (count_packet last.pctx (length packet));
      },
      packet,
    )

xdp_snat-finished :
    (maps : Maps) (buf : List ℕ) → maps.progs.stats ≡ true → xdp_snat maps buf ≡ finished maps buf
unfolding xdp_snat xdp_stats
xdp_snat-finished maps buf h = rw h refl

-- A packet that is left to the uplink `we` at the index `w`: the record of the packet names the
-- uplink and its address, the packet is the given one, and it is counted for this uplink.
pub record SentBy (maps : Maps) (w : ℕ) (we : WanEntry) (packet : List ℕ) (r : Maps × List ℕ)
    : Type 0 where
  pub there : get_elem? maps.wan_table w ≡ some we
  pub up : is_up (some we) ≡ true
  pub target : r.0.pctx.target_wan_idx ≡ w
  pub address : r.0.pctx.wan_ip ≡ we.ip_addr
  pub counted :
      r.0.wan_stats
      ≡ modify_at maps.wan_stats
          (if ltb w max_ebpf_wans then w else 0)
          (count_packet r.0.pctx (length packet))
  pub bytes : r.1 ≡ packet

with_target-SentBy :
    (maps m : Maps) (t : ℕ) (we : WanEntry) (buf : List ℕ)
    → SameRest m maps
    → get_elem? maps.wan_table t ≡ some we
    → is_up (some we) ≡ true
    → SentBy maps t we
        (rewritten (record maps.pctx { wan_ip = we.ip_addr }) buf)
        (finished (with_target (m, t)) buf)
with_target-SentBy maps m t we buf same e up =
    let active : we.is_active ≡ true = ground arith in
    let found : get_elem? m.wan_table t ≡ some we =
      ap (λ (ws : List WanEntry). get_elem? ws t) same.0 ∙ e in
    let address : (with_target (m, t)).pctx.wan_ip ≡ we.ip_addr = rw found (rw active refl) in
    let packet =
      ap (λ ip. rewritten (record m.pctx { wan_ip = ip }) buf) address
      ∙ ap (λ (c : PktCtx). rewritten (record c { wan_ip = we.ip_addr }) buf) same.1 in
    let last = finished (with_target (m, t)) buf in
    let idx = if ltb t max_ebpf_wans then t else 0 in
    record {
      there = e;
      up = up;
      target = refl;
      address = address;
      counted =
          ap (λ (sts : List WanStats). modify_at sts idx (count_packet last.0.pctx (length last.1)))
            same.3
          ∙ ap (λ (p : List ℕ). modify_at maps.wan_stats idx (count_packet last.0.pctx (length p)))
              packet;
      bytes = packet;
    }

xdp_lb-SentBy :
    (maps : Maps) (buf : List ℕ) (j : ℕ)
    → maps.progs ≡ all_loaded
    → up_at maps j ≡ true
    → (w : ℕ) × (we : WanEntry) × SentBy maps w we
        (rewritten (record maps.pctx { wan_ip = we.ip_addr }) buf)
        (xdp_lb maps buf)
xdp_lb-SentBy maps buf j p h =
    let m = (balance maps).0 in
    let t = (balance maps).1 in
    let same = balance-SameRest maps in
    let up = balance-up maps j h in
    let chosen = with_target (m, t) in
    let loaded : chosen.progs ≡ all_loaded = same.2 ∙ p in
    let whole : xdp_lb maps buf ≡ finished chosen buf =
      unfold xdp_lb in
      call_loaded chosen.progs.snat xdp_snat chosen buf (ap (λ (g : Progs). g.snat) loaded)
      ∙ xdp_snat-finished chosen buf (ap (λ (g : Progs). g.stats) loaded) in
    elim (Option-cases (get_elem? maps.wan_table t)) [
      | inl e ↦ (let bad : false ≡ true = subst (λ o. is_up o ≡ true) e up in ground arith)
      | inr (we, e) ↦
          (let good : is_up (some we) ≡ true = subst (λ o. is_up o ≡ true) e up in
            let packet = rewritten (record maps.pctx { wan_ip = we.ip_addr }) buf in
            (
              t,
              we,
              subst (SentBy maps t we packet) (sym whole)
                  (with_target-SentBy maps m t we buf same e good),
            ))
    ]

-- With all programs loaded and an uplink that is up, a packet that the classifier reads is left to
-- an uplink of the table that is up: the record of the packet ends with the index and the address
-- of this uplink, and the packet is counted for it. If its source address is private, that address
-- becomes the one of the uplink (if the uplink has one and an IPv4 header follows the Ethernet
-- header directly). Any other packet is not changed.
pub xdp_dispatcher-SentBy :
    (maps : Maps) (buf : List ℕ) (flow : FlowKey) (j : ℕ)
    → maps.progs ≡ all_loaded
    → classify buf ≡ some flow
    → is_up (get_elem? maps.wan_table j) ≡ true
    → (w : ℕ) × (we : WanEntry) × SentBy maps w we (sent_by we flow buf) (xdp_dispatcher maps buf)
xdp_dispatcher-SentBy maps buf flow j p c h =
    let start : Maps = record maps { pctx = cleared maps.pctx } in
    let read : Maps = classified start flow in
    let (w, we, s) = xdp_lb-SentBy read buf j p h in
    let first =
      call_loaded maps.progs.classifier xdp_classifier start buf
        (ap (λ (g : Progs). g.classifier) p) in
    let second = call_loaded maps.progs.lb xdp_lb read buf (ap (λ (g : Progs). g.lb) p) in
    let middle : xdp_classifier start buf ≡ call maps.progs.lb xdp_lb read buf =
      unfold xdp_classifier in ap (on_flow start buf) c in
    let whole : xdp_dispatcher maps buf ≡ xdp_lb read buf =
      unfold xdp_dispatcher in first ∙ (middle ∙ second) in
    (
      w,
      we,
      record {
        there = s.there;
        up = s.up;
        target = rw whole s.target;
        address = rw whole s.address;
        counted = rw whole s.counted;
        bytes = rw whole s.bytes;
      },
    )
