-- ===== src/Examples/Probing.antt =====
-- src/prober.c and the checksums at concrete packets.
use flux_wan.Base.{ℕ, ◌+◌, ◌≡◌, refl, List, [], ◌∷◌, true, false, none, some, u16, get_or, arith}
use flux_wan.Prober.{ProbeState, init, handle_packet, credit_at}
use flux_wan.Prober.Reply.{reply, handle_packet-reply}
use flux_wan.Prober.Report.{Device, Shared, ProbeEffect, send_probes}
use flux_wan.Prober.Pass.{targets, to_manager, due_targets, send_probes-targets}
use flux_wan.Examples.Steering.{lines, fresh, ctx}

abbrev header : List ℕ
header = 0x45 ∷ 0 ∷ 0 ∷ 84 ∷ 0 ∷ 0 ∷ 0 ∷ 0 ∷ 64 ∷ 1 ∷ 0 ∷ 0 ∷ 8 ∷ 8 ∷ 8 ∷ 8 ∷ 10 ∷ 0 ∷ 0 ∷ 2 ∷ []

abbrev states : List ProbeState
states = init ∷ init ∷ []

first : get_or header 0 0 ≡ 0x45
unfolding get_or
first = refl

handle_packet-reply_example :
    handle_packet 4660 1050000 (reply header 7 (u16 (4660 + 1)) 17 1000000) (lines, states)
    ≡ credit_at 1050000 17 1000000 1 (lines, states)
handle_packet-reply_example =
    handle_packet-reply 4660 1050000 1 7 17 1000000 header lines states refl first (omega arith)
      (omega arith) (omega arith) (omega arith)

abbrev shared : Shared
shared = record {
  ctx = ctx;
  states = states;
  wan_send_fds = λ i. none;
  raw_fd = some 3;
  pid = 4660;
}

-- Each interface is there, with a socket of its own.
abbrev device : ℕ → Device
device i = record {
  probe_target = b'9' ∷ b'.' ∷ b'9' ∷ b'.' ∷ b'9' ∷ b'.' ∷ b'9' ∷ [];
  ifindex = i + 1;
  opened = some (i + 10);
  binds = true;
  gone = false;
}

send_probes-targets_example :
    (sh' : Shared) × (es : List ProbeEffect) × (send_probes 7 fresh true 5000 device 0 2 shared
      ≡ some (sh', es))
    × (targets es ≡ due_targets device shared.ctx.config.wans 0 2)
    × (to_manager es ≡ [])
    × (sh'.ctx.maglev_lut ≡ shared.ctx.maglev_lut)
send_probes-targets_example =
    send_probes-targets 7 fresh true 5000 3 device 0 2 shared (omega arith) refl
