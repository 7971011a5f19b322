-- ===== src/Router/Dispatch/Runs.antt =====
-- Runs of bpf/xdp_router.bpf.c: packets, entries that the kernel drops from an LRU map, and writes
-- of the control plane, in any order.
use flux_wan.Base.{ℕ, ◌≡◌, List, true, Option}
use flux_wan.Router.{FlowKey, WanEntry, Policy, Ctrl}
use flux_wan.Router.Dispatch.{Maps, erase, is_closing, route}
use flux_wan.Router.Dispatch.Sessions.{IsOpen, erase-NoClosing, route-IsOpen, route_closing}

pub record Control : Type 0 where
  pub wan_table : List WanEntry
  pub lpm_subnet : ℕ → Option ℕ
  pub policy_route : List Policy
  pub maglev_group : List ℕ
  pub maglev_lut : List ℕ
  pub ctrl : Option Ctrl

abbrev pub configured : Maps → Control → Maps
configured maps c = record maps {
  wan_table = c.wan_table;
  lpm_subnet = c.lpm_subnet;
  policy_route = c.policy_route;
  maglev_group = c.maglev_group;
  maglev_lut = c.maglev_lut;
  ctrl = c.ctrl;
}

pub data Step : Maps → Maps → Type 0 where
  packet : (maps : Maps) (key : FlowKey) → Step maps (route maps key).0
  drop_local :
      (maps : Maps) (key : FlowKey)
      → Step maps (record maps { local_lru = erase maps.local_lru key })
  drop_sticky :
      (maps : Maps) (key : FlowKey)
      → Step maps (record maps { sticky_flow = erase maps.sticky_flow key })
  configure : (maps : Maps) (c : Control) → Step maps (configured maps c)

pub data Run : Maps → Maps → Type 0 where
  done : (maps : Maps) → Run maps maps
  next : {a b : Maps} → (c : Maps) → Run a b → Step b c → Run a c

Step-IsOpen : {a b : Maps} → Step a b → IsOpen a → IsOpen b
Step-IsOpen (packet maps key) h = route-IsOpen maps key h
Step-IsOpen (drop_local maps key) h = (erase-NoClosing maps.local_lru key h.0, h.1)
Step-IsOpen (drop_sticky maps key) h = (h.0, erase-NoClosing maps.sticky_flow key h.1)
Step-IsOpen (configure maps c) h = h

Run-IsOpen : {a b : Maps} → Run a b → IsOpen a → IsOpen b
Run-IsOpen (done maps) h = h
Run-IsOpen (next c r s) h = Step-IsOpen s (Run-IsOpen r h)

-- In every state that packets, dropped entries and writes of the control plane lead to from session
-- maps without a key with RST or FIN, a packet with RST or FIN changes neither session map.
pub Run-closing :
    {a b : Maps}
    → Run a b
    → IsOpen a
    → (key : FlowKey) → is_closing key ≡ true
    → ((route b key).0.local_lru ≡ b.local_lru) × ((route b key).0.sticky_flow ≡ b.sticky_flow)
Run-closing {a} {b} r h key c = route_closing b key (Run-IsOpen r h) c
