-- ===== src/Config.antt =====
-- include/fluxwan.h: the shared configuration, with the fields that the modelled code reads or
-- writes. A `char` array is the list of its bytes before the terminator.
use flux_wan.Base.{ℕ, List, Bool}

pub data WanType : Type 0 where
  static dhcp pppoe wifi : WanType

pub data WanState : Type 0 where
  down degraded healthy draining : WanState

-- `packet_loss` is `packet_loss_pct` in thirty-seconds of a percent. The code only stores
-- `losses * 100.0f / 32`, which is exact in a `float` and a whole number in this unit.
pub record Metrics : Type 0 where
  pub rtt_ms : ℕ
  pub jitter_ms : ℕ
  pub packet_loss : ℕ
  pub last_probe_time : ℕ

pub record Wan : Type 0 where
  pub id : ℕ
  pub name : List ℕ
  pub type : WanType
  pub ip_addr : ℕ
  pub gateway : ℕ
  pub table_id : ℕ
  pub config_weight : ℕ
  pub dynamic_weight : ℕ
  pub bandwidth_down_mbps : ℕ
  pub state : WanState
  pub enabled : Bool
  pub probe_target_ip : ℕ
  pub metrics : Metrics
  pub ifindex : ℕ
  pub mtu : ℕ
  pub proxy_enabled : Bool

-- `wan_member_indices` has `wan_count` entries.
pub record Group : Type 0 where
  pub id : ℕ
  pub wan_member_indices : List ℕ
  pub maglev_ring : List ℕ

-- `max_acceptable_loss` is in the unit of `packet_loss`, rounded down: a whole number exceeds the
-- configured `float` exactly if it exceeds this.
pub record ProberConfig : Type 0 where
  pub timeout_ms : ℕ
  pub max_acceptable_rtt_ms : ℕ
  pub max_acceptable_loss : ℕ
  pub dynamic_latency_steering : Bool

pub record Telegram : Type 0 where
  pub enabled : Bool
  pub notify_on_failover : Bool
  pub notify_on_recovery : Bool

pub record Config : Type 0 where
  pub wans : List Wan
  pub groups : List Group
  pub prober : ProberConfig
  pub telegram : Telegram
  pub lan_ip : ℕ
