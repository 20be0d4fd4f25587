-- ===== src/Core/Proto.antt =====
-- pulse-core/proto/telemetry.proto: the messages of the stream. `F` stands for `double`.
use hakuraku.Prelude.{ℕ, Bool, List, Option, Text, ℤ}

pub record NetworkInterface : Type 0 where
  pub name : Text
  pub rx_bytes_sec : ℕ
  pub tx_bytes_sec : ℕ
  pub rx_bytes_total : ℕ
  pub tx_bytes_total : ℕ

pub record TemperatureSensor : Type 0 where
  pub label : Text
  pub temp_millicelsius : ℤ

pub record NodeStats (F : Type 0) : Type 0 where
  pub node_id : Text
  pub timestamp_ms : ℤ
  pub cpu_percent : F
  pub cpu_per_core : List F
  pub load_avg_1 : F
  pub load_avg_5 : F
  pub load_avg_15 : F
  pub mem_total : ℕ
  pub mem_used : ℕ
  pub mem_free : ℕ
  pub mem_available : ℕ
  pub mem_buffers : ℕ
  pub mem_cached : ℕ
  pub swap_total : ℕ
  pub swap_used : ℕ
  pub disk_read_bytes_sec : ℕ
  pub disk_write_bytes_sec : ℕ
  pub net_interfaces : List NetworkInterface
  pub tcp_connections : ℕ
  pub udp_connections : ℕ
  pub uptime_seconds : ℕ
  pub temperatures : List TemperatureSensor

pub record TcpProbe : Type 0 where
  pub host : Text
  pub port : ℕ
  pub timeout_ms : ℕ

pub record ProbeResult : Type 0 where
  pub target : Text
  pub success : Bool
  pub latency_us : ℕ
  pub error_message : Text

pub record Heartbeat : Type 0 where
  pub node_id : Text
  pub timestamp_ms : ℤ

-- `oneof payload` of a TelemetryMessage; a message may have none.
pub data Payload (F : Type 0) : Type 0 where
  stats : NodeStats F → Payload F
  heartbeat : Heartbeat → Payload F
  probe_result : ProbeResult → Payload F

abbrev pub TelemetryMessage : Type 0 → Type 0
TelemetryMessage F = Option (Payload F)

-- `oneof payload` of a ServerCommand.
pub data Command : Type 0 where
  heartbeat_ack : ℤ → Command
  add_ping_target : Text → ℕ → ℕ → Command
  add_tcp_probe : TcpProbe → Command
  config_update : ℕ → Command

abbrev pub ServerCommand : Type 0
ServerCommand = Option Command
