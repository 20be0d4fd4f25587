-- ===== src/Server/Grpc/Serial.antt =====
-- pulse-server/src/grpc.rs: what a snapshot becomes before serde turns it into a value.
use hakuraku.Prelude.{ℕ, List, map, Text, ℤ}
use hakuraku.Core.Proto.{NetworkInterface, TemperatureSensor, NodeStats}

pub record NetIfaceSerializable : Type 0 where
  pub name : Text
  pub rx_bytes_sec : ℕ
  pub tx_bytes_sec : ℕ
  pub rx_bytes_total : ℕ
  pub tx_bytes_total : ℕ

pub record TempSerializable : Type 0 where
  pub label : Text
  pub temp_millicelsius : ℤ

-- `StatsSerializable`: the snapshot without its node and time.
pub record StatsSerializable (F : Type 0) : Type 0 where
  pub cpu_percent : F
  pub cpu_per_core : List F
  pub load_avg_1 : F
  pub load_avg_5 : F
  pub load_avg_15 : F
  pub mem_total : ℕ
  pub mem_used : ℕ
  pub mem_free : ℕ
  pub mem_available : ℕ
  pub mem_buffers : ℕ
  pub mem_cached : ℕ
  pub swap_total : ℕ
  pub swap_used : ℕ
  pub disk_read_bytes_sec : ℕ
  pub disk_write_bytes_sec : ℕ
  pub net_interfaces : List NetIfaceSerializable
  pub tcp_connections : ℕ
  pub udp_connections : ℕ
  pub uptime_seconds : ℕ
  pub temperatures : List TempSerializable

abbrev copy_interface : NetworkInterface → NetIfaceSerializable
copy_interface n = record {
  name = n.name;
  rx_bytes_sec = n.rx_bytes_sec;
  tx_bytes_sec = n.tx_bytes_sec;
  rx_bytes_total = n.rx_bytes_total;
  tx_bytes_total = n.tx_bytes_total;
}

abbrev copy_sensor : TemperatureSensor → TempSerializable
copy_sensor t = record { label = t.label; temp_millicelsius = t.temp_millicelsius }

unfoldable pub serializable : {F : Type 0} → NodeStats F → StatsSerializable F
serializable s = record {
  cpu_percent = s.cpu_percent;
  cpu_per_core = s.cpu_per_core;
  load_avg_1 = s.load_avg_1;
  load_avg_5 = s.load_avg_5;
  load_avg_15 = s.load_avg_15;
  mem_total = s.mem_total;
  mem_used = s.mem_used;
  mem_free = s.mem_free;
  mem_available = s.mem_available;
  mem_buffers = s.mem_buffers;
  mem_cached = s.mem_cached;
  swap_total = s.swap_total;
  swap_used = s.swap_used;
  disk_read_bytes_sec = s.disk_read_bytes_sec;
  disk_write_bytes_sec = s.disk_write_bytes_sec;
  net_interfaces = map copy_interface s.net_interfaces;
  tcp_connections = s.tcp_connections;
  udp_connections = s.udp_connections;
  uptime_seconds = s.uptime_seconds;
  temperatures = map copy_sensor s.temperatures;
}
