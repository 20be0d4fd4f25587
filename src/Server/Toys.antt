-- ===== src/Server/Toys.antt =====
-- A channel of room for two as a list, and numbers for JSON values.
use hakuraku.Prelude.{
  ℕ, ◌≡◌, List, [], ◌∷◌, ◌++◌, Option, none, some, print_u64, parse_u64, ltb, length, length-append,
  arith, if◌then◌else◌, Text, pos,
}
use hakuraku.Core.Proto.{NodeStats}
use hakuraku.Server.State.{Channel, IsChannel, Json, IngestionItem}

abbrev pub Items : Type 0
Items = List (IngestionItem ℕ)

abbrev give : Items → Option (IngestionItem ℕ × Items)
give [] = none
give (x ∷ xs) = some (x, xs)

abbrev pub pair : Channel Items (IngestionItem ℕ)
pair = record {
  try_send = λ q a. if ltb (length q) 2 then some (q ++ a ∷ []) else none;
  recv = give;
  contents = λ q. q;
}

give-contents : (q r : Items) (a : IngestionItem ℕ) → give q ≡ some (a, r) → q ≡ a ∷ r
give-contents [] r a h = cc
give-contents (x ∷ xs) r a h = cc

pub pair-IsChannel : IsChannel 2 pair
pair-IsChannel = record {
  sent = λ q r a h. ground arith;
  bounded = λ q r a h. ground (arith, length-append q (a ∷ []));
  received = give-contents;
}

abbrev pub numbers : Json ℕ
numbers = record { to_string = print_u64; from_str = parse_u64; null = 0 }

abbrev pub snapshot : Text → NodeStats ℕ
snapshot node_id = record {
  node_id = node_id;
  timestamp_ms = pos 1000;
  cpu_percent = 42;
  cpu_per_core = 40 ∷ 44 ∷ [];
  load_avg_1 = 1;
  load_avg_5 = 1;
  load_avg_15 = 1;
  mem_total = 1000;
  mem_used = 500;
  mem_free = 500;
  mem_available = 500;
  mem_buffers = 0;
  mem_cached = 0;
  swap_total = 0;
  swap_used = 0;
  disk_read_bytes_sec = 0;
  disk_write_bytes_sec = 0;
  net_interfaces = [];
  tcp_connections = 5;
  udp_connections = 2;
  uptime_seconds = 1234;
  temperatures = [];
}
