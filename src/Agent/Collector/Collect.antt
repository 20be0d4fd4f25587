-- ===== src/Agent/Collector/Collect.antt =====
-- pulse-agent/src/collector.rs: a whole snapshot, one reader after the other.
use hakuraku.Prelude.{ℕ, ◌-◌, ◌/◌, ◌%◌, Option, none, some, Text, as_i64, ℤ, pos, ok}
use hakuraku.Core.Float.{Float}
use hakuraku.Core.Proto.{NodeStats}
use hakuraku.Agent.Collector.{SystemCollector, Kernel, Collecting, after, reading}
use hakuraku.Agent.Collector.Proc.{
  read_meminfo, read_loadavg, read_connections, read_uptime, read_temperatures,
}
use hakuraku.Agent.Collector.Cpu.{read_cpu}
use hakuraku.Agent.Collector.Counters.{read_net_dev, read_diskstats}

-- The system's clock in milliseconds, where it reads.
abbrev pub timestamp : Option ℕ → ℤ
timestamp none = pos 0
timestamp (some t) = as_i64 t

module _ {F : Type 0} (f : Float F) where
  -- `Duration::as_secs_f64`.
  abbrev pub as_secs : ℕ → F
  as_secs nanos =
      f.add (f.of_u64 (nanos / 1000000000))
        (f.div (f.of_u64 (nanos % 1000000000)) (f.of_u64 1000000000))

  abbrev since : Option ℕ → ℕ → F
  since none now = f.ratio 1 1
  since (some prev) now = as_secs (now - prev)

  unfoldable pub elapsed_secs : Option ℕ → ℕ → F
  elapsed_secs prev now = f.maximum (since prev now) (f.ratio 1 1000)

  -- `now` is the monotonic clock in nanoseconds.
  unfoldable pub collect : Kernel → ℕ → Option ℕ → Text → SystemCollector → Collecting (NodeStats F)
  collect k now clock node_id c0 =
      let elapsed = elapsed_secs c0.prev_time now in
      after (read_cpu f k c0) (λ c1 cpu. reading c1 (read_meminfo k) (λ mem.
        reading c1 (read_loadavg f k) (λ loads. after (read_net_dev f k elapsed c1) (λ c2 net.
          after (read_diskstats f k elapsed c2) (λ c3 disk.
            reading c3 (read_connections k) (λ conns. reading c3 (read_uptime f k) (λ uptime. (
              record c3 { prev_time = some now },
              ok (record {
                node_id = node_id;
                timestamp_ms = timestamp clock;
                cpu_percent = cpu.0;
                cpu_per_core = cpu.1;
                load_avg_1 = loads.0;
                load_avg_5 = loads.1;
                load_avg_15 = loads.2;
                mem_total = mem.figures.mem_total;
                mem_used = mem.mem_used;
                mem_free = mem.figures.mem_free;
                mem_available = mem.figures.mem_available;
                mem_buffers = mem.figures.buffers;
                mem_cached = mem.figures.cached;
                swap_total = mem.figures.swap_total;
                swap_used = mem.swap_used;
                disk_read_bytes_sec = disk.0;
                disk_write_bytes_sec = disk.1;
                net_interfaces = net;
                tcp_connections = conns.0;
                udp_connections = conns.1;
                uptime_seconds = uptime;
                temperatures = read_temperatures k;
              }),
            ))))))))
