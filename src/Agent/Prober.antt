-- ===== src/Agent/Prober.antt =====
-- pulse-agent/src/prober.rs: the TCP prober, over the resolver, the sockets with their timer and the
-- tasks of the runtime.
pub mod Outcomes
mod Tests
use hakuraku.Prelude.{
  ℕ, ◌%◌, Bool, true, false, List, [], ◌∷◌, ◌++◌, Option, none, some, Text, codes, print_u64,
  Result, ok, err, ◌>>=◌, map_err, ok_or, get_elem?,
}
use hakuraku.Core.Error.{ProbeError, timeout, connection_refused, dns_failure, io, display_probe}
use hakuraku.Core.Proto.{ProbeResult}

-- An attempt to connect, within a number of milliseconds: the time it took in microseconds, or why
-- there is no connection.
pub data Attempt : Type 0 where
  connected : ℕ → Attempt
  timed_out : Attempt
  refused : Attempt
  failed : Text → Attempt

pub record Network (A : Type 0) : Type 0 where
  pub to_socket_addrs : Text → Result Text (List A)
  pub connect : A → ℕ → Attempt

abbrev pub Target : Type 0
Target = Text × ℕ × ℕ

abbrev pub target_text : Text → ℕ → Text
target_text host port = host ++ (b':' ∷ print_u64 port)

unfoldable pub outcome : Text → ℕ → Attempt → Result ProbeError ℕ
outcome target timeout_ms (connected micros) = ok (micros % 18446744073709551616)
outcome target timeout_ms timed_out = err (timeout target timeout_ms)
outcome target timeout_ms refused = err (connection_refused target)
outcome target timeout_ms (failed e) = err (io e)

unfoldable pub result_of : Text → Result ProbeError ℕ → ProbeResult
result_of target (ok latency_us) = record {
  target = target;
  success = true;
  latency_us = latency_us;
  error_message = [];
}
result_of target (err e) = record {
  target = target;
  success = false;
  latency_us = 0;
  error_message = display_probe e;
}

module _ {A : Type 0} (net : Network A) where
  unfoldable pub tcp_probe_inner : Text → ℕ → Result ProbeError ℕ
  tcp_probe_inner target timeout_ms = do
    addrs ← map_err (dns_failure target) (net.to_socket_addrs target)
    addr ← ok_or (dns_failure target (codes "no addresses resolved")) (get_elem? addrs 0)
    outcome target timeout_ms (net.connect addr timeout_ms)

  unfoldable pub tcp_probe : Text → ℕ → ℕ → ProbeResult
  tcp_probe host port timeout_ms =
      result_of (target_text host port) (tcp_probe_inner (target_text host port) timeout_ms)

  abbrev panicked : Text → ProbeResult
  panicked e = record {
    target = codes "unknown";
    success = false;
    latency_us = 0;
    error_message = codes "task panicked: " ++ e;
  }

  abbrev awaited : Target → Option Text → ProbeResult
  awaited (host, port, timeout_ms) none = tcp_probe host port timeout_ms
  awaited t (some e) = panicked e

  -- One task for each target, with the error of the task if it does not finish. They are awaited in
  -- the order of the targets.
  unfoldable pub probe_tcp_targets : List (Target × Option Text) → List ProbeResult
  probe_tcp_targets [] = []
  probe_tcp_targets ((t, e) ∷ ts) = awaited t e ∷ probe_tcp_targets ts
