-- ===== src/Core/Error.antt =====
-- pulse-core/src/error.rs: the error types, with the texts that `Display` prints for those that
-- leave the process (in a gRPC status or in a probe result).
use hakuraku.Prelude.{ℕ, ℤ, Text, codes, ◌++◌, print_i64, print_u64}

pub data AuthError : Type 0 where
  missing_header : Text → AuthError
  invalid_signature : AuthError
  expired_timestamp : ℤ → ℤ → AuthError
  invalid_key : AuthError
  clock_error : AuthError

unfoldable pub display : AuthError → Text
display (missing_header key) = codes "missing required header: " ++ key
display invalid_signature = codes "invalid HMAC signature"
display (expired_timestamp drift limit) =
    codes "timestamp drift "
    ++ (print_i64 drift ++ (codes "s exceeds maximum " ++ (print_i64 limit ++ codes "s")))
display invalid_key = codes "invalid HMAC key"
display clock_error = codes "system clock error"

-- The text of an `io::Error` is the operating system's.
pub data CollectorError : Type 0 where
  proc_read : Text → Text → CollectorError
  parse : Text → Text → Text → CollectorError

pub data ProbeError : Type 0 where
  timeout : Text → ℕ → ProbeError
  connection_refused : Text → ProbeError
  dns_failure : Text → Text → ProbeError
  io : Text → ProbeError

unfoldable pub display_probe : ProbeError → Text
display_probe (timeout target timeout_ms) =
    codes "probe timed out after " ++ (print_u64 timeout_ms ++ (codes "ms to " ++ target))
display_probe (connection_refused target) = codes "connection refused to " ++ target
display_probe (dns_failure host detail) =
    codes "DNS resolution failed for " ++ (host ++ (codes ": " ++ detail))
display_probe (io e) = codes "probe I/O error: " ++ e
