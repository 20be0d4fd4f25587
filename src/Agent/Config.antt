-- ===== src/Agent/Config.antt =====
-- pulse-agent/src/main.rs: the configuration from the environment and the check of the container's
-- health. A variable that is missing and one that is not Unicode are the same to the code.
mod Tests
use hakuraku.Prelude.{
  Env, unwrap_or, ℕ, ◌≡◌, ◌≢◌, ◌<◌, refl, ap, ◌∙◌, Bool, true, false, List, [], ◌∷◌, ◌++◌, Option,
  none, some, Text, codes, text_eq, parse_u64, print_u64, parse_u64-print_u64, Result, ok, err,
  ◌>>=◌, ok_or, arith, Option-cases, inl, inr, ◌⊎◌, ◌↔◌, if◌then◌else◌,
}
use hakuraku.Core.Auth.{Bytes}
use hakuraku.Server.Api.{bytes}

pub record Config : Type 0 where
  pub server_addr : Text
  pub auth_secret : Bytes
  pub node_id : Text
  pub interval : ℕ

-- An error is its context. The interval is in milliseconds.
unfoldable pub from_env : Env → Result Text Config
from_env env = do
  secret ← ok_or (codes "PULSE_AUTH_SECRET must be set") (env (codes "PULSE_AUTH_SECRET"))
  interval_ms ←
      ok_or (codes "PULSE_INTERVAL_MS must be a valid u64")
        (parse_u64 (unwrap_or (codes "1000") (env (codes "PULSE_INTERVAL_MS"))))
  ok (record {
    server_addr = unwrap_or (codes "http://127.0.0.1:50051") (env (codes "PULSE_SERVER_ADDR"));
    auth_secret = bytes secret;
    node_id = unwrap_or (codes "unknown") (env (codes "PULSE_NODE_ID"));
    interval = interval_ms;
  })

-- The exit code of a run with the arguments, or none for a run that goes on. `is_file` is what the
-- metadata of a path says, if there is any.
abbrev any_is : Text → List Text → Bool
any_is t [] = false
any_is t (arg ∷ args) = if text_eq arg t then true else any_is t args

abbrev exit_code : Option Bool → ℕ
exit_code (some true) = 0
exit_code (some false) = 1
exit_code none = 1

unfoldable pub health_check : Env → (Text → Option Bool) → List Text → Option ℕ
health_check env is_file args =
    if any_is (codes "--health-check") args
    then some
        (exit_code (is_file (unwrap_or (codes "/proc") (env (codes "PROC_PATH")) ++ codes "/stat")))
    else none

module _ (env : Env) where
  -- The agent starts exactly if the secret is set and the interval, one second if it is not set, is
  -- a number below 2^64; a missing secret is reported first.
  pub from_env-starts : ((c : Config) × (from_env env ≡ ok c)) ↔ (
      (env (codes "PULSE_AUTH_SECRET") ≢ none)
      × (parse_u64 (unwrap_or (codes "1000") (env (codes "PULSE_INTERVAL_MS"))) ≢ none))
  unfolding from_env
  from_env-starts = elim (Option-cases (env (codes "PULSE_AUTH_SECRET"))) [
    | inl missing ↦ rw missing (λ p. cc, λ p. absurd (p.0 refl))
    | inr (secret, e) ↦
        elim (Option-cases
          (parse_u64 (unwrap_or (codes "1000") (env (codes "PULSE_INTERVAL_MS"))))) [
            | inl bad ↦ rw (e, bad) (λ p. cc, λ p. absurd (p.1 refl))
            | inr (n, good) ↦ rw (e, good) (λ p. (λ h. cc, λ h. cc), λ p. (_, refl))
          ]
  ]

  -- An interval below 2^64 that is set in decimal digits is the one that the agent takes.
  pub from_env-print_u64 :
      (secret : Text) (n : ℕ)
      → env (codes "PULSE_AUTH_SECRET") ≡ some secret
      → env (codes "PULSE_INTERVAL_MS") ≡ some (print_u64 n)
      → n < 18446744073709551616
      → from_env env
        ≡ ok (record {
          server_addr =
              unwrap_or (codes "http://127.0.0.1:50051") (env (codes "PULSE_SERVER_ADDR"));
          auth_secret = bytes secret;
          node_id = unwrap_or (codes "unknown") (env (codes "PULSE_NODE_ID"));
          interval = n;
        })
  unfolding from_env
  from_env-print_u64 secret n e g h = rw (e, g, parse_u64-print_u64 n h) refl
