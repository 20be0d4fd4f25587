-- ===== src/Agent/Config/Tests.antt =====
-- An environment with a secret and an interval.
use hakuraku.Prelude.{
  Env, unwrap_or, ◌≡◌, ◌≢◌, ◌↔◌, refl, [], ◌∷◌, some, none, codes, text_eq, parse_u64, print_u64,
  ok, if◌then◌else◌, arith,
}
use hakuraku.Server.Api.{bytes}
use hakuraku.Agent.Config.{Config, from_env, health_check, from_env-starts, from_env-print_u64}

abbrev env : Env
env name =
    if text_eq name (codes "PULSE_AUTH_SECRET")
    then some (codes "key")
    else if text_eq name (codes "PULSE_INTERVAL_MS")
    then some (print_u64 250)
    else none

secret_is_set : env (codes "PULSE_AUTH_SECRET") ≡ some (codes "key")
unfolding text_eq
secret_is_set = refl

interval_is_set : env (codes "PULSE_INTERVAL_MS") ≡ some (print_u64 250)
unfolding text_eq
interval_is_set = refl

interval_is_taken :
    from_env env
    ≡ ok (record {
      server_addr = unwrap_or (codes "http://127.0.0.1:50051") (env (codes "PULSE_SERVER_ADDR"));
      auth_secret = bytes (codes "key");
      node_id = unwrap_or (codes "unknown") (env (codes "PULSE_NODE_ID"));
      interval = 250;
    })
interval_is_taken =
    from_env-print_u64 env (codes "key") 250 secret_is_set interval_is_set (omega arith)

starts_with_secret : ((c : Config) × (from_env env ≡ ok c)) ↔ (
    (env (codes "PULSE_AUTH_SECRET") ≢ none)
    × (parse_u64 (unwrap_or (codes "1000") (env (codes "PULSE_INTERVAL_MS"))) ≢ none))
starts_with_secret = from_env-starts env

unhealthy : health_check env (λ p. none) (codes "agent" ∷ codes "--health-check" ∷ []) ≡ some 1
unfolding health_check text_eq
unhealthy = refl
