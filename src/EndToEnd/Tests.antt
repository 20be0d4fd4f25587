-- ===== src/EndToEnd/Tests.antt =====
-- A heartbeat and the result of a probe on their way.
use hakuraku.Prelude.{
  ℕ, refl, true, print_u64, List, [], ◌∷◌, Option, none, some, Text, codes, pos, arith, ok, ◌≡◌,
  inl, inr, lookup, text_eq, ◌++◌, trim, is_whitespace,
}
use hakuraku.Core.Proto.{heartbeat, probe_result, TelemetryMessage}
use hakuraku.Core.Toys.{whole}
use hakuraku.Agent.Prober.{
  Network, connected, tcp_probe_inner, tcp_probe, outcome, result_of, probe_tcp_targets,
}
use hakuraku.Agent.Commands.{heartbeat_loop, probe_messages, probe_target}
use hakuraku.Server.Toys.{Items, pair, pair-IsChannel, numbers, snapshot}
use hakuraku.Server.Grpc.{info_of, Task, now_ms, stream}
use hakuraku.Server.Grpc.Own.{Leaves}
use hakuraku.Server.System.{new_state}
use hakuraku.Server.System.Toys.{
  empty, to_number, begun, b, reports, after_all, trace, trace_served,
}
use hakuraku.Server.System.Orders.{messages_of}
use hakuraku.Server.System.{start}
use hakuraku.Server.Worker.{load_nodes}
use hakuraku.Server.Db.{get_all_nodes}
use hakuraku.Server.Api.{Unicode, is_valid_node_id}
use hakuraku.Server.Api.Handlers.{node_body, reply, node_route}
use hakuraku.Server.Router.{Axum, Request, Context, node, replies, respond, routes}
use hakuraku.Server.Router.Guarded.{Offers}
use hakuraku.EndToEnd.Reading.{reads_latest}
use hakuraku.EndToEnd.{Made, beaten, probed, Counts, arriving, stream-Counts}

abbrev net : Network ℕ
net = record { to_socket_addrs = λ t. ok (1 ∷ []); connect = λ a ms. connected 7 }

abbrev me : Text
me = codes "a"

abbrev beat : TelemetryMessage ℕ
beat = some (heartbeat (record { node_id = codes "a"; timestamp_ms = pos 1 }))

abbrev answer : TelemetryMessage ℕ
answer = some (
    probe_result
      (record { target = codes "h:80"; success = true; latency_us = 7; error_message = [] }))

beat-Made : Made whole net me beat
unfolding heartbeat_loop now_ms
beat-Made = beaten ((some 1, true) ∷ []) 0 beat refl

answer-Made : Made whole net me answer
unfolding probe_messages probe_tcp_targets tcp_probe tcp_probe_inner outcome result_of probe_target
    print_u64
answer-Made = probed (record { host = codes "h"; port = 80; timeout_ms = 5 }) none 0 answer refl

abbrev task : Task ℕ Items
task = record { app = new_state []; acks = [] }

abbrev arrived : List (TelemetryMessage ℕ × Option ℕ)
arrived = (beat, some 2) ∷ (answer, some 3) ∷ []

stream-Counts_example :
    Leaves
      (Counts numbers to_number pair pair-IsChannel (λ n. 0) me 2 task)
      (stream numbers to_number pair (λ n. 0) me task (arriving arrived))
stream-Counts_example =
    stream-Counts numbers to_number pair pair-IsChannel (λ n. 0) me whole net task arrived
      (omega arith) (beat-Made, (answer-Made, tt))

-- A router that finds the route of a node whatever the path, and takes the node for the second.
abbrev one_route : Axum
one_route = record {
  find = λ rs path. lookup (codes "/api/v1/nodes/{id}") rs;
  is_get = λ method. true;
  path_id = λ path. ok b;
  history_query = λ q. ok (none, none);
  ws_query = λ q. ok none;
  upgrade = λ req. ok tt;
}

abbrev context : Context
context = record {
  secret = some (codes "key");
  version = codes "1";
  clock = some 7;
  answers = true;
  encoded = ok [];
}

abbrev asking : Request
asking = record {
  method = codes "GET";
  path = codes "/api/v1/nodes/b";
  parts = record { authorization = none; auth_token = some (codes "key"); query = none };
}

abbrev ascii : Unicode
ascii = record { is_alphanumeric = λ c. true; to_lowercase = λ s. s }

key_offered : Offers (codes "key") asking.parts
unfolding trim is_whitespace
key_offered = inr (inl refl)

finds_node : one_route.find routes asking.path ≡ some node
unfolding lookup text_eq
finds_node = refl

b_is_valid : is_valid_node_id ascii b ≡ true
unfolding is_valid_node_id text_eq
b_is_valid = refl

last_of_b : messages_of b trace ≡ [] ++ reports b ∷ []
unfolding text_eq
last_of_b = refl

reads_latest_example : respond one_route ascii context asking (after_all trace begun.app) empty ≡ (
  after_all trace begun.app,
  empty,
  replies (reply node_route (ok (node_body (info_of b (pos 1000) 42)))),
)
unfolding start load_nodes get_all_nodes
reads_latest_example =
    reads_latest one_route ascii context numbers to_number pair pair-IsChannel (λ n. 0) begun.app
      (after_all trace begun.app) trace [] (snapshot b) 42 asking empty (codes "key") b
      (omega arith) trace_served last_of_b refl refl refl key_offered finds_node refl refl
      b_is_valid
