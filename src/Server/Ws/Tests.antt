-- ===== src/Server/Ws/Tests.antt =====
-- A client with a filter, and one update for each of two nodes.
use hakuraku.Prelude.{
  text_eq, ℕ, ◌≡◌, refl, true, List, [], ◌∷◌, Option, none, some, map, Text, codes, keep_if, pos,
}
use hakuraku.Server.State.{AppState, NodeInfo, online}
use hakuraku.Server.Toys.{Items}
use hakuraku.Server.Ws.{WsMessage, init, update, Event, received, lagged, handle_socket}
use hakuraku.Server.Ws.Filter.{frames, updates, handle_socket-frames}

abbrev print : WsMessage ℕ → Option Text
print (init nodes) = some (codes "init")
print (update u) = some u.node_id

abbrev info : Text → NodeInfo ℕ
info id = record {
  node_id = id;
  hostname = id;
  last_seen_ms = pos 1;
  status = online;
  latest_stats = none;
}

abbrev app : AppState ℕ Items
app = record {
  sent = [];
  nodes = (codes "a", info (codes "a")) ∷ (codes "b", info (codes "b")) ∷ [];
  worker_txs = [];
  metrics = record { auth_failures = []; grpc_messages = []; ingestion_drops = 0; db_errors = [] };
}

abbrev about : Text → Event ℕ
about id = received (record { node_id = id; timestamp_ms = pos 2; stats = 3 }) true

abbrev events : List (Event ℕ)
events = about (codes "b") ∷ lagged 2 ∷ about (codes "a") ∷ []

handle_socket-frames_example :
    (handle_socket print none app true events
      ≡ frames print (init (map (λ e. e.1) app.nodes) ∷ map update (updates print events)))
    × ((node_id : Text)
        → handle_socket print (some node_id) app true events
          ≡ frames print (
              init (map (λ e. e.1) (keep_if (λ e. text_eq node_id e.0) app.nodes))
              ∷ map update (keep_if (λ u. text_eq node_id u.node_id) (updates print events))))
handle_socket-frames_example = handle_socket-frames print app events (refl, (tt, (refl, tt)))
