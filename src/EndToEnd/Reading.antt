-- ===== src/EndToEnd/Reading.antt =====
-- What a client reads of a node over HTTP (pulse-server/src/api.rs) after its agent's stream
-- (pulse-server/src/grpc.rs) brought statistics.
use hakuraku.Prelude.{
  ℕ, ◌<◌, ◌≡◌, refl, ap, ◌∙◌, true, false, List, [], ◌∷◌, ◌++◌, Option, some, Text, text_eq_iff,
  lookup, length, ok,
}
use hakuraku.Core.Proto.{NodeStats, stats, TelemetryMessage}
use hakuraku.Server.State.{Channel, IsChannel, Json, NodeInfo, AppState, IngestionItem}
use hakuraku.Server.Grpc.{StatsSerializable, serializable, info_of}
use hakuraku.Server.Db.{Database}
use hakuraku.Server.Api.{Unicode, is_valid_node_id, from_request_parts}
use hakuraku.Server.Api.Token.{from_request_parts_iff}
use hakuraku.Server.Api.Handlers.{node_body, get_node, reply, node_route}
use hakuraku.Server.Router.{Axum, Request, Context, node, replies, respond, handle, routes}
use hakuraku.Server.Router.Guarded.{Offers}
use hakuraku.Server.System.Interleaving.{effect}
use hakuraku.Server.System.Orders.{Trace, messages_of, effects, Serving, Serving-entry}

effects-append :
    {F J : Type 0} (to_value : StatsSerializable F → Option J) (j : Text)
    (earlier : List (Option (TelemetryMessage F))) (last : Option (TelemetryMessage F))
    (o : Option (NodeInfo J))
    → effects to_value j (earlier ++ last ∷ []) o
      ≡ effect to_value j last (effects to_value j earlier o)
effects-append to_value j [] last o = refl
effects-append to_value j (m ∷ earlier) last o =
    effects-append to_value j earlier last (effect to_value j m o)

effect-stats :
    {F J : Type 0} (to_value : StatsSerializable F → Option J) (me : Text) (s : NodeStats F)
    (value : J) (o : Option (NodeInfo J))
    → s.node_id ≡ me
    → to_value (serializable s) ≡ some value
    → effect to_value me (some (some (stats s))) o ≡ some (info_of me s.timestamp_ms value)
effect-stats to_value me s value o own represented =
    rw ((text_eq_iff s.node_id me).1 own, represented) refl

module _ {J Q : Type 0} (ax : Axum) (u : Unicode) (c : Context) where
  -- The answer for a node of the registry.
  respond-node :
      (req : Request) (st : AppState J Q) (db : Database J) (secret me : Text) (n : NodeInfo J)
      → c.secret ≡ some secret
      → Offers secret req.parts
      → ax.find routes req.path ≡ some node
      → ax.is_get req.method ≡ true
      → ax.path_id req.path ≡ ok me
      → is_valid_node_id u me ≡ true
      → lookup me st.nodes ≡ some n
      → respond ax u c req st db ≡ (st, db, replies (reply node_route (ok (node_body n))))
  unfolding respond handle get_node
  respond-node req st db secret me n set offered found get named valid known =
      let let_in : from_request_parts c.secret req.parts ≡ (ok tt, false) =
        rw set ((from_request_parts_iff secret req.parts).0.1 offered) in
      rw (found, get, let_in, named, valid, known) refl

module _ {F J Q : Type 0} {capacity : ℕ} (ax : Axum) (u : Unicode) (c : Context) (json : Json J)
    (to_value : StatsSerializable F → Option J) (ch : Channel Q (IngestionItem J))
    (doc : IsChannel capacity ch) (hash : Text → ℕ) where
  -- When streams, with a worker there, have served messages in any order, and the last of a node's own
  -- was its statistics, which serde can represent: a GET with the secret, on the route of the node, is
  -- answered with the node online and with these statistics and their time; it changes nothing.
  pub reads_latest :
      (a b : AppState J Q) (tr : Trace F) (earlier : List (Option (TelemetryMessage F)))
      (s : NodeStats F) (value : J) (req : Request) (db : Database J) (secret me : Text)
      → 0 < length a.worker_txs
      → Serving json to_value ch doc hash a tr b
      → messages_of me tr ≡ earlier ++ some (some (stats s)) ∷ []
      → s.node_id ≡ me
      → to_value (serializable s) ≡ some value
      → c.secret ≡ some secret
      → Offers secret req.parts
      → ax.find routes req.path ≡ some node
      → ax.is_get req.method ≡ true
      → ax.path_id req.path ≡ ok me
      → is_valid_node_id u me ≡ true
      → respond ax u c req b db
        ≡ (b, db, replies (reply node_route (ok (node_body (info_of me s.timestamp_ms value)))))
  reads_latest a b tr earlier s value req db secret me h run last own represented set offered found
        get named valid =
      let entry = Serving-entry json to_value ch doc hash me h run in
      let before = effects to_value me earlier (lookup me a.nodes) in
      respond-node ax u c req b db secret me (info_of me s.timestamp_ms value) set offered found get
        named valid
        (entry
          ∙ (ap (λ ms. effects to_value me ms (lookup me a.nodes)) last
              ∙ (effects-append to_value me earlier (some (some (stats s))) (lookup me a.nodes)
                  ∙ effect-stats to_value me s value before own represented)))
