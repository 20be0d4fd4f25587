-- ===== src/Server/Ws.antt =====
-- pulse-server/src/ws.rs: what a WebSocket client is sent. The text of a message by serde_json is the
-- parameter `print`; what the client sends has no effect. The gauge of the connections is left out.
pub mod Filter
mod Tests
use hakuraku.Prelude.{
  ℕ, Bool, true, List, [], ◌∷◌, Option, none, some, map, Text, text_eq, keep_if, ℤ, if◌then◌else◌,
}
use hakuraku.Server.State.{AppState, NodeInfo, NodeUpdate}

-- The fields of a NodeSnapshot are those of the entry, and those of an Update those of the broadcast.
pub data WsMessage (J : Type 0) : Type 0 where
  init : List (NodeInfo J) → WsMessage J
  update : NodeUpdate J → WsMessage J

-- What the subscription gives: an update, with whether the client takes the frame, or a number of
-- updates that were skipped for a slow client. The list ends where the channel is closed.
pub data Event (J : Type 0) : Type 0 where
  received : NodeUpdate J → Bool → Event J
  lagged : ℕ → Event J

abbrev pub wants : Option Text → Text → Bool
wants none node_id = true
wants (some f) node_id = text_eq f node_id

abbrev pub init_nodes : {J : Type 0} → Option Text → List (Text × NodeInfo J) → List (NodeInfo J)
init_nodes filter nodes = map (λ e. e.1) (keep_if (λ e. wants filter e.0) nodes)

module _ {J : Type 0} (print : WsMessage J → Option Text) where
  -- The frame, and the rest unless the client is gone. A message without text is skipped.
  abbrev pub sends : Option Text → Bool → List Text → List Text
  sends none takes rest = rest
  sends (some frame) takes rest = if takes then frame ∷ rest else []

  unfoldable pub forward : Option Text → List (Event J) → List Text
  forward filter [] = []
  forward filter (lagged n ∷ events) = forward filter events
  forward filter (received u takes ∷ events) =
      let rest = forward filter events in
      if wants filter u.node_id then sends (print (update u)) takes rest else rest

  -- All frames that the client takes, after the first with what the registry holds.
  unfoldable pub handle_socket :
      {Q : Type 0} → Option Text → AppState J Q → Bool → List (Event J) → List Text
  handle_socket filter st takes events =
      sends (print (init (init_nodes filter st.nodes))) takes (forward filter events)
