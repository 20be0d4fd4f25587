-- ===== src/Server/Ws/Filter.antt =====
-- A client sees the nodes of its filter, and every update that reached the subscription in time.
use hakuraku.Prelude.{
  text_eq, ◌≡◌, refl, ◌∙◌, ap, true, List, [], ◌∷◌, Option, none, some, map, Text, keep_if, All,
  Bool-cases, inl, inr,
}
use hakuraku.Server.State.{AppState, NodeUpdate}
use hakuraku.Server.Ws.{
  WsMessage, init, update, Event, received, lagged, wants, sends, forward, init_nodes,
  handle_socket,
}

module _ {J : Type 0} (print : WsMessage J → Option Text) where
  abbrev pub followed : Option Text → List Text → List Text
  followed none rest = rest
  followed (some frame) rest = frame ∷ rest

  abbrev pub frames : List (WsMessage J) → List Text
  frames [] = []
  frames (m ∷ ms) = followed (print m) (frames ms)

  sends_lem : (o : Option Text) (rest : List Text) → sends print o true rest ≡ followed o rest
  sends_lem none rest = refl
  sends_lem (some frame) rest = refl

  abbrev pub updates : List (Event J) → List (NodeUpdate J)
  updates [] = []
  updates (lagged n ∷ events) = updates events
  updates (received u takes ∷ events) = u ∷ updates events

  -- The client takes every frame.
  abbrev pub IsTaking : Event J → Type 0
  IsTaking (lagged n) = Unit
  IsTaking (received u takes) = takes ≡ true

  forward-frames :
      (filter : Option Text) (events : List (Event J))
      → All IsTaking events
      → forward print filter events
        ≡ frames (map update (keep_if (λ u. wants filter u.node_id) (updates events)))
  unfolding forward
  forward-frames filter [] h = refl
  forward-frames filter (lagged n ∷ events) h = forward-frames filter events h.1
  forward-frames filter (received u takes ∷ events) h = elim (Bool-cases (wants filter u.node_id)) [
    | inl wanted ↦
        rw (wanted, h.0, forward-frames filter events h.1)
          (sends_lem (print (update u))
            (frames (map update (keep_if (λ x. wants filter x.node_id) (updates events)))))
    | inr other ↦ rw (other, forward-frames filter events h.1) refl
  ]

  keep_all : {A : Type 0} (xs : List A) → keep_if (λ _. true) xs ≡ xs
  keep_all [] = refl
  keep_all (x ∷ xs) = ap (λ ys. x ∷ ys) (keep_all xs)

  handle_socket_all :
      {Q : Type 0} (filter : Option Text) (st : AppState J Q) (events : List (Event J))
      → All IsTaking events
      → handle_socket print filter st true events
        ≡ frames (
            init (init_nodes filter st.nodes)
            ∷ map update (keep_if (λ u. wants filter u.node_id) (updates events)))
  unfolding handle_socket
  handle_socket_all filter st events h =
      ap (sends print (print (init (init_nodes filter st.nodes))) true)
        (forward-frames filter events h)
      ∙ sends_lem (print (init (init_nodes filter st.nodes)))
          (frames (map update (keep_if (λ u. wants filter u.node_id) (updates events))))

  -- A client that takes every frame gets, in this order, one with entries of the registry and one for
  -- each update that reached its subscription, messages that have no text left out: without a filter
  -- all entries and all updates, and with a filter the entries and the updates of the node that it
  -- names.
  pub handle_socket-frames :
      {Q : Type 0} (st : AppState J Q) (events : List (Event J))
      → All IsTaking events
      → (handle_socket print none st true events
          ≡ frames (init (map (λ e. e.1) st.nodes) ∷ map update (updates events)))
        × ((node_id : Text)
            → handle_socket print (some node_id) st true events
              ≡ frames (
                  init (map (λ e. e.1) (keep_if (λ e. text_eq node_id e.0) st.nodes))
                  ∷ map update (keep_if (λ u. text_eq node_id u.node_id) (updates events))))
  handle_socket-frames st events h = (
    handle_socket_all none st events h
        ∙ (ap
              (λ ns.
                frames
                  (init (map (λ e. e.1) ns) ∷ map update (keep_if (λ _. true) (updates events))))
              (keep_all st.nodes)
            ∙ ap (λ us. frames (init (map (λ e. e.1) st.nodes) ∷ map update us))
                (keep_all (updates events))),
    λ node_id. handle_socket_all (some node_id) st events h,
  )
