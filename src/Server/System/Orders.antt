-- ===== src/Server/System/Orders.antt =====
-- Streams of many nodes at once. Each node's messages come in the order of its stream, those of
-- different nodes in any order.
use hakuraku.Prelude.{
  ℕ, ◌<◌, ◌≡◌, refl, sym, subst, ap, ◌∙◌, ◌≢◌, inl, inr, List, [], ◌∷◌, Option, Text, text_eq,
  text_eq_iff, Bool-cases, lookup, length, if◌then◌else◌, arith,
}
use mathlib.Core.Quot
use hakuraku.Core.Proto.{TelemetryMessage}
use hakuraku.Server.State.{Channel, IsChannel, Json, NodeInfo, AppState, IngestionItem}
use hakuraku.Server.Grpc.{StatsSerializable}
use hakuraku.Server.System.Interleaving.{differs, registry, effect, Serves, Serves-effect}

-- Who signed the stream, and what it brought; `none` is a message that does not decode.
abbrev pub Trace : Type 0 → Type 0
Trace F = List (Text × Option (TelemetryMessage F))

-- The messages of one node's streams.
abbrev pub messages_of : {F : Type 0} → Text → Trace F → List (Option (TelemetryMessage F))
messages_of j [] = []
messages_of j ((me, msg) ∷ tr) =
    let rest = messages_of j tr in if text_eq me j then msg ∷ rest else rest

-- One node's messages, one after another, on its entry.
abbrev pub effects :
    {F J : Type 0}
    → (StatsSerializable F → Option J)
    → Text
    → List (Option (TelemetryMessage F))
    → Option (NodeInfo J)
    → Option (NodeInfo J)
effects to_value j [] o = o
effects to_value j (msg ∷ msgs) o = effects to_value j msgs (effect to_value j msg o)

swapped :
    {F : Type 0} (me you : Text) (msg msg' : Option (TelemetryMessage F))
    → me ≢ you
    → (j : Text)
    → messages_of j ((me, msg) ∷ (you, msg') ∷ []) ≡ messages_of j ((you, msg') ∷ (me, msg) ∷ [])
swapped me you msg msg' ne j = ground (arith, text_eq_iff me j, text_eq_iff you j)

module _ {F J Q : Type 0} {capacity : ℕ} (json : Json J) (to_value : StatsSerializable F → Option J)
    (ch : Channel Q (IngestionItem J)) (doc : IsChannel capacity ch) (hash : Text → ℕ) where
  -- The tasks of streams serve the messages of a trace in its order.
  pub data Serving : AppState J Q → Trace F → AppState J Q → Type 0 where
    done : {a : AppState J Q} → Serving a [] a
    moves :
        {a b c : AppState J Q} {me : Text} {msg : Option (TelemetryMessage F)} {tr : Trace F}
        → Serves json to_value ch doc hash me msg a b
        → Serving b tr c
        → Serving a ((me, msg) ∷ tr) c

  pub Serving-entry :
      (j : Text) {a b : AppState J Q} {tr : Trace F}
      → 0 < length a.worker_txs
      → Serving a tr b
      → lookup j b.nodes ≡ effects to_value j (messages_of j tr) (lookup j a.nodes)
  Serving-entry j h done = refl
  Serving-entry j {a} h (moves {b} {me} {msg} {tr} step rest) =
      let (mine, own) = Serves-effect json to_value ch doc hash me msg a b h step in
      let later = Serving-entry j (rw own.workers h) rest in
      elim (Bool-cases (text_eq me j)) [
        | inl same ↦
            let here : lookup j b.nodes ≡ effect to_value j msg (lookup j a.nodes) =
              subst (λ k. lookup k b.nodes ≡ effect to_value k msg (lookup k a.nodes))
                ((text_eq_iff me j).0 same) mine in
            rw same (later ∙ ap (effects to_value j (messages_of j tr)) here)
        | inr other ↦
            rw other (
              later
              ∙ ap (effects to_value j (messages_of j tr)) (own.others j (differs me j other)))
      ]

  -- However the tasks of streams take turns, with a worker there: each node's entry is what its own
  -- messages, in the order of its stream, make of the entry it had. So two runs from the same state
  -- in which each node sends the same messages in the same order leave the same registry,
  -- whatever the order between nodes.
  pub any_order :
      (a b c : AppState J Q) (tr tr' : Trace F)
      → 0 < length a.worker_txs
      → ((j : Text) → messages_of j tr ≡ messages_of j tr')
      → Serving a tr b
      → Serving a tr' c
      → ((j : Text) → lookup j b.nodes ≡ effects to_value j (messages_of j tr) (lookup j a.nodes))
        × (registry b ≡ registry c)
  any_order a b c tr tr' h same run run' = (
    λ j. Serving-entry j h run,
    Quot.sound (λ j.
        Serving-entry j h run
        ∙ (ap (λ ms. effects to_value j ms (lookup j a.nodes)) (same j)
            ∙ sym (Serving-entry j h run'))),
  )

  -- Of the tasks of two streams signed by different nodes, each serving one message, with a worker
  -- there: whichever moves first, the registry is the same in the end.
  pub either_order :
      (me you : Text) (msg msg' : Option (TelemetryMessage F)) (a b c d e : AppState J Q)
      → me ≢ you
      → 0 < length a.worker_txs
      → Serves json to_value ch doc hash me msg a b
      → Serves json to_value ch doc hash you msg' b c
      → Serves json to_value ch doc hash you msg' a d
      → Serves json to_value ch doc hash me msg d e
      → registry c ≡ registry e
  either_order me you msg msg' a b c d e ne h ab bc ad de =
      (any_order a c e ((me, msg) ∷ (you, msg') ∷ []) ((you, msg') ∷ (me, msg) ∷ []) h
        (swapped me you msg msg' ne) (moves ab (moves bc done)) (moves ad (moves de done))).1
