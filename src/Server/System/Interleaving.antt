-- ===== src/Server/System/Interleaving.antt =====
-- What a message of a stream does to the entry of its node. The registry is a concurrent map, whose
-- order is nobody's business: its view is what it answers for each node.
use hakuraku.Prelude.{
  ℕ, ◌<◌, ◌≡◌, refl, sym, ◌≢◌, ◌⊎◌, inl, inr, Bool, true, false, List, Option, none, some, Text,
  text_eq, text_eq_iff, Bool-cases, lookup, lookup-insert_self, as_i64, length, arith,
  if◌then◌else◌, ℤ, codes,
}
use mathlib.Core.Quot.{Quot}
use hakuraku.Core.Proto.{Heartbeat, stats, heartbeat, probe_result, TelemetryMessage}
use hakuraku.Server.State.{
  Channel, IsChannel, Json, NodeInfo, AppState, IngestionItem, stats_item, probe_item,
}
use hakuraku.Server.State.Shards.{send_to_worker_counted}
use hakuraku.Server.Grpc.{
  StatsSerializable, serializable, Task, goes_on, ends, info_of, count, refresh, register,
  acknowledge, now_ms, handle_heartbeat, handle_probe, handle_stats, store_stats, serve_message,
}
use hakuraku.Server.Grpc.Own.{Leaves, IsOwn}
use hakuraku.Server.Grpc.Stream.{serve_message-IsOwn}
use hakuraku.Server.Grpc.Effects.{beaten, lookup-touch}
use hakuraku.Server.System.Invariant.{left}

pub differs : (a b : Text) → text_eq a b ≡ false → a ≢ b
differs a b h same = ground (arith, (text_eq_iff a b).1 same)

abbrev SameEntries : {J : Type 0} → List (Text × NodeInfo J) → List (Text × NodeInfo J) → Type 0
SameEntries a b = (j : Text) → lookup j a ≡ lookup j b

abbrev pub Registry : Type 0 → Type 0
Registry J = Quot (SameEntries {J = J})

abbrev pub registry : {J Q : Type 0} → AppState J Q → Registry J
registry st = Quot.mk st.nodes

-- What a message does to the entry of the node that signed its stream.
abbrev reported : {J : Type 0} → Text → ℤ → Option J → Option (NodeInfo J) → Option (NodeInfo J)
reported me timestamp_ms none o = o
reported me timestamp_ms (some value) o = some (info_of me timestamp_ms value)

abbrev pub effect :
    {F J : Type 0}
    → (StatsSerializable F → Option J)
    → Text
    → Option (TelemetryMessage F)
    → Option (NodeInfo J)
    → Option (NodeInfo J)
effect to_value me none o = o
effect to_value me (some none) o = o
effect to_value me (some (some (stats s))) o =
    if text_eq s.node_id me then reported me s.timestamp_ms (to_value (serializable s)) o else o
effect to_value me (some (some (heartbeat hb))) o = if text_eq hb.node_id me then beaten hb o else o
effect to_value me (some (some (probe_result p))) o = o

module _ {F J Q : Type 0} {capacity : ℕ} (json : Json J) (to_value : StatsSerializable F → Option J)
    (ch : Channel Q (IngestionItem J)) (doc : IsChannel capacity ch) (hash : Text → ℕ) where
  -- The shared state before and after the task of a stream signed by `me` serves a message.
  pub record Serves (me : Text) (msg : Option (TelemetryMessage F)) (a b : AppState J Q)
      : Type 0 where
    pub from : Task J Q
    pub to : Task J Q
    pub clock : Option ℕ
    pub reads : Bool
    pub before : from.app ≡ a
    pub after : to.app ≡ b
    pub served :
        (serve_message json to_value ch hash me from msg clock reads ≡ goes_on to)
        ⊎ (serve_message json to_value ch hash me from msg clock reads ≡ ends to)

  store_stats-effect :
      (me : Text) (t : Task J Q) (timestamp_ms : ℤ) (o : Option J)
      → 0 < length t.app.worker_txs
      → Leaves
          (λ v. lookup me v.app.nodes ≡ reported me timestamp_ms o (lookup me t.app.nodes))
          (store_stats ch hash me json t timestamp_ms o)
  unfolding store_stats
  store_stats-effect me t timestamp_ms none h = refl
  store_stats-effect me t timestamp_ms (some value) h =
      let n = info_of me timestamp_ms value in
      let (st', e, _, _, nodes, _) =
        send_to_worker_counted ch doc hash (register me n t).app me
          (stats_item me timestamp_ms (json.to_string value) value) h in
      rw (e, nodes) (lookup-insert_self me n t.app.nodes)

  handle_heartbeat-effect :
      (me : Text) (t : Task J Q) (hb : Heartbeat) (clock : Option ℕ) (reads : Bool)
      → Leaves
          (λ v.
            lookup me v.app.nodes
            ≡ effect to_value me (some (some (heartbeat hb))) (lookup me t.app.nodes))
          (handle_heartbeat me t hb clock reads)
  unfolding handle_heartbeat
  handle_heartbeat-effect me t hb clock reads = elim (Bool-cases (text_eq hb.node_id me)) [
    | inr other ↦ rw other refl
    | inl own ↦
        rw own
          (elim reads
            as (λ b.
              Leaves (λ v. lookup me v.app.nodes ≡ beaten hb (lookup me t.app.nodes))
                (acknowledge b (now_ms clock) (refresh me hb (count me (codes "heartbeat") t)))) [
                  | true ↦ lookup-touch me hb (lookup me t.app.nodes) t.app.nodes refl
                  | false ↦ lookup-touch me hb (lookup me t.app.nodes) t.app.nodes refl
                ])
  ]

  serve_message-effect :
      (me : Text) (t : Task J Q) (msg : Option (TelemetryMessage F)) (clock : Option ℕ)
      (reads : Bool)
      → 0 < length t.app.worker_txs
      → Leaves
          (λ v. lookup me v.app.nodes ≡ effect to_value me msg (lookup me t.app.nodes))
          (serve_message json to_value ch hash me t msg clock reads)
  unfolding serve_message handle_probe handle_stats
  serve_message-effect me t none clock reads h = refl
  serve_message-effect me t (some none) clock reads h = refl
  serve_message-effect me t (some (some (stats s))) clock reads h =
      elim (Bool-cases (text_eq s.node_id me)) [
        | inr other ↦ rw other refl
        | inl own ↦ rw own (
            store_stats-effect me (count me (codes "stats") t) s.timestamp_ms
              (to_value (serializable s)) h)
      ]
  serve_message-effect me t (some (some (heartbeat hb))) clock reads h =
      handle_heartbeat-effect me t hb clock reads
  serve_message-effect me t (some (some (probe_result p))) clock reads h =
      let (st', e, _, _, nodes, _) =
        send_to_worker_counted ch doc hash (count me (codes "probe_result") t).app me
          (probe_item me p.target p.success (as_i64 p.latency_us) p.error_message (now_ms clock))
          h in
      rw (e, nodes) refl

  pub Serves-effect :
      (me : Text) (msg : Option (TelemetryMessage F)) (a b : AppState J Q)
      → 0 < length a.worker_txs
      → Serves me msg a b
      → (lookup me b.nodes ≡ effect to_value me msg (lookup me a.nodes)) × IsOwn ch doc hash me a b
  Serves-effect me msg a b h step =
      let out = serve_message json to_value ch hash me step.from msg step.clock step.reads in
      let enough : 0 < length step.from.app.worker_txs = rw step.before h in
      rw (sym step.before, sym step.after)
        (
          left (λ v. lookup me v.app.nodes ≡ effect to_value me msg (lookup me step.from.app.nodes))
              out step.to (serve_message-effect me step.from msg step.clock step.reads enough)
              step.served,
          left (λ v. IsOwn ch doc hash me step.from.app v.app) out step.to
              (serve_message-IsOwn json to_value ch doc hash me step.from msg step.clock step.reads
                enough)
              step.served,
        )
