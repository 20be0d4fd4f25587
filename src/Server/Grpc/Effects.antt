-- ===== src/Server/Grpc/Effects.antt =====
-- What one genuine message does, and what a forged one stops.
use hakuraku.Prelude.{
  ℕ, ◌+◌, ◌<◌, ◌≡◌, refl, ◌≢◌, Bool, List, [], ◌∷◌, ◌++◌, Option, none, some, Text, codes,
  text_eq_iff, lookup, lookup-insert_self, length, arith, if◌then◌else◌,
}
use hakuraku.Core.Proto.{NodeStats, Heartbeat, stats, heartbeat, probe_result, TelemetryMessage}
use hakuraku.Server.State.{Channel, IsChannel, Json, NodeInfo, online, IngestionItem, stats_item}
use hakuraku.Server.State.Shards.{queued, drops, send_to_worker_counted}
use hakuraku.Server.Grpc.{
  StatsSerializable, serializable, Inbound, Task, Outcome, goes_on, ends, panics, store_stats,
  handle_stats, handle_heartbeat, serve_message, serve, stream, then_serve, register, reject,
  info_of, update_of, touch, count, refresh, now_ms,
}

-- A message that names another node than the one that signed the stream.
abbrev pub IsForged : {F : Type 0} → Text → Option (TelemetryMessage F) → Type 0
IsForged me (some (some (stats s))) = s.node_id ≢ me
IsForged me (some (some (heartbeat hb))) = hb.node_id ≢ me
IsForged me m = ⊥

abbrev pub beaten : {J : Type 0} → Heartbeat → Option (NodeInfo J) → Option (NodeInfo J)
beaten hb none = none
beaten hb (some n) = some (record n { last_seen_ms = hb.timestamp_ms; status = online })

pub lookup-touch :
    {J : Type 0} (me : Text) (hb : Heartbeat) (o : Option (NodeInfo J))
    (nodes : List (Text × NodeInfo J))
    → lookup me nodes ≡ o
    → lookup me (touch me hb o nodes) ≡ beaten hb o
lookup-touch me hb none nodes e = e
lookup-touch me hb (some n) nodes e = lookup-insert_self me _ nodes

module _ {F J Q : Type 0} {capacity : ℕ} (json : Json J) (to_value : StatsSerializable F → Option J)
    (ch : Channel Q (IngestionItem J)) (doc : IsChannel capacity ch) (hash : Text → ℕ)
    (me : Text) where
  -- A snapshot of the stream's own node that serde can represent becomes the node's registry entry,
  -- online and with the snapshot's time; it goes to the subscribers as the next broadcast; its item
  -- waits for a worker or is counted as dropped; and the stream goes on. This holds while there is a
  -- worker.
  pub serve_stats :
      (t : Task J Q) (s : NodeStats F) (value : J) (clock : Option ℕ) (reads : Bool)
      → s.node_id ≡ me
      → to_value (serializable s) ≡ some value
      → 0 < length t.app.worker_txs
      → (u : Task J Q) × (serve_message json to_value ch hash me t
            (some (some (stats s)))
            clock
            reads
          ≡ goes_on u)
        × (lookup me u.app.nodes ≡ some (info_of me s.timestamp_ms value))
        × (u.app.sent ≡ t.app.sent ++ update_of me s.timestamp_ms value ∷ [])
        × (queued ch doc u.app.worker_txs + drops u.app
            ≡ queued ch doc t.app.worker_txs + drops t.app + 1)
        × (u.acks ≡ t.acks)
  unfolding serve_message handle_stats store_stats
  serve_stats t s value clock reads own represented h =
      let n = info_of me s.timestamp_ms value in
      let item = stats_item me s.timestamp_ms (json.to_string value) value in
      let (st', e, total, _, nodes, sent) =
        send_to_worker_counted ch doc hash (register me n (count me (codes "stats") t)).app me item
          h in
      (
        record t { app = record st' { sent = st'.sent ++ update_of me s.timestamp_ms value ∷ [] } },
        rw ((text_eq_iff s.node_id me).1 own, represented, e) refl,
        rw nodes (lookup-insert_self me n t.app.nodes),
        rw sent refl,
        total,
        refl,
      )

  -- A heartbeat of the stream's own node marks its entry online at the heartbeat's time if there is
  -- one, makes none otherwise, and changes no broadcast and no queue; it is acknowledged with the
  -- server's time, and the stream goes on, exactly if the agent still reads.
  pub serve_heartbeat :
      (t : Task J Q) (hb : Heartbeat) (clock : Option ℕ) (reads : Bool)
      → hb.node_id ≡ me
      → (u : Task J Q) × (serve_message json to_value ch hash me t
            (some (some (heartbeat hb)))
            clock
            reads
          ≡ (if reads then goes_on (record u { acks = t.acks ++ now_ms clock ∷ [] }) else ends u))
        × (lookup me u.app.nodes ≡ beaten hb (lookup me t.app.nodes))
        × (u.app.sent ≡ t.app.sent)
        × (u.app.worker_txs ≡ t.app.worker_txs)
        × (u.acks ≡ t.acks)
  unfolding serve_message handle_heartbeat
  serve_heartbeat t hb clock reads own = (
    refresh me hb (count me (codes "heartbeat") t),
    rw ((text_eq_iff hb.node_id me).1 own) refl,
    lookup-touch me hb (lookup me t.app.nodes) t.app.nodes refl,
    refl,
    refl,
    refl,
  )

  serve_forged :
      (t : Task J Q) (m : Option (TelemetryMessage F)) (clock : Option ℕ) (reads : Bool)
      → IsForged me m
      → serve_message json to_value ch hash me t m clock reads ≡ reject t
  unfolding serve_message handle_stats handle_heartbeat
  serve_forged t none clock reads h = absurd h
  serve_forged t (some none) clock reads h = absurd h
  serve_forged t (some (some (stats s))) clock reads h = ground (arith, text_eq_iff s.node_id me)
  serve_forged t (some (some (heartbeat hb))) clock reads h =
      ground (arith, text_eq_iff hb.node_id me)
  serve_forged t (some (some (probe_result p))) clock reads h = absurd h

  then_serve_cong :
      (o : Outcome J Q) (k l : Task J Q → Outcome J Q)
      → ((u : Task J Q) → k u ≡ l u)
      → then_serve o k ≡ then_serve o l
  then_serve_cong (goes_on t) k l h = h t
  then_serve_cong (ends t) k l h = refl
  then_serve_cong panics k l h = refl

  stream_cut :
      (t : Task J Q) (before after : List (Inbound F)) (i : Inbound F)
      → IsForged me i.received
      → stream json to_value ch hash me t (before ++ i ∷ after)
        ≡ stream json to_value ch hash me t (before ++ i ∷ [])
  unfolding stream
  stream_cut t [] after i h = rw (serve_forged t i.received i.clock i.agent_reads h)
  stream_cut t (b ∷ before) after i h =
      then_serve_cong (serve json to_value ch hash me t b) _ _ (λ u. stream_cut u before after i h)

  -- A forged message ends its stream: of the state only the failure count grows, and nothing that
  -- the agent sends afterwards is looked at, wherever in the stream the forged message stands.
  pub stream_forged :
      (t : Task J Q) (before after : List (Inbound F)) (i : Inbound F)
      → IsForged me i.received
      → (stream json to_value ch hash me t (i ∷ after) ≡ reject t)
        × (stream json to_value ch hash me t (before ++ i ∷ after)
            ≡ stream json to_value ch hash me t (before ++ i ∷ []))
  unfolding stream
  stream_forged t before after i h =
      (rw (serve_forged t i.received i.clock i.agent_reads h) refl, stream_cut t before after i h)
