-- ===== src/Server/Grpc/Stream.antt =====
-- What a telemetry stream may change: only its own node.
use hakuraku.Prelude.{
  ℕ, ◌<◌, ◌≡◌, refl, Bool, true, false, List, [], ◌∷◌, Option, none, some, Text, codes, text_eq,
  lookup, length, ℤ, inl, inr, Bool-cases,
}
use hakuraku.Core.Proto.{NodeStats, Heartbeat, stats, heartbeat, probe_result, TelemetryMessage}
use hakuraku.Server.State.{Channel, IsChannel, Json, IngestionItem, id_of, AppState}
use hakuraku.Server.State.Shards.{send_to_worker_counted}
use hakuraku.Server.Grpc.Own.{
  Leaves, IsOwn, IsOwn_refl, IsOwn_trans, registered, sends, broadcasts, metrics_only, touch-IsOwn,
}
use hakuraku.Server.Grpc.{
  StatsSerializable, serializable, Inbound, Task, Outcome, goes_on, ends, panics, store_stats,
  handle_stats, handle_heartbeat, handle_probe, serve_message, serve, stream, then_serve, enqueue,
  register, info_of, update_of, refresh, count, acknowledge, now_ms, spoofing,
}

module _ {J Q : Type 0} {capacity : ℕ} (ch : Channel Q (IngestionItem J))
    (doc : IsChannel capacity ch) (hash : Text → ℕ) (me : Text) where
  enqueue-Leaves :
      (before : AppState J Q) (t : Task J Q) (item : IngestionItem J) (k : Task J Q → Outcome J Q)
      → id_of item ≡ me
      → 0 < length t.app.worker_txs
      → IsOwn ch doc hash me before t.app
      → ((st' : AppState J Q)
          → IsOwn ch doc hash me before st'
          → Leaves (λ u. IsOwn ch doc hash me before u.app) (k (record t { app = st' })))
      → Leaves (λ u. IsOwn ch doc hash me before u.app) (enqueue ch hash me t item k)
  enqueue-Leaves before t item k own h so_far next =
      let (st', e, _, len, nodes, sent) = send_to_worker_counted ch doc hash t.app me item h in
      rw e (
        next st' (
          IsOwn_trans ch doc hash me so_far
            (sends ch doc hash me t.app st' item own e len nodes sent)))

  store_stats-IsOwn :
      (json : Json J) (before : AppState J Q) (t : Task J Q) (timestamp_ms : ℤ) (o : Option J)
      → 0 < length t.app.worker_txs
      → IsOwn ch doc hash me before t.app
      → Leaves
          (λ u. IsOwn ch doc hash me before u.app)
          (store_stats ch hash me json t timestamp_ms o)
  unfolding store_stats
  store_stats-IsOwn json before t timestamp_ms none h so_far = so_far
  store_stats-IsOwn json before t timestamp_ms (some value) h so_far =
      let n = info_of me timestamp_ms value in
      let u = update_of me timestamp_ms value in
      enqueue-Leaves before (register me n t) _ _ refl h
        (IsOwn_trans ch doc hash me so_far (registered ch doc hash me t.app n t.app.metrics refl))
        (λ st' own. IsOwn_trans ch doc hash me own (broadcasts ch doc hash me st' u refl))

  handle_heartbeat-IsOwn :
      (t : Task J Q) (hb : Heartbeat) (clock : Option ℕ) (reads : Bool)
      → Leaves (λ u. IsOwn ch doc hash me t.app u.app) (handle_heartbeat me t hb clock reads)
  unfolding handle_heartbeat
  handle_heartbeat-IsOwn t hb clock reads = elim (Bool-cases (text_eq hb.node_id me)) [
    | inl own ↦ rw own (acked reads)
    | inr other ↦ rw other (metrics_only ch doc hash me t.app (spoofing t.app.metrics))
  ]
    where
      refreshed : IsOwn ch doc hash me t.app (refresh me hb (count me (codes "heartbeat") t)).app
      refreshed = touch-IsOwn ch doc hash me t.app _ hb (lookup me t.app.nodes) refl

      acked :
          (b : Bool)
          → Leaves
              (λ u. IsOwn ch doc hash me t.app u.app)
              (acknowledge b (now_ms clock) (refresh me hb (count me (codes "heartbeat") t)))
      acked true = refreshed
      acked false = refreshed

module _ {F J Q : Type 0} {capacity : ℕ} (json : Json J) (to_value : StatsSerializable F → Option J)
    (ch : Channel Q (IngestionItem J)) (doc : IsChannel capacity ch) (hash : Text → ℕ)
    (me : Text) where
  handle_stats-IsOwn :
      (t : Task J Q) (s : NodeStats F)
      → 0 < length t.app.worker_txs
      → Leaves (λ u. IsOwn ch doc hash me t.app u.app) (handle_stats json to_value ch hash me t s)
  unfolding handle_stats
  handle_stats-IsOwn t s h = elim (Bool-cases (text_eq s.node_id me)) [
    | inl own ↦ rw own (
        store_stats-IsOwn ch doc hash me json t.app (count me (codes "stats") t) s.timestamp_ms
          (to_value (serializable s)) h (metrics_only ch doc hash me t.app _))
    | inr other ↦ rw other (metrics_only ch doc hash me t.app (spoofing t.app.metrics))
  ]

  pub serve_message-IsOwn :
      (t : Task J Q) (msg : Option (TelemetryMessage F)) (clock : Option ℕ) (reads : Bool)
      → 0 < length t.app.worker_txs
      → Leaves
          (λ u. IsOwn ch doc hash me t.app u.app)
          (serve_message json to_value ch hash me t msg clock reads)
  unfolding serve_message handle_probe
  serve_message-IsOwn t none clock reads h = IsOwn_refl ch doc hash me t.app
  serve_message-IsOwn t (some none) clock reads h = IsOwn_refl ch doc hash me t.app
  serve_message-IsOwn t (some (some (stats s))) clock reads h = handle_stats-IsOwn t s h
  serve_message-IsOwn t (some (some (heartbeat hb))) clock reads h =
      handle_heartbeat-IsOwn ch doc hash me t hb clock reads
  serve_message-IsOwn t (some (some (probe_result p))) clock reads h =
      enqueue-Leaves ch doc hash me t.app (count me (codes "probe_result") t) _ goes_on refl h
        (metrics_only ch doc hash me t.app _) (λ st' own. own)

  then_serve-IsOwn :
      (before : AppState J Q) (o : Outcome J Q) (k : Task J Q → Outcome J Q)
      → Leaves (λ u. IsOwn ch doc hash me before u.app) o
      → ((u : Task J Q)
          → IsOwn ch doc hash me before u.app
          → Leaves (λ v. IsOwn ch doc hash me u.app v.app) (k u))
      → Leaves (λ u. IsOwn ch doc hash me before u.app) (then_serve o k)
  then_serve-IsOwn before (goes_on t) k h next = after (k t) (next t h)
    where
      after :
          (o : Outcome J Q)
          → Leaves (λ v. IsOwn ch doc hash me t.app v.app) o
          → Leaves (λ v. IsOwn ch doc hash me before v.app) o
      after (goes_on u) own = IsOwn_trans ch doc hash me h own
      after (ends u) own = IsOwn_trans ch doc hash me h own
      after panics own = own
  then_serve-IsOwn before (ends t) k h next = h
  then_serve-IsOwn before panics k h next = h

  -- A stream, whatever its agent sends, never panics while there is a worker, and leaves the shared
  -- state with the entries of all other nodes as they were, each registry entry under its own node,
  -- broadcasts added for the authenticated node only, and every queued item in its node's queue
  -- within the bound, if it was so before.
  pub stream-IsOwn :
      (t : Task J Q) (is : List (Inbound F))
      → 0 < length t.app.worker_txs
      → Leaves (λ u. IsOwn ch doc hash me t.app u.app) (stream json to_value ch hash me t is)
  unfolding stream
  stream-IsOwn t [] h = IsOwn_refl ch doc hash me t.app
  stream-IsOwn t (i ∷ is) h =
      then_serve-IsOwn t.app (serve json to_value ch hash me t i) _
        (serve_message-IsOwn t i.received i.clock i.agent_reads h)
        (λ u own. stream-IsOwn u is (rw own.workers h))
