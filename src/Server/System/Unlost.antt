-- ===== src/Server/System/Unlost.antt =====
-- That what a stream's task receives waits in a queue or is counted as dropped.
use hakuraku.Prelude.{
  ℕ, ◌+◌, ◌≤◌, ◌<◌, ◌≡◌, refl, ap, inl, inr, Bool, true, false, Bool-cases, Option, none, some,
  Text, codes, text_eq, length, arith, ℤ, keep_if,
}
use hakuraku.Core.Proto.{stats, heartbeat, probe_result, TelemetryMessage, Heartbeat}
use hakuraku.Server.State.{Channel, IsChannel, Json, IngestionItem, AppState}
use hakuraku.Server.State.Shards.{send_to_worker_counted}
use hakuraku.Server.Grpc.{
  StatsSerializable, serializable, Task, Outcome, goes_on, count, register, info_of, refresh,
  acknowledge, now_ms, enqueue, store_stats, handle_stats, handle_heartbeat, handle_probe,
  serve_message,
}
use hakuraku.Server.Grpc.Own.{Leaves}
use hakuraku.Server.System.Counting.{
  load, received, received-counted, received-heartbeat, send_to_worker-SameLabels, is_item,
}

module _ {J Q : Type 0} {capacity : ℕ} (ch : Channel Q (IngestionItem J))
    (doc : IsChannel capacity ch) (hash : Text → ℕ) where
  -- No fewer items are added than are received.
  abbrev pub Unlost : AppState J Q → AppState J Q → Type 0
  Unlost before after =
      load ch doc hash before + received after ≤ load ch doc hash after + received before

  enqueue-Unlost :
      (before : AppState J Q) (me : Text) (t : Task J Q) (item : IngestionItem J)
      (k : Task J Q → Outcome J Q)
      → 0 < length t.app.worker_txs
      → ((st' : AppState J Q)
          → load ch doc hash st' ≡ load ch doc hash t.app + 1
          → received st' ≡ received t.app
          → Leaves (λ u. Unlost before u.app) (k (record t { app = st' })))
      → Leaves (λ u. Unlost before u.app) (enqueue ch hash me t item k)
  enqueue-Unlost before me t item k h then_k =
      let (st', e, total, _, _, _) = send_to_worker_counted ch doc hash t.app me item h in
      rw e (
        then_k st' total (
          ap (λ ms. length (keep_if is_item ms))
            (send_to_worker-SameLabels ch doc hash t.app st' me item e).0))

  store_stats-Unlost :
      (json : Json J) (before : AppState J Q) (me : Text) (t : Task J Q) (timestamp_ms : ℤ)
      (o : Option J)
      → (v : J) × (o ≡ some v)
      → 0 < length t.app.worker_txs
      → load ch doc hash t.app ≡ load ch doc hash before
      → received t.app ≡ received before + 1
      → Leaves (λ u. Unlost before u.app) (store_stats ch hash me json t timestamp_ms o)
  unfolding store_stats
  store_stats-Unlost json before me t timestamp_ms none (v, e) h same one = cc
  store_stats-Unlost json before me t timestamp_ms (some value) e h same one =
      enqueue-Unlost before me (register me (info_of me timestamp_ms value) t) _ _ h
        (λ st' more as_before. omega arith)

  handle_heartbeat-Unlost :
      (me : Text) (t : Task J Q) (hb : Heartbeat) (clock : Option ℕ) (reads : Bool)
      → Leaves (λ u. Unlost t.app u.app) (handle_heartbeat me t hb clock reads)
  unfolding handle_heartbeat
  handle_heartbeat-Unlost me t hb clock reads = elim (Bool-cases (text_eq hb.node_id me)) [
    | inr other ↦ rw other (omega arith)
    | inl own ↦
        rw own
          (elim reads
            as (λ b.
              Leaves (λ u. Unlost t.app u.app)
                (acknowledge b (now_ms clock) (refresh me hb (count me (codes "heartbeat") t)))) [
                  | true ↦ omega (arith, received-heartbeat me t.app.metrics)
                  | false ↦ omega (arith, received-heartbeat me t.app.metrics)
                ])
  ]

-- Every snapshot has a JSON value.
abbrev pub IsTotal : {F J : Type 0} → (StatsSerializable F → Option J) → Type 0
IsTotal {F} {J} to_value = (s : StatsSerializable F) → (v : J) × (to_value s ≡ some v)

module _ {F J Q : Type 0} {capacity : ℕ} (json : Json J) (to_value : StatsSerializable F → Option J)
    (ch : Channel Q (IngestionItem J)) (doc : IsChannel capacity ch) (hash : Text → ℕ)
    (me : Text) where
  pub serve_message-Unlost :
      (t : Task J Q) (msg : Option (TelemetryMessage F)) (clock : Option ℕ) (reads : Bool)
      → IsTotal to_value
      → 0 < length t.app.worker_txs
      → Leaves
          (λ u. Unlost ch doc hash t.app u.app)
          (serve_message json to_value ch hash me t msg clock reads)
  unfolding serve_message handle_probe handle_stats text_eq
  serve_message-Unlost t none clock reads total h = omega arith
  serve_message-Unlost t (some none) clock reads total h = omega arith
  serve_message-Unlost t (some (some (stats s))) clock reads total h =
      elim (Bool-cases (text_eq s.node_id me)) [
        | inl own ↦ rw own (
            store_stats-Unlost ch doc hash json t.app me (count me (codes "stats") t) s.timestamp_ms
              (to_value (serializable s)) (total (serializable s)) h refl
              (received-counted me (codes "stats") t.app.metrics refl))
        | inr other ↦ rw other (omega arith)
      ]
  serve_message-Unlost t (some (some (heartbeat hb))) clock reads total h =
      handle_heartbeat-Unlost ch doc hash me t hb clock reads
  serve_message-Unlost t (some (some (probe_result p))) clock reads total h =
      enqueue-Unlost ch doc hash t.app me (count me (codes "probe_result") t) _ goes_on h
        (λ st' more as_before.
          omega (arith, received-counted me (codes "probe_result") t.app.metrics refl))
