-- ===== src/Server/System/Counting.antt =====
-- What each step does to the numbers of items received, waiting, dropped and stored.
use hakuraku.Prelude.{
  ℕ, ◌+◌, ◌≤◌, ◌<◌, ◌≡◌, refl, ap, subst, Bool, true, false, not, [], ◌∷◌, Option, none, some, Text,
  codes, text_eq, length, length-append, keep_if, keep_if-append, get_elem?, arith, Option-cases,
  Bool-cases, inl, inr, ℤ,
}
use mathlib.Core.List.{append-nil}
use hakuraku.Core.Proto.{Heartbeat, stats, heartbeat, probe_result, TelemetryMessage}
use hakuraku.Server.State.{
  Channel, IsChannel, Json, IngestionItem, AppState, Metrics, shard, after_offer, send_to_worker,
}
use hakuraku.Server.State.Shards.{queued, drops, send_to_worker_counted}
use hakuraku.Server.Grpc.{
  StatsSerializable, serializable, Task, Outcome, goes_on, counted, count, register, info_of,
  refresh, acknowledge, now_ms, enqueue, store_stats, handle_stats, handle_heartbeat, handle_probe,
  serve_message,
}
use hakuraku.Server.Grpc.Own.{Leaves}

abbrev pub is_item : Text × Text → Bool
is_item e = not (text_eq e.1 (codes "heartbeat"))

-- The statistics and probe results among the messages counted by GRPC_MESSAGES.
abbrev pub received : {J Q : Type 0} → AppState J Q → ℕ
received st = length (keep_if is_item st.metrics.grpc_messages)

pub received-counted :
    (me kind : Text) (m : Metrics)
    → is_item (me, kind) ≡ true
    → length (keep_if is_item (counted me kind m).grpc_messages)
      ≡ length (keep_if is_item m.grpc_messages) + 1
received-counted me kind m h =
    rw (keep_if-append is_item m.grpc_messages ((me, kind) ∷ []), h)
      (length-append (keep_if is_item m.grpc_messages) ((me, kind) ∷ []))

pub received-heartbeat :
    (me : Text) (m : Metrics)
    → length (keep_if is_item (counted me (codes "heartbeat") m).grpc_messages)
      ≡ length (keep_if is_item m.grpc_messages)
unfolding text_eq
received-heartbeat me m =
    rw (keep_if-append is_item m.grpc_messages ((me, codes "heartbeat") ∷ []), append-nil) refl

-- Only the count of dropped items may change.
abbrev pub SameLabels : Metrics → Metrics → Type 0
SameLabels m m' = (m'.grpc_messages ≡ m.grpc_messages) × (m'.auth_failures ≡ m.auth_failures)

module _ {J Q : Type 0} where
  after_offer-SameLabels :
      (st : AppState J Q) (i : ℕ) (o : Option Q)
      → SameLabels st.metrics (after_offer st i o).metrics
  after_offer-SameLabels st i none = (refl, refl)
  after_offer-SameLabels st i (some q') = (refl, refl)

module _ {J Q : Type 0} {capacity : ℕ} (ch : Channel Q (IngestionItem J))
    (doc : IsChannel capacity ch) (hash : Text → ℕ) where
  -- The items that wait or were dropped.
  abbrev pub load : AppState J Q → ℕ
  load st = queued ch doc st.worker_txs + drops st

  -- No more items are added than are received.
  abbrev pub Balanced : AppState J Q → AppState J Q → Type 0
  Balanced before after = load after + received before ≤ load before + received after

  pub send_to_worker-SameLabels :
      (st st' : AppState J Q) (node_id : Text) (item : IngestionItem J)
      → send_to_worker ch hash st node_id item ≡ some st'
      → SameLabels st.metrics st'.metrics
  unfolding send_to_worker shard
  send_to_worker-SameLabels st st' node_id item e =
      elim (Option-cases (get_elem? st.worker_txs (shard hash st node_id))) [
        | inl missing ↦ absurd (ground arith)
        | inr (q, found) ↦
            let i = shard hash st node_id in
            let same : after_offer st i (ch.try_send q item) ≡ st' = ground arith in
            subst (λ s. SameLabels st.metrics s.metrics) same
              (after_offer-SameLabels st i (ch.try_send q item))
      ]

  -- Sending adds one item.
  enqueue-Balanced :
      (before : AppState J Q) (me : Text) (t : Task J Q) (item : IngestionItem J)
      (k : Task J Q → Outcome J Q)
      → 0 < length t.app.worker_txs
      → ((st' : AppState J Q)
          → load st' ≡ load t.app + 1
          → received st' ≡ received t.app
          → Leaves (λ u. Balanced before u.app) (k (record t { app = st' })))
      → Leaves (λ u. Balanced before u.app) (enqueue ch hash me t item k)
  enqueue-Balanced before me t item k h next =
      let (st', e, total, _, _, _) = send_to_worker_counted ch doc hash t.app me item h in
      rw e (
        next st' total (
          ap (λ ms. length (keep_if is_item ms)) (send_to_worker-SameLabels t.app st' me item e).0))

  store_stats-Balanced :
      (json : Json J) (before : AppState J Q) (me : Text) (t : Task J Q) (timestamp_ms : ℤ)
      (o : Option J)
      → 0 < length t.app.worker_txs
      → load t.app ≡ load before
      → received t.app ≡ received before + 1
      → Leaves (λ u. Balanced before u.app) (store_stats ch hash me json t timestamp_ms o)
  unfolding store_stats
  store_stats-Balanced json before me t timestamp_ms none h same one = omega arith
  store_stats-Balanced json before me t timestamp_ms (some value) h same one =
      enqueue-Balanced before me (register me (info_of me timestamp_ms value) t) _ _ h
        (λ st' more as_before. omega arith)

  handle_heartbeat-Balanced :
      (me : Text) (t : Task J Q) (hb : Heartbeat) (clock : Option ℕ) (reads : Bool)
      → Leaves (λ u. Balanced t.app u.app) (handle_heartbeat me t hb clock reads)
  unfolding handle_heartbeat
  handle_heartbeat-Balanced me t hb clock reads = elim (Bool-cases (text_eq hb.node_id me)) [
    | inr other ↦ rw other (omega arith)
    | inl own ↦
        rw own
          (elim reads
            as (λ b.
              Leaves (λ u. Balanced t.app u.app)
                (acknowledge b (now_ms clock) (refresh me hb (count me (codes "heartbeat") t)))) [
                  | true ↦ omega (arith, received-heartbeat me t.app.metrics)
                  | false ↦ omega (arith, received-heartbeat me t.app.metrics)
                ])
  ]

module _ {F J Q : Type 0} {capacity : ℕ} (json : Json J) (to_value : StatsSerializable F → Option J)
    (ch : Channel Q (IngestionItem J)) (doc : IsChannel capacity ch) (hash : Text → ℕ)
    (me : Text) where
  pub serve_message-Balanced :
      (t : Task J Q) (msg : Option (TelemetryMessage F)) (clock : Option ℕ) (reads : Bool)
      → 0 < length t.app.worker_txs
      → Leaves
          (λ u. Balanced ch doc hash t.app u.app)
          (serve_message json to_value ch hash me t msg clock reads)
  unfolding serve_message handle_probe handle_stats text_eq
  serve_message-Balanced t none clock reads h = omega arith
  serve_message-Balanced t (some none) clock reads h = omega arith
  serve_message-Balanced t (some (some (stats s))) clock reads h =
      elim (Bool-cases (text_eq s.node_id me)) [
        | inl own ↦ rw own (
            store_stats-Balanced ch doc hash json t.app me (count me (codes "stats") t)
              s.timestamp_ms (to_value (serializable s)) h refl
              (received-counted me (codes "stats") t.app.metrics refl))
        | inr other ↦ rw other (omega arith)
      ]
  serve_message-Balanced t (some (some (heartbeat hb))) clock reads h =
      handle_heartbeat-Balanced ch doc hash me t hb clock reads
  serve_message-Balanced t (some (some (probe_result p))) clock reads h =
      enqueue-Balanced ch doc hash t.app me (count me (codes "probe_result") t) _ goes_on h
        (λ st' more as_before.
          omega (arith, received-counted me (codes "probe_result") t.app.metrics refl))
