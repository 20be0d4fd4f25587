-- ===== src/EndToEnd.antt =====
-- An agent and the server together: the messages that the loops of pulse-agent/src/main.rs make,
-- served by the task of the agent's stream in pulse-server/src/grpc.rs.
pub mod Reading
mod Tests
use hakuraku.Prelude.{
  ℕ, zero, suc, ◌+◌, ◌<◌, ◌≡◌, ◌≢◌, refl, sym, ap, subst, ◌∙◌, Bool, true, false, Bool-cases, List,
  [], ◌∷◌, ◌++◌, Option, none, some, Text, codes, text_eq, text_eq_iff, length, length-append,
  get_elem?, arith, inl, inr, All, Result, ok, err, ℤ, as_i64,
}
use hakuraku.Core.Float.{Float}
use hakuraku.Core.Proto.{
  NodeStats, Heartbeat, ProbeResult, TcpProbe, stats, heartbeat, probe_result, TelemetryMessage,
  Payload,
}
use hakuraku.Agent.Collector.{SystemCollector, Kernel}
use hakuraku.Agent.Collector.Collect.{collect}
use hakuraku.Agent.Collector.Snapshot.{IsSnapshot, collect-IsSnapshot}
use hakuraku.Agent.Prober.{Network, probe_tcp_targets}
use hakuraku.Agent.Commands.{heartbeat_loop, probe_messages}
use hakuraku.Server.State.{
  Channel, IsChannel, Json, IngestionItem, stats_item, probe_item, AppState, Metrics,
}
use hakuraku.Server.State.Shards.{send_to_worker_counted}
use hakuraku.Server.Grpc.{
  StatsSerializable, serializable, Inbound, Task, Outcome, goes_on, ends, panics, store_stats,
  handle_stats, handle_heartbeat, handle_probe, serve_message, serve, stream, then_serve, enqueue,
  register, refresh, count, acknowledge, info_of, now_ms,
}
use hakuraku.Server.Grpc.Own.{Leaves}
use hakuraku.Server.System.Counting.{send_to_worker-SameLabels}

module _ {F A : Type 0} (f : Float F) (net : Network A) (me : Text) where
  -- The messages of an agent that is configured with the name `me`.
  pub data Made : TelemetryMessage F → Type 0 where
    collected :
        (k : Kernel) (now : ℕ) (clock : Option ℕ) (c c' : SystemCollector) (s : NodeStats F)
        → collect f k now clock me c ≡ (c', ok s)
        → Made (some (stats s))
    beaten :
        (ticks : List (Option ℕ × Bool)) (i : ℕ) (m : TelemetryMessage F)
        → get_elem? (heartbeat_loop me ticks) i ≡ some m
        → Made m
    probed :
        (probe : TcpProbe) (e : Option Text) (i : ℕ) (m : TelemetryMessage F)
        → get_elem? (probe_messages net probe e) i ≡ some m
        → Made m

-- A message with a payload, which names no other node.
abbrev IsGenuine : {F : Type 0} → Text → TelemetryMessage F → Type 0
IsGenuine me none = ⊥
IsGenuine me (some (stats s)) = s.node_id ≡ me
IsGenuine me (some (heartbeat hb)) = hb.node_id ≡ me
IsGenuine me (some (probe_result p)) = Unit

heartbeats-IsGenuine :
    (F : Type 0) (me : Text) (ticks : List (Option ℕ × Bool))
    → All (IsGenuine {F = F} me) (heartbeat_loop me ticks)
unfolding heartbeat_loop
heartbeats-IsGenuine F me [] = tt
heartbeats-IsGenuine F me ((clock, true) ∷ ticks) = (refl, heartbeats-IsGenuine F me ticks)
heartbeats-IsGenuine F me ((clock, false) ∷ ticks) = tt

All-at :
    {A : Type 0} (P : A → Type 0) (xs : List A) (i : ℕ) (x : A)
    → All P xs
    → get_elem? xs i ≡ some x
    → P x
All-at P [] i x all h = absurd (ground arith)
All-at P (y ∷ ys) zero x all h = let same : y ≡ x = cc in subst P same all.0
All-at P (y ∷ ys) (suc i) x all h = All-at P ys i x all.1 h

module _ {F A : Type 0} (f : Float F) (net : Network A) (me : Text) where
  Made-IsGenuine : (m : TelemetryMessage F) → Made f net me m → IsGenuine me m
  unfolding probe_messages probe_tcp_targets
  Made-IsGenuine m (collected k now clock c c' s e) =
      (subst (IsSnapshot f now me c.prev_time) e (collect-IsSnapshot f k now clock me c)).1
  Made-IsGenuine m (beaten ticks i m' h) =
      All-at (IsGenuine me) (heartbeat_loop me ticks) i m (heartbeats-IsGenuine F me ticks) h
  Made-IsGenuine m (probed probe e i m' h) =
      All-at (IsGenuine me) (probe_messages net probe e) i m (tt, tt) h

-- The messages with the server's clock, on an open connection.
abbrev pub arriving : {F : Type 0} → List (TelemetryMessage F × Option ℕ) → List (Inbound F)
arriving [] = []
arriving ((m, clock) ∷ ms) =
    record { received = some m; clock = clock; agent_reads = true } ∷ arriving ms

module _ {F J Q : Type 0} {capacity : ℕ} (json : Json J) (to_value : StatsSerializable F → Option J)
    (ch : Channel Q (IngestionItem J)) (doc : IsChannel capacity ch) (hash : Text → ℕ)
    (me : Text) where
  -- One more message is counted, no failure is, and no worker is lost.
  abbrev pub Counts : ℕ → Task J Q → Task J Q → Type 0
  Counts n t u =
      (u.app.metrics.auth_failures ≡ t.app.metrics.auth_failures)
      × (length u.app.metrics.grpc_messages ≡ length t.app.metrics.grpc_messages + n)
      × (length u.app.worker_txs ≡ length t.app.worker_txs)

  -- The stream goes on, and one more message is counted.
  abbrev Accepts : Task J Q → Outcome J Q → Type 0
  Accepts t (goes_on u) = Counts 1 t u
  Accepts t (ends u) = ⊥
  Accepts t panics = ⊥

  enqueue-Accepts :
      (t u : Task J Q) (item : IngestionItem J) (k : Task J Q → Outcome J Q)
      → 0 < length t.app.worker_txs
      → Counts 1 t u
      → ((v : Task J Q) → Counts 1 t v → Accepts t (k v))
      → Accepts t (enqueue ch hash me u item k)
  enqueue-Accepts t u item k h (failures, messages, workers) next =
      let (st', e, _, len, _, _) =
        send_to_worker_counted ch doc hash u.app me item (omega (arith, h, workers)) in
      let (labels, unauthorized) = send_to_worker-SameLabels ch doc hash u.app st' me item e in
      rw e (
        next (record u { app = st' })
          (unauthorized ∙ failures, ap length labels ∙ messages, len ∙ workers))

  counted : (t : Task J Q) (kind : Text) → Counts 1 t (count me kind t)
  counted t kind = (refl, length-append t.app.metrics.grpc_messages ((me, kind) ∷ []), refl)

  store_stats-Accepts :
      (t u : Task J Q) (timestamp_ms : ℤ) (o : Option J)
      → 0 < length t.app.worker_txs
      → Counts 1 t u
      → Accepts t (store_stats ch hash me json u timestamp_ms o)
  unfolding store_stats
  store_stats-Accepts t u timestamp_ms none h c = c
  store_stats-Accepts t u timestamp_ms (some value) h c =
      enqueue-Accepts t (register me (info_of me timestamp_ms value) u) _ _ h c (λ v c'. c')

  serve_message-Accepts :
      (t : Task J Q) (m : TelemetryMessage F) (clock : Option ℕ)
      → 0 < length t.app.worker_txs
      → IsGenuine me m
      → Accepts t (serve_message json to_value ch hash me t (some m) clock true)
  unfolding serve_message handle_stats handle_heartbeat handle_probe
  serve_message-Accepts t none clock h own = absurd own
  serve_message-Accepts t (some (stats s)) clock h own = rw ((text_eq_iff s.node_id me).1 own) (
      store_stats-Accepts t (count me (codes "stats") t) s.timestamp_ms (to_value (serializable s))
        h (counted t (codes "stats")))
  serve_message-Accepts t (some (heartbeat hb)) clock h own =
      rw ((text_eq_iff hb.node_id me).1 own) (counted t (codes "heartbeat"))
  serve_message-Accepts t (some (probe_result p)) clock h own =
      enqueue-Accepts t (count me (codes "probe_result") t) _ goes_on h
        (counted t (codes "probe_result")) (λ v c. c)

  Counts_suc :
      (n : ℕ) (t u : Task J Q) (o : Outcome J Q)
      → Counts 1 t u
      → Leaves (Counts n u) o
      → Leaves (Counts (suc n) t) o
  Counts_suc n t u (goes_on v) (a, b, c) (d, e, g) = (d ∙ a, omega (arith, b, e), g ∙ c)
  Counts_suc n t u (ends v) (a, b, c) (d, e, g) = (d ∙ a, omega (arith, b, e), g ∙ c)
  Counts_suc n t u panics own h = h

  then_serve-Counts :
      (n : ℕ) (t : Task J Q) (o : Outcome J Q) (k : Task J Q → Outcome J Q)
      → Accepts t o
      → ((u : Task J Q) → Counts 1 t u → Leaves (Counts n u) (k u))
      → Leaves (Counts (suc n) t) (then_serve o k)
  then_serve-Counts n t (goes_on u) k c next = Counts_suc n t u (k u) c (next u c)
  then_serve-Counts n t (ends u) k c next = absurd c
  then_serve-Counts n t panics k c next = c

  -- A stream of messages that the agent with the name `me` made, received while the agent reads
  -- and there is a worker: the server ends it only where it ends, without a panic, counts each of
  -- the messages, and counts no failed authentication.
  pub stream-Counts :
      {A : Type 0} (f : Float F) (net : Network A) (t : Task J Q)
      (ms : List (TelemetryMessage F × Option ℕ))
      → 0 < length t.app.worker_txs
      → All (λ m. Made f net me m.0) ms
      → Leaves (Counts (length ms) t) (stream json to_value ch hash me t (arriving ms))
  unfolding stream
  stream-Counts f net t [] h made = (refl, omega arith, refl)
  stream-Counts f net t ((m, clock) ∷ ms) h (first, rest) =
      then_serve-Counts (length ms) t _ _
        (serve_message-Accepts t m clock h (Made-IsGenuine f net me m first))
        (λ u (c, d, e). stream-Counts f net u ms (omega (arith, h, e)) rest)
