-- ===== src/Server/System/Toys.antt =====
-- Two nodes that report and probe, for the tests.
use hakuraku.Prelude.{
  ℕ, ◌≡◌, refl, true, [], ◌∷◌, Option, some, Text, codes, inl, lookup, insert, text_eq,
}
use hakuraku.Core.Proto.{stats, probe_result, TelemetryMessage}
use hakuraku.Server.State.{AppState, send_to_worker, shard}
use hakuraku.Server.Toys.{Items, pair, pair-IsChannel, numbers, snapshot}
use hakuraku.Server.Grpc.{
  StatsSerializable, Outcome, goes_on, ends, panics, serve_message, handle_stats, handle_probe,
  store_stats, serializable, now_ms,
}
use hakuraku.Server.Db.{Database, get_all_nodes}
use hakuraku.Server.Worker.{load_nodes}
use hakuraku.Server.System.{System, start}
use hakuraku.Server.System.Interleaving.{Serves}
use hakuraku.Server.System.Orders.{Trace, Serving, moves, done}

abbrev pub empty : Database ℕ
empty = record { nodes = []; snapshots = []; probe_results = []; db_errors = []; tie = λ r x. true }

abbrev pub to_number : StatsSerializable ℕ → Option ℕ
to_number s = some 42

abbrev pub begun : System ℕ Items
begun = start [] true empty

abbrev pub probe : TelemetryMessage ℕ
probe = some (
    probe_result
      (record { target = codes "t:80"; success = true; latency_us = 3; error_message = [] }))

abbrev pub left_by : AppState ℕ Items → Outcome ℕ Items → AppState ℕ Items
left_by st (goes_on t) = t.app
left_by st (ends t) = t.app
left_by st panics = st

abbrev pub reports : Text → Option (TelemetryMessage ℕ)
reports node_id = some (some (stats (snapshot node_id)))

-- The state after a message.
abbrev pub after : Text → Option (TelemetryMessage ℕ) → AppState ℕ Items → AppState ℕ Items
after node_id msg st = left_by st (
    serve_message numbers to_number pair (λ n. 0) node_id (record { app = st; acks = [] }) msg
      (some 7) true)

abbrev pub a : Text
a = codes "a"

abbrev pub b : Text
b = codes "b"

pub one_served :
    (me : Text) (msg : Option (TelemetryMessage ℕ)) (st : AppState ℕ Items)
    → (serve_message numbers to_number pair
          (λ n. 0)
          me
          (record { app = st; acks = [] })
          msg
          (some 7)
          true
        ≡ goes_on (record { app = after me msg st; acks = [] }))
    → Serves numbers to_number pair pair-IsChannel (λ n. 0) me msg st (after me msg st)
one_served me msg st e = record {
  from = record { app = st; acks = [] };
  to = record { app = after me msg st; acks = [] };
  clock = some 7;
  reads = true;
  before = refl;
  after = refl;
  served = inl e;
}

-- The first node reports and probes, the second reports.
abbrev pub trace : Trace ℕ
trace = (a, reports a) ∷ (b, reports b) ∷ (a, some probe) ∷ []

abbrev pub trace' : Trace ℕ
trace' = (b, reports b) ∷ (a, reports a) ∷ (a, some probe) ∷ []

abbrev pub after_all : Trace ℕ → AppState ℕ Items → AppState ℕ Items
after_all [] st = st
after_all ((me, msg) ∷ tr) st = after_all tr (after me msg st)

pub trace_served :
    Serving numbers to_number pair pair-IsChannel
      (λ n. 0)
      begun.app
      trace
      (after_all trace begun.app)
unfolding serve_message handle_stats handle_probe store_stats send_to_worker shard start load_nodes
    get_all_nodes serializable lookup insert text_eq now_ms
trace_served = moves (one_served a (reports a) begun.app refl) (
    moves (one_served b (reports b) (after a (reports a) begun.app) refl) (
      moves (one_served a (some probe) (after b (reports b) (after a (reports a) begun.app)) refl)
        done))

pub trace_served' :
    Serving numbers to_number pair pair-IsChannel
      (λ n. 0)
      begun.app
      trace'
      (after_all trace' begun.app)
unfolding serve_message handle_stats handle_probe store_stats send_to_worker shard start load_nodes
    get_all_nodes serializable lookup insert text_eq now_ms
trace_served' = moves (one_served b (reports b) begun.app refl) (
    moves (one_served a (reports a) (after b (reports b) begun.app) refl) (
      moves (one_served a (some probe) (after a (reports a) (after b (reports b) begun.app)) refl)
        done))
