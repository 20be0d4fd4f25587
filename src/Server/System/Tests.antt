-- ===== src/Server/System/Tests.antt =====
-- A run of the server: an agent's statistics arrive, a worker stores them, the server stops.
use hakuraku.Prelude.{
  false, ◌+◌, length, ℕ, ◌≡◌, ◌≢◌, refl, true, [], ◌∷◌, Option, none, some, Text, codes, lookup,
  text_eq, text_eq_iff, arith, pos, inl, sub_i64,
}
use hakuraku.Server.State.{
  AppState, NodeInfo, online, IngestionItem, probe_item, shard, send_to_worker,
}
use hakuraku.Server.Toys.{Items, pair, pair-IsChannel, numbers, snapshot}
use hakuraku.Server.Grpc.{info_of, update_of, goes_on, now_ms, handle_probe, serve_message}
use hakuraku.Server.Db.{NodeEntry, info_of_row, joined, Database, get_all_nodes}
use hakuraku.Server.Db.Retention.{IsReferenced}
use hakuraku.Server.Worker.{Answers, store_item, work, load_nodes}
use hakuraku.Server.Victoria.{Value, no_pushes, push_item}
use hakuraku.Server.Api.{is_valid_node_id, Unicode}
use hakuraku.Server.System.Stale.{stale_answer}
use hakuraku.Server.System.Late.{gone_at, late_announcement}
use hakuraku.Server.Liveness.{sweep, update_for}
use hakuraku.Server.System.{new_state, Step, System, start, serves, works, Reach, here, next}
use hakuraku.Server.System.Toys.{
  empty, to_number, begun, probe, a, b, after_all, trace, trace', trace_served, trace_served',
}
use hakuraku.Server.System.Keeping.{rows}
use hakuraku.Server.System.Invariant.{Reach-IsSound}
use hakuraku.Server.System.Sound.{IsSound}
use hakuraku.Server.System.Counting.{load, received}
use hakuraku.Server.System.Accounts.{AllQuiet, Reach-accounts}
use hakuraku.Server.System.Interleaving.{registry}
use hakuraku.Server.System.Orders.{messages_of, effects, any_order}
use hakuraku.Server.System.Shutdown.{run_worker, run_worker_ends}

abbrev ascii : Unicode
ascii = record { is_alphanumeric = λ c. true; to_lowercase = λ s. s }

-- Every number has no parts, and prints as itself.
abbrev figures : Value ℕ ℕ ℕ
figures = record {
  as_object = λ j. none;
  get = λ o key. none;
  as_f64 = some;
  as_u64 = some;
  from_u64 = λ n. n;
  object = λ es. 0;
  array = length;
  string = length;
  number = λ n. n;
  integer = λ i. 0;
  to_string = numbers.to_string;
}

abbrev import : Option Text
import = some (codes "http://vm/api/v1/import")

abbrev always : Answers
always = record { first = true; second = true; clock = some 7 }

abbrev waiting : IngestionItem ℕ
waiting = probe_item (codes "a") (codes "t:80") true (pos 3) [] (pos 7)

abbrev one_waits : AppState ℕ Items
one_waits = record {
  sent = [];
  nodes = [];
  worker_txs = (waiting ∷ []) ∷ [] ∷ [] ∷ [] ∷ [];
  metrics = record {
    auth_failures = [];
    grpc_messages = (codes "a", codes "probe_result") ∷ [];
    ingestion_drops = 0;
    db_errors = [];
  };
}

abbrev received_one : System ℕ Items
received_one = record {
  app = one_waits;
  db = empty;
  requests = [];
  pushes = no_pushes;
  leaving = [];
}

served :
    serve_message numbers to_number pair
      (λ n. 0)
      (codes "a")
      (record { app = begun.app; acks = [] })
      (some probe)
      (some 7)
      true
    ≡ goes_on (record { app = one_waits; acks = [] })
unfolding serve_message handle_probe send_to_worker shard start load_nodes get_all_nodes now_ms
served = refl

run : Reach numbers figures import to_number pair (λ n. 0) ascii (start [] true empty) received_one
unfolding start load_nodes get_all_nodes
run = next here (
    serves begun (codes "a") (record { app = begun.app; acks = [] })
      (record { app = one_waits; acks = [] }) (some probe) (some 7) true refl (inl served))

known : IsReferenced empty
known = record { snapshots = tt; probes = tt }

Reach-IsSound_example : IsSound pair pair-IsChannel (λ n. 0) (rows empty) received_one
Reach-IsSound_example =
    Reach-IsSound numbers figures import to_number pair pair-IsChannel (λ n. 0) ascii [] true empty
      received_one refl known run

-- The worker of the first queue stores the probe result of a node that the database knows.
abbrev knows_a : Database ℕ
knows_a = record {
  nodes =
      (codes "a", record { hostname = codes "a"; last_seen = pos 5; status = codes "online" }) ∷ [];
  snapshots = [];
  probe_results = [];
  db_errors = [];
  tie = λ r x. true;
}

a_stands : (n : NodeEntry) × (lookup (codes "a") knows_a.nodes ≡ some n)
unfolding lookup text_eq
a_stands = (record { hostname = codes "a"; last_seen = pos 5; status = codes "online" }, refl)

-- The registry could not be loaded.
abbrev waits_for_a : System ℕ Items
waits_for_a = record {
  app = one_waits;
  db = knows_a;
  requests = [];
  pushes = no_pushes;
  leaving = [];
}

abbrev stored_one : System ℕ Items
stored_one = record waits_for_a {
  app = record one_waits { worker_txs = [] ∷ [] ∷ [] ∷ [] ∷ [] };
  db = store_item numbers always knows_a waiting;
  pushes = push_item figures import waiting no_pushes;
}

stores :
    Reach numbers figures import to_number pair (λ n. 0) ascii (start [] false knows_a) stored_one
unfolding start load_nodes get_all_nodes
stores =
    next
      (next here (
        serves (start [] false knows_a) (codes "a") (record { app = begun.app; acks = [] })
          (record { app = one_waits; acks = [] }) (some probe) (some 7) true refl (inl served)))
      (works waits_for_a 0 (waiting ∷ []) [] waiting always refl refl)

stores_quiet : AllQuiet numbers figures import to_number pair pair-IsChannel (λ n. 0) ascii stores
unfolding stores start load_nodes get_all_nodes
stores_quiet = ((tt, tt), (refl, a_stands))

known_a : IsReferenced knows_a
known_a = record { snapshots = tt; probes = tt }

Reach-accounts_example :
    rows stored_one.db + load pair pair-IsChannel (λ n. 0) stored_one.app
    ≡ rows knows_a + received stored_one.app
Reach-accounts_example =
    Reach-accounts numbers figures import to_number pair pair-IsChannel (λ n. 0) ascii [] false
      knows_a stored_one (λ s. (42, refl)) refl known_a stores stores_quiet

closed : (r : Items) → pair.recv r ≡ none → pair.contents r ≡ []
closed [] e = refl
closed (x ∷ xs) e = cc

run_worker_ends_example :
    (q' : Items) × (run_worker numbers figures import pair 3
        (λ n. always)
        empty
        no_pushes
        (waiting ∷ [])
      ≡ some (
        work numbers empty ((always, waiting) ∷ []),
        push_item figures import waiting no_pushes,
        q',
      ))
    × (q' ≡ [])
run_worker_ends_example =
    run_worker_ends numbers figures import to_number pair pair-IsChannel (λ n. 0) ascii [] true
      empty received_one 0 (waiting ∷ []) (λ n. always) empty no_pushes refl known closed run refl

a_is_not_b : a ≢ b
a_is_not_b e = ground arith

same_messages : (j : Text) → messages_of j trace ≡ messages_of j trace'
same_messages j = ground (arith, text_eq_iff a j, text_eq_iff b j, a_is_not_b)

any_order_example :
    ((j : Text)
      → lookup j (after_all trace begun.app).nodes
        ≡ effects to_number j (messages_of j trace) (lookup j begun.app.nodes))
    × (registry (after_all trace begun.app) ≡ registry (after_all trace' begun.app))
unfolding start load_nodes get_all_nodes
any_order_example =
    any_order numbers to_number pair pair-IsChannel (λ n. 0) begun.app (after_all trace begun.app)
      (after_all trace' begun.app) trace trace' (omega arith) same_messages trace_served
      trace_served'

abbrev entry : NodeEntry
entry = record { hostname = codes "h"; last_seen = pos 5; status = codes "offline" }

-- The database knows the node from an earlier run, when the registry could not be loaded.
abbrev remembered : Database ℕ
remembered = record {
  nodes = (codes "a", entry) ∷ [];
  snapshots = [];
  probe_results = [];
  db_errors = [];
  tie = λ r x. true;
}

a_is_known : lookup a remembered.nodes ≡ some entry
unfolding lookup text_eq
a_is_known = refl

a_is_missing : lookup a (new_state {J = ℕ} {Q = Items} []).nodes ≡ none
unfolding lookup
a_is_missing = refl

a_is_valid : is_valid_node_id ascii a ≡ true
unfolding is_valid_node_id text_eq
a_is_valid = refl

stale_answer_example :
    (x y : System ℕ Items) × Reach numbers figures import to_number pair
      (λ n. 0)
      ascii
      (record {
        app = new_state [];
        db = remembered;
        requests = [];
        pushes = no_pushes;
        leaving = [];
      })
      x
    × (lookup a x.app.nodes ≡ some (info_of a (pos 1000) 42))
    × Step numbers figures import to_number pair (λ n. 0) ascii x y
    × (lookup a y.app.nodes ≡ some (info_of_row (joined remembered (a, entry))))
stale_answer_example =
    stale_answer numbers figures import to_number pair pair-IsChannel (λ n. 0) ascii (new_state [])
      remembered no_pushes [] a entry (snapshot a) 42 (some 7) a_is_valid a_is_missing a_is_known
      refl refl (omega arith)

-- The node's last report is of time 5, and the clock shows 60005.
abbrev silent : NodeInfo ℕ
silent = record {
  node_id = a;
  hostname = a;
  last_seen_ms = pos 5;
  status = online;
  latest_stats = some 3;
}

abbrev one_silent : AppState ℕ Items
one_silent = record (new_state []) { nodes = (a, silent) ∷ [] }

found_silent : (sweep (now_ms (some 60005)) one_silent.nodes).transitions ≡ silent ∷ []
unfolding sweep now_ms sub_i64
found_silent = refl

late_announcement_example :
    (x : System ℕ Items) × Reach numbers figures import to_number pair
      (λ n. 0)
      ascii
      (record { app = one_silent; db = empty; requests = []; pushes = no_pushes; leaving = [] })
      x
    × (lookup a x.app.nodes ≡ some (info_of a (pos 1000) 42))
    × (x.app.sent ≡ update_of a (pos 1000) 42 ∷ update_for numbers silent ∷ [])
    × (lookup a x.db.nodes ≡ some (gone_at a (some 60007)))
late_announcement_example =
    late_announcement numbers figures import to_number pair pair-IsChannel (λ n. 0) ascii one_silent
      empty no_pushes a silent [] (snapshot a) 42 (some 60005) (some 60007) found_silent refl refl
      refl (omega arith)
