-- ===== src/Server/Metrics/Registration.antt =====
-- No use of a metric panics, in whatever order the metrics are first used.
use hakuraku.Prelude.{
  length, ℕ, ◌==◌, ◌≡◌, ◌≢◌, refl, sym, ap, ◌∙◌, ◌&&◌, ◌||◌, not, leb, Bool, true, false,
  Bool-cases, inl, inr, List, [], ◌∷◌, map, all, some, lookup, Text, codes, text_eq, ok, All, arith,
}
use hakuraku.Server.Metrics.{
  Metric, http_requests, http_duration, grpc_messages, auth_failures, ingestion_depth,
  ingestion_drops, db_latency, db_errors, ws_connections, nodes_online, nodes_offline, Opts, opts,
  Prometheus, Statics, index, is_made, init, force, Use, request_counted, request_timed,
  message_counted, failure_counted, depth_set, drop_counted, query_timed, error_counted,
  connection_counted, online_set, offline_set, metric_of, label_values, perform, performs,
}

-- The names that Prometheus allows.
abbrev is_letter : ℕ → Bool
is_letter c = (leb b'a' c && leb c b'z') || (leb b'A' c && leb c b'Z') || (c == b'_')

abbrev is_letter_or_digit : ℕ → Bool
is_letter_or_digit c = is_letter c || (leb b'0' c && leb c b'9')

abbrev is_name : Text → Bool
is_name [] = false
is_name (c ∷ s) = (is_letter c || (c == b':')) && all (λ d. is_letter_or_digit d || (d == b':')) s

-- The label of the bounds of a histogram's buckets is reserved.
unfoldable pub is_label : Text → Bool
unfolding text_eq
is_label [] = false
is_label (c ∷ s) = is_letter c && all is_letter_or_digit s && not (text_eq (c ∷ s) (codes "le"))

abbrev is_text : Text → Bool
is_text [] = false
is_text (c ∷ s) = true

-- Names of letters, and a help text.
abbrev pub IsAllowed : Opts → Type 0
IsAllowed o = ((is_name o.name && is_text o.help) && all is_label o.labels) ≡ true

abbrev pub Absent : Text → List Text → Type 0
Absent t = All (λ u. t ≢ u)

-- What the crate documents: a collector of allowed options is made and has their name, and it is
-- registered unless a collector of that name is there.
pub record IsPrometheus {R C : Type 0} (crate : Prometheus R C) : Type 0 where
  pub name_of : C → Text
  pub names : R → List Text
  pub makes : (o : Opts) → IsAllowed o → (c : C) × (crate.make o ≡ ok c) × (name_of c ≡ o.name)
  pub registers :
      (r : R) (c : C)
      → Absent (name_of c) (names r)
      → (r' : R) × (crate.register r c ≡ ok r') × (names r' ≡ name_of c ∷ names r)

opts-IsAllowed : (m : Metric) → IsAllowed (opts m)
unfolding opts is_label text_eq
opts-IsAllowed http_requests = refl
opts-IsAllowed http_duration = refl
opts-IsAllowed grpc_messages = refl
opts-IsAllowed auth_failures = refl
opts-IsAllowed ingestion_depth = refl
opts-IsAllowed ingestion_drops = refl
opts-IsAllowed db_latency = refl
opts-IsAllowed db_errors = refl
opts-IsAllowed ws_connections = refl
opts-IsAllowed nodes_online = refl
opts-IsAllowed nodes_offline = refl

abbrev table : List (Text × ℕ)
table =
    (codes "http_requests_total", 0)
    ∷ (codes "http_request_duration_seconds", 1)
    ∷ (codes "grpc_messages_received_total", 2)
    ∷ (codes "auth_failures_total", 3)
    ∷ (codes "ingestion_queue_depth", 4)
    ∷ (codes "ingestion_drops_total", 5)
    ∷ (codes "db_query_duration_seconds", 6)
    ∷ (codes "db_errors_total", 7)
    ∷ (codes "websocket_connections_active", 8)
    ∷ (codes "nodes_online_count", 9)
    ∷ (codes "nodes_offline_count", 10)
    ∷ []

-- A name belongs to one metric.
lookup-name : (m : Metric) → lookup (opts m).name table ≡ some (index m)
unfolding opts lookup text_eq
lookup-name http_requests = refl
lookup-name http_duration = refl
lookup-name grpc_messages = refl
lookup-name auth_failures = refl
lookup-name ingestion_depth = refl
lookup-name ingestion_drops = refl
lookup-name db_latency = refl
lookup-name db_errors = refl
lookup-name ws_connections = refl
lookup-name nodes_online = refl
lookup-name nodes_offline = refl

index_name : (m x : Metric) → (opts m).name ≡ (opts x).name → index m ≡ index x
index_name m x e =
    let same : some (index m) ≡ some (index x) =
      sym (lookup-name m) ∙ (ap (λ t. lookup t table) e ∙ lookup-name x) in
    cc

is_made-Absent :
    (m : Metric) (xs : List Metric)
    → is_made m xs ≡ false
    → Absent (opts m).name (map (λ x. (opts x).name) xs)
is_made-Absent m [] h = tt
is_made-Absent m (x ∷ xs) h = elim (Bool-cases (index m == index x)) [
  | inl e ↦ absurd (ground arith)
  | inr e ↦
      (λ same. (let i = index_name m x same in ground arith), is_made-Absent m xs (ground arith))
]

-- Each metric stands once.
abbrev pub IsOnce : List Metric → Type 0
IsOnce [] = Unit
IsOnce (m ∷ ms) = (is_made m ms ≡ false) × IsOnce ms

-- Each use gives a value for each label.
labels_lem : (u : Use) → (length (label_values u) == length (opts (metric_of u)).labels) ≡ true
unfolding opts
labels_lem (request_counted path status) = refl
labels_lem (request_timed path) = refl
labels_lem (message_counted node_id kind) = refl
labels_lem (failure_counted client reason) = refl
labels_lem depth_set = refl
labels_lem drop_counted = refl
labels_lem (query_timed operation) = refl
labels_lem (error_counted operation) = refl
labels_lem connection_counted = refl
labels_lem online_set = refl
labels_lem offline_set = refl

module _ {R C : Type 0} (crate : Prometheus R C) (doc : IsPrometheus crate) where
  -- The registry knows the metrics that were made, each once.
  abbrev pub IsRegistered : Statics R → Type 0
  IsRegistered s = (doc.names s.registry ≡ map (λ m. (opts m).name) s.made) × IsOnce s.made

  init-IsRegistered :
      (m : Metric) (s : Statics R)
      → is_made m s.made ≡ false
      → IsRegistered s
      → (s' : Statics R) × (init crate m s ≡ ok s') × (s'.made ≡ m ∷ s.made) × IsRegistered s'
  unfolding init
  init-IsRegistered m s new (names, once) =
      let (c, made, name) = doc.makes (opts m) (opts-IsAllowed m) in
      let (r, registered, more) =
        doc.registers s.registry c (rw (name, names) (is_made-Absent m s.made new)) in
      (
        record { made = m ∷ s.made; registry = r },
        rw (made, registered) refl,
        refl,
        (more ∙ rw (name, names) refl, (new, once)),
      )

  -- What was made before stays made.
  abbrev Keeps : Statics R → Statics R → Type 0
  Keeps s s' = (x : Metric) → is_made x s.made ≡ true → is_made x s'.made ≡ true

  force-IsRegistered :
      (m : Metric) (s : Statics R)
      → IsRegistered s
      → (s' : Statics R) × (force crate m s ≡ ok s')
        × (is_made m s'.made ≡ true)
        × Keeps s s'
        × IsRegistered s'
  unfolding force
  force-IsRegistered m s h = elim (Bool-cases (is_made m s.made)) [
    | inl e ↦ (s, rw e refl, e, λ x k. k, h)
    | inr e ↦
        let (s', ran, made, h') = init-IsRegistered m s e h in
        (s', rw e ran, rw made (ground arith), λ x k. rw made (ground (arith, k)), h')
  ]

  -- With the documented behaviour of the crate, from a registry that holds the metrics made so far,
  -- each once, the server's uses of the metrics can come in any order and as often as they like:
  -- nothing panics, in making and registering a metric or for a number of label values that is not
  -- that of its labels; every metric used is made, and the registry holds exactly the metrics that
  -- were made, each once.
  pub performs-IsRegistered :
      (us : List Use) (s : Statics R)
      → IsRegistered s
      → (s' : Statics R) × (performs crate us s ≡ ok s')
        × All (λ u. is_made (metric_of u) s'.made ≡ true) us
        × Keeps s s'
        × IsRegistered s'
  unfolding performs perform
  performs-IsRegistered [] s h = (s, refl, tt, λ x k. k, h)
  performs-IsRegistered (u ∷ us) s h =
      let (t, one, made, kept, h') = force-IsRegistered (metric_of u) s h in
      let (s', rest, all_made, kept', h'') = performs-IsRegistered us t h' in
      (
        s',
        rw (one, labels_lem u) rest,
        (kept' (metric_of u) made, all_made),
        λ x k. kept' x (kept x k),
        h'',
      )
