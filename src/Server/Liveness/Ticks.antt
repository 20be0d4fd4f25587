-- ===== src/Server/Liveness/Ticks.antt =====
-- What a tick does to the registry, the gauges and the subscribers.
use hakuraku.Prelude.{
  none, some, ◌↔◌, ◌⊎◌, ◌<ℤ◌, pos, sub_i64, ℕ, ◌+◌, ◌≡◌, refl, subst, sym, ap, ◌∙◌, Bool, true,
  false, List, [], ◌∷◌, ◌++◌, Option, map, Text, length, keep_if, ℤ, Bool-cases, inl, inr, arith,
  if◌then◌else◌,
}
use mathlib.Core.List.{append_assoc, append-nil}
use hakuraku.Server.State.{
  NodeStatus, online, offline, unknown, AppState, NodeInfo, NodeUpdate, Json, Channel, IsChannel,
  IngestionItem,
}
use hakuraku.Server.State.Shards.{queued}
use hakuraku.Server.Db.{Database}
use hakuraku.Server.Grpc.{now_ms}
use hakuraku.Server.Liveness.{
  stats_or_null, is_online, is_offline, timed_out, checked, sweep, announce, update_for, Ticked,
  tick, ingestion_depth,
}

count_one :
    {A : Type 0} (b : Bool) (x : A) (xs : List A) (m : ℕ)
    → m ≡ length xs
    → (if b then m + 1 else m) ≡ length (if b then x ∷ xs else xs)
count_one true x xs m h = omega arith
count_one false x xs m h = h

module _ {J : Type 0} where
  -- The entries' values.
  abbrev pub values : List (Text × NodeInfo J) → List (NodeInfo J)
  values nodes = map (λ e. e.1) nodes

  abbrev pub on_entry : (NodeInfo J → NodeInfo J) → Text × NodeInfo J → Text × NodeInfo J
  on_entry f (k, n) = (k, f n)

  pub sweep_lem :
      (now : ℤ) (nodes : List (Text × NodeInfo J))
      → ((sweep now nodes).nodes ≡ map (on_entry (checked now)) nodes)
        × ((sweep now nodes).transitions ≡ keep_if (timed_out now) (values nodes))
        × ((sweep now nodes).online
            ≡ length (keep_if (λ n. is_online n.status) (values (sweep now nodes).nodes)))
        × ((sweep now nodes).offline
            ≡ length (keep_if (λ n. is_offline n.status) (values (sweep now nodes).nodes)))
  unfolding sweep
  sweep_lem now [] = (refl, refl, refl, refl)
  sweep_lem now ((k, n) ∷ nodes) =
      let (a, b, c, d) = sweep_lem now nodes in
      (
        ap (λ t. (k, checked now n) ∷ t) a,
        ap (λ t. if timed_out now n then n ∷ t else t) b,
        count_one (is_online (checked now n).status) _ _ _ c,
        count_one (is_offline (checked now n).status) _ _ _ d,
      )

  announce_lem :
      (json : Json J) (answers : Bool) (clock : Option ℕ) (ns : List (NodeInfo J)) (db : Database J)
      (sent : List (NodeUpdate J))
      → (announce json answers clock ns (db, sent)).1 ≡ sent ++ map (update_for json) ns
  unfolding announce
  announce_lem json answers clock [] db sent = sym (append-nil sent)
  announce_lem json answers clock (n ∷ ns) db sent =
      announce_lem json answers clock ns _ (sent ++ update_for json n ∷ [])
      ∙ append_assoc sent (update_for json n ∷ []) (map (update_for json) ns)

  -- Online, and without a sign of life for more than thirty seconds, in the arithmetic of i64.
  abbrev pub IsSilent : ℤ → NodeInfo J → Type 0
  IsSilent now n = (n.status ≡ online) × (pos 30000 <ℤ sub_i64 now n.last_seen_ms)

  timed_out_iff : (now : ℤ) (n : NodeInfo J) → (timed_out now n ≡ true) ↔ IsSilent now n
  timed_out_iff now n =
      (λ h. (online_of n.status (ground arith), ground arith), λ (e, h). rw e (ground arith))
    where
      online_of : (s : NodeStatus) → is_online s ≡ true → s ≡ online
      online_of online h = refl
      online_of offline h = cc
      online_of unknown h = cc

  -- An entry after a tick.
  abbrev pub Becomes : ℤ → NodeInfo J → NodeInfo J → Type 0
  Becomes now n n' =
      (IsSilent now n × (n' ≡ record n { status = offline })) ⊎ (¬ (IsSilent now n) × (n' ≡ n))

  -- Every entry stays in its place and under its key.
  abbrev pub AllBecome : ℤ → List (Text × NodeInfo J) → List (Text × NodeInfo J) → Type 0
  AllBecome now [] [] = Unit
  AllBecome now [] (e ∷ es) = ⊥
  AllBecome now (e ∷ es) [] = ⊥
  AllBecome now ((k, n) ∷ es) ((k', n') ∷ es') = (k' ≡ k) × Becomes now n n' × AllBecome now es es'

  checked-Becomes : (now : ℤ) (n : NodeInfo J) → Becomes now n (checked now n)
  checked-Becomes now n = elim (Bool-cases (timed_out now n)) [
    | inl gone ↦ rw (checked, gone) (inl ((timed_out_iff now n).0 gone, refl))
    | inr stays ↦
        rw (checked, stays) (inr (λ h. (let gone = (timed_out_iff now n).1 h in cc), refl))
  ]

  map-AllBecome :
      (now : ℤ) (nodes : List (Text × NodeInfo J))
      → AllBecome now nodes (map (on_entry (checked now)) nodes)
  map-AllBecome now [] = tt
  map-AllBecome now ((k, n) ∷ nodes) = (refl, checked-Becomes now n, map-AllBecome now nodes)

  -- What the subscribers are told of an entry.
  abbrev pub Tells : Json J → NodeInfo J → NodeUpdate J → Type 0
  Tells json n u =
      (u.node_id ≡ n.node_id)
      × (u.timestamp_ms ≡ n.last_seen_ms)
      × ((n.latest_stats ≡ some u.stats) ⊎ ((n.latest_stats ≡ none) × (u.stats ≡ json.null)))

  -- One update for each silent entry, in the order of the registry, and none for another.
  pub data AllTold (json : Json J) (now : ℤ)
      : List (Text × NodeInfo J) → List (NodeUpdate J) → Type 0 where
    nobody : AllTold json now [] []
    told :
        (k : Text) (n : NodeInfo J) (u : NodeUpdate J) {es : List (Text × NodeInfo J)}
        {us : List (NodeUpdate J)}
        → IsSilent now n
        → Tells json n u
        → AllTold json now es us
        → AllTold json now ((k, n) ∷ es) (u ∷ us)
    passed :
        (k : Text) (n : NodeInfo J) {es : List (Text × NodeInfo J)} {us : List (NodeUpdate J)}
        → ¬ (IsSilent now n)
        → AllTold json now es us
        → AllTold json now ((k, n) ∷ es) us

  update_for-Tells : (json : Json J) (n : NodeInfo J) → Tells json n (update_for json n)
  update_for-Tells json n = (refl, refl, stats_of n.latest_stats)
    where
      stats_of :
          (o : Option J)
          → (o ≡ some (stats_or_null json o)) ⊎ ((o ≡ none) × (stats_or_null json o ≡ json.null))
      stats_of none = inr (refl, refl)
      stats_of (some j) = inl refl

  transitions-AllTold :
      (json : Json J) (now : ℤ) (nodes : List (Text × NodeInfo J))
      → AllTold json now nodes (map (update_for json) (keep_if (timed_out now) (values nodes)))
  transitions-AllTold json now [] = nobody
  transitions-AllTold json now ((k, n) ∷ nodes) = elim (Bool-cases (timed_out now n)) [
    | inl gone ↦ rw gone (
        told k n (update_for json n) ((timed_out_iff now n).0 gone) (update_for-Tells json n)
          (transitions-AllTold json now nodes))
    | inr stays ↦ rw stays (
        passed k n (λ h. (let gone = (timed_out_iff now n).1 h in cc))
          (transitions-AllTold json now nodes))
  ]

  -- The entries that the gauges count.
  abbrev pub stands_online : NodeInfo J → Bool
  stands_online n = elim n.status [ online ↦ true | offline ↦ false | unknown ↦ false ]

  abbrev pub stands_offline : NodeInfo J → Bool
  stands_offline n = elim n.status [ online ↦ false | offline ↦ true | unknown ↦ false ]

  -- A tick takes exactly the online entries offline that the clock shows as silent for more than
  -- thirty seconds, and leaves all else of the registry as it was. It sends one update for each entry
  -- it took offline, in the registry's order, with its name, its last time and its statistics, or null
  -- where it has none, whether or not the database answers, and sets the two gauges to the numbers of online
  -- and offline entries in the registry it leaves.
  pub tick_sound :
      {Q : Type 0} (json : Json J) (answers : Bool) (clock : Option ℕ) (st : AppState J Q)
      (db : Database J)
      → (t : Ticked J Q) × (tick json answers clock st db ≡ t)
        × AllBecome (now_ms clock) st.nodes t.app.nodes
        × ((us : List (NodeUpdate J)) × (t.app.sent ≡ st.sent ++ us)
            × AllTold json (now_ms clock) st.nodes us)
        × (t.nodes_online ≡ length (keep_if stands_online (values t.app.nodes)))
        × (t.nodes_offline ≡ length (keep_if stands_offline (values t.app.nodes)))
  unfolding tick
  tick_sound json answers clock st db =
      let now = now_ms clock in
      let (nodes, gone, up, down) = sweep_lem now st.nodes in
      (
        tick json answers clock st db,
        refl,
        subst (AllBecome now st.nodes) (sym nodes) (map-AllBecome now st.nodes),
        (
          map (update_for json) (keep_if (timed_out now) (values st.nodes)),
          announce_lem json answers clock _ db st.sent
              ∙ ap (λ ns. st.sent ++ map (update_for json) ns) gone,
          transitions-AllTold json now st.nodes,
        ),
        up,
        down,
      )

-- Where the room and the waiting items of a queue are 1024 together, the gauge is the number of items
-- that wait.
pub ingestion_depth-queued :
    {J Q : Type 0} {capacity : ℕ} (ch : Channel Q (IngestionItem J)) (doc : IsChannel capacity ch)
    (room : Q → ℕ) (qs : List Q)
    → ((q : Q) → room q + length (ch.contents q) ≡ 1024)
    → ingestion_depth room qs ≡ queued ch doc qs
unfolding ingestion_depth
ingestion_depth-queued ch doc room [] h = refl
ingestion_depth-queued ch doc room (q ∷ qs) h =
    omega (arith, h q, ingestion_depth-queued ch doc room qs h)
