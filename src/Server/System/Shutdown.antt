-- ===== src/Server/System/Shutdown.antt =====
-- pulse-server/src/main.rs: the end of a run. The servers have stopped and the senders are dropped,
-- so that each worker receives what is left in its queue and then leaves its loop.
use hakuraku.Prelude.{
  ℕ, zero, suc, ◌+◌, ◌<◌, ◌≡◌, refl, ap, Bool, List, [], ◌∷◌, Option, none, some, Text, length,
  get_elem?, arith, Option-cases, inl, inr,
}
use hakuraku.Server.State.{Channel, IsChannel, Json, IngestionItem}
use hakuraku.Server.Grpc.{StatsSerializable}
use hakuraku.Server.Db.{Database}
use hakuraku.Server.Db.Retention.{IsReferenced}
use hakuraku.Server.Worker.{Answers, store_item, work}
use hakuraku.Server.Victoria.{Value, Pushes, push_item}
use hakuraku.Server.Api.{Unicode}
use hakuraku.Server.System.{System, start, Reach}
use hakuraku.Server.System.Invariant.{Reach-IsSound}

-- The items of a queue, each with what the database answers when it is stored.
abbrev pub answered :
    {J : Type 0} → (ℕ → Answers) → List (IngestionItem J) → List (Answers × IngestionItem J)
answered answers [] = []
answered answers (item ∷ items) = (answers 0, item) ∷ answered (λ n. answers (suc n)) items

module _ {F J O Q : Type 0} (json : Json J) (values : Value J O F) (url : Option Text)
    (ch : Channel Q (IngestionItem J)) where
  -- The loop of a worker, by fuel: `none` is a loop that has not ended.
  unfoldable pub run_worker :
      ℕ → (ℕ → Answers) → Database J → Pushes → Q → Option (Database J × Pushes × Q)
  run_worker zero answers db p q = none
  run_worker (suc fuel) answers db p q = elim (ch.recv q) [
    | none ↦ some (db, p, q)
    | some (item, q') ↦
        run_worker fuel (λ n. answers (suc n)) (store_item json (answers 0) db item)
          (push_item values url item p) q'
  ]

  abbrev pub push_all : List (IngestionItem J) → Pushes → Pushes
  push_all [] p = p
  push_all (item ∷ items) p = push_all items (push_item values url item p)

  run_worker-answered :
      {capacity : ℕ} (fuel : ℕ) (answers : ℕ → Answers) (db : Database J) (p : Pushes) (q : Q)
      → IsChannel capacity ch
      → ((r : Q) → ch.recv r ≡ none → ch.contents r ≡ [])
      → length (ch.contents q) < fuel
      → (q' : Q) × (run_worker fuel answers db p q
          ≡ some (work json db (answered answers (ch.contents q)), push_all (ch.contents q) p, q'))
        × (ch.contents q' ≡ [])
  unfolding run_worker work
  run_worker-answered zero answers db p q doc closed h = absurd (omega arith)
  run_worker-answered (suc fuel) answers db p q doc closed h = elim (Option-cases (ch.recv q)) [
    | inl e ↦ (q, rw (run_worker, e, closed q e) refl, closed q e)
    | inr ((item, r), e) ↦
        let split = doc.received q r item e in
        let (q', ran, done) =
          run_worker-answered fuel (λ n. answers (suc n)) (store_item json (answers 0) db item)
            (push_item values url item p) r doc closed (omega (arith, ap length split)) in
        (q', rw (run_worker, e, split) ran, done)
  ]

module _ {F J O Q : Type 0} {capacity : ℕ} (json : Json J) (values : Value J O F)
    (url : Option Text) (to_value : StatsSerializable F → Option J)
    (ch : Channel Q (IngestionItem J)) (doc : IsChannel capacity ch) (hash : Text → ℕ)
    (u : Unicode) where
  -- After any run of the server that began with empty queues and a database of known nodes, and
  -- when a closed queue that gives no item has none left: the loop of each worker ends after at
  -- most one round more than the capacity of a queue, with its queue empty and every item that was
  -- waiting in it handed to the database and offered for export, in order, whatever the database
  -- holds by then and answers.
  pub run_worker_ends :
      (start_q : Q) (up : Bool) (db : Database J) (s : System J Q) (i : ℕ) (q : Q)
      (answers : ℕ → Answers) (now : Database J) (p : Pushes)
      → ch.contents start_q ≡ []
      → IsReferenced db
      → ((r : Q) → ch.recv r ≡ none → ch.contents r ≡ [])
      → Reach json values url to_value ch hash u (start start_q up db) s
      → get_elem? s.app.worker_txs i ≡ some q
      → (q' : Q) × (run_worker json values url ch (capacity + 1) answers now p q
          ≡ some (
            work json now (answered answers (ch.contents q)),
            push_all json values url ch (ch.contents q) p,
            q',
          ))
        × (ch.contents q' ≡ [])
  run_worker_ends start_q up db s i q answers now p empty known closed run found =
      let sound =
        Reach-IsSound json values url to_value ch doc hash u start_q up db s empty known run in
      run_worker-answered json values url ch (capacity + 1) answers now p q doc closed
        (omega (arith, sound.placed.bounded i q found))
