-- ===== src/Server/State/Shards.antt =====
-- Items on their way to the workers: none is lost without being counted, and one node's items stay
-- in one queue, in order.
use hakuraku.Prelude.{
  ℕ, zero, suc, ◌+◌, ◌%◌, ◌≤◌, ◌<◌, ◌≡◌, refl, ap, subst, List, [], ◌∷◌, Option, none, some, Text,
  length, length-append, length-set, get_elem?, set, arith, Option-cases, inl, inr, ◌⊎◌, All,
  All-append,
}
use hakuraku.Server.State.{
  Channel, IsChannel, AppState, IngestionItem, id_of, shard, offer, after_offer, send_to_worker,
}

module _ {ℓ} {A : Type ℓ} where
  get_elem?-total : (xs : List A) (i : ℕ) → i < length xs → (x : A) × (get_elem? xs i ≡ some x)
  get_elem?-total [] i h = elim h [ ]
  get_elem?-total (x ∷ xs) zero h = (x, refl)
  get_elem?-total (x ∷ xs) (suc i) h = get_elem?-total xs i (omega arith)

abbrev pub drops : {J Q : Type 0} → AppState J Q → ℕ
drops st = st.metrics.ingestion_drops

module _ {J Q : Type 0} where
  after_offer-length :
      (st : AppState J Q) (i : ℕ) (o : Option Q)
      → length (after_offer st i o).worker_txs ≡ length st.worker_txs
  after_offer-length st i none = refl
  after_offer-length st i (some q') = length-set st.worker_txs i q'

  after_offer-nodes :
      (st : AppState J Q) (i : ℕ) (o : Option Q) → (after_offer st i o).nodes ≡ st.nodes
  after_offer-nodes st i none = refl
  after_offer-nodes st i (some q') = refl

  after_offer-sent :
      (st : AppState J Q) (i : ℕ) (o : Option Q) → (after_offer st i o).sent ≡ st.sent
  after_offer-sent st i none = refl
  after_offer-sent st i (some q') = refl

module _ {J Q : Type 0} {capacity : ℕ} (ch : Channel Q (IngestionItem J))
    (doc : IsChannel capacity ch) where
  -- The items that wait, over all workers.
  abbrev pub queued : List Q → ℕ
  queued [] = 0
  queued (q ∷ qs) = length (ch.contents q) + queued qs

  queued-set :
      (qs : List Q) (i : ℕ) (q q' : Q) (item : IngestionItem J)
      → get_elem? qs i ≡ some q
      → ch.try_send q item ≡ some q'
      → queued (set qs i q') ≡ queued qs + 1
  queued-set [] i q q' item h e = cc
  queued-set (p ∷ qs) zero q q' item h e =
      let same : p ≡ q = cc in
      omega (
        arith,
        ap (λ r. length (ch.contents r)) same,
        ap length (doc.sent q q' item e),
        length-append (ch.contents q) (item ∷ []),
      )
  queued-set (p ∷ qs) (suc i) q q' item h e = omega (arith, queued-set qs i q q' item h e)

  after_offer-queued :
      (st : AppState J Q) (i : ℕ) (item : IngestionItem J) (q : Q) (o : Option Q)
      → get_elem? st.worker_txs i ≡ some q
      → ch.try_send q item ≡ o
      → queued (after_offer st i o).worker_txs + drops (after_offer st i o)
        ≡ queued st.worker_txs + drops st + 1
  after_offer-queued st i item q none h e = omega arith
  after_offer-queued st i item q (some q') h e =
      omega (arith, queued-set st.worker_txs i q q' item h e)

  -- With a worker there, sending succeeds. The item is then either waiting in a queue or counted as
  -- dropped, and nothing that waited before is lost; the registry, the broadcasts and the number of
  -- workers stay as they were.
  pub send_to_worker_counted :
      (hash : Text → ℕ) (st : AppState J Q) (node_id : Text) (item : IngestionItem J)
      → 0 < length st.worker_txs
      → (st' : AppState J Q) × (send_to_worker ch hash st node_id item ≡ some st')
        × (queued st'.worker_txs + drops st' ≡ queued st.worker_txs + drops st + 1)
        × (length st'.worker_txs ≡ length st.worker_txs)
        × (st'.nodes ≡ st.nodes)
        × (st'.sent ≡ st.sent)
  unfolding send_to_worker shard
  send_to_worker_counted hash st node_id item h =
      let i = hash node_id % length st.worker_txs in
      let (q, found) = get_elem?-total st.worker_txs i (grind arith) in
      (
        offer ch st i item q,
        rw found,
        after_offer-queued st i item q (ch.try_send q item) found refl,
        after_offer-length st i (ch.try_send q item),
        after_offer-nodes st i (ch.try_send q item),
        after_offer-sent st i (ch.try_send q item),
      )

  -- Of `n` workers: every waiting item is in the queue of its node's shard, and no queue exceeds the
  -- capacity.
  pub record IsPlaced (hash : Text → ℕ) (n : ℕ) (qs : List Q) : Type 0 where
    pub placed :
        (i : ℕ) (q : Q)
        → get_elem? qs i ≡ some q
        → All (λ item. hash (id_of item) % n ≡ i) (ch.contents q)
    pub bounded : (i : ℕ) (q : Q) → get_elem? qs i ≡ some q → length (ch.contents q) ≤ capacity

  pub set-cases :
      (qs : List Q) (i j : ℕ) (q' r : Q)
      → get_elem? (set qs i q') j ≡ some r
      → ((i ≡ j) × (r ≡ q')) ⊎ (get_elem? qs j ≡ some r)
  set-cases [] i j q' r h = cc
  set-cases (p ∷ qs) zero zero q' r h = inl (refl, ground arith)
  set-cases (p ∷ qs) zero (suc j) q' r h = inr h
  set-cases (p ∷ qs) (suc i) zero q' r h = inr h
  set-cases (p ∷ qs) (suc i) (suc j) q' r h = ground (arith, set-cases qs i j q' r h)

  module _ (hash : Text → ℕ) (n : ℕ) (item : IngestionItem J) where
    set-placed :
        (qs : List Q) (q q' : Q)
        → get_elem? qs (hash (id_of item) % n) ≡ some q
        → ch.try_send q item ≡ some q'
        → IsPlaced hash n qs
        → (j : ℕ) (r : Q) → get_elem? (set qs (hash (id_of item) % n) q') j ≡ some r
        → All (λ it. hash (id_of it) % n ≡ j) (ch.contents r) × (length (ch.contents r) ≤ capacity)
    set-placed qs q q' found e h j r at_j =
        elim (set-cases qs (hash (id_of item) % n) j q' r at_j) [
          | inl (here, same) ↦
              rw (same, doc.sent q q' item e)
                (
                  All-append (λ it. hash (id_of it) % n ≡ j) (ch.contents q) (item ∷ [])
                      (subst (λ k. All (λ it. hash (id_of it) % n ≡ k) (ch.contents q)) here
                        (h.placed (hash (id_of item) % n) q found))
                      (here, tt),
                  rw (doc.sent q q' item e) at (doc.bounded q q' item e),
                )
          | inr there ↦ (h.placed j r there, h.bounded j r there)
        ]

    after_offer-IsPlaced :
        (st : AppState J Q) (q : Q) (o : Option Q)
        → get_elem? st.worker_txs (hash (id_of item) % n) ≡ some q
        → ch.try_send q item ≡ o
        → IsPlaced hash n st.worker_txs
        → IsPlaced hash n (after_offer st (hash (id_of item) % n) o).worker_txs
    after_offer-IsPlaced st q none found e h = h
    after_offer-IsPlaced st q (some q') found e h = record {
      placed = λ j r at_j. (set-placed st.worker_txs q q' found e h j r at_j).0;
      bounded = λ j r at_j. (set-placed st.worker_txs q q' found e h j r at_j).1;
    }

  -- Sending an item under its own node keeps every item in its node's queue, and every queue within
  -- the channel's capacity.
  pub send_to_worker-IsPlaced :
      (hash : Text → ℕ) (st st' : AppState J Q) (item : IngestionItem J)
      → IsPlaced hash (length st.worker_txs) st.worker_txs
      → send_to_worker ch hash st (id_of item) item ≡ some st'
      → IsPlaced hash (length st'.worker_txs) st'.worker_txs
  unfolding send_to_worker shard
  send_to_worker-IsPlaced hash st st' item h e =
      elim (Option-cases (get_elem? st.worker_txs (hash (id_of item) % length st.worker_txs))) [
        | inl missing ↦ absurd (ground arith)
        | inr (q, found) ↦
            let i = hash (id_of item) % length st.worker_txs in
            let o = ch.try_send q item in
            let same : after_offer st i o ≡ st' = ground arith in
            subst (λ s. IsPlaced hash (length s.worker_txs) s.worker_txs) same
              (rw (after_offer-length st i o)
                (after_offer-IsPlaced hash (length st.worker_txs) item st q o found refl h))
      ]
