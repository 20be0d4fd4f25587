-- ===== src/Server/Grpc/Own.antt =====
-- What a telemetry stream may change of the shared state, and the changes that are of its own node.
use hakuraku.Prelude.{
  ℕ, ◌≡◌, refl, sym, ◌∙◌, subst, ◌≢◌, List, [], ◌∷◌, ◌++◌, Option, none, some, Text, text_eq_iff,
  lookup, insert, lookup-insert, lookup-insert_ne, length, arith, All, All-append,
}
use mathlib.Core.List.{append_assoc, append-nil}
use hakuraku.Core.Proto.{Heartbeat}
use hakuraku.Server.State.{
  Channel, IsChannel, NodeUpdate, NodeInfo, IngestionItem, id_of, AppState, Metrics, online,
  send_to_worker,
}
use hakuraku.Server.State.Shards.{IsPlaced, send_to_worker-IsPlaced}
use hakuraku.Server.Grpc.{Task, Outcome, goes_on, ends, panics, touch}

-- Every entry of the registry stands under its own node.
abbrev pub IsKeyed : {J : Type 0} → List (Text × NodeInfo J) → Type 0
IsKeyed {J} nodes = (j : Text) (n : NodeInfo J) → lookup j nodes ≡ some n → n.node_id ≡ j

-- Of an outcome that is no panic, the task it leaves.
abbrev pub Leaves : {J Q : Type 0} → (Task J Q → Type 0) → Outcome J Q → Type 0
Leaves P (goes_on t) = P t
Leaves P (ends t) = P t
Leaves P panics = ⊥

pub insert-IsKeyed :
    {J : Type 0} (me : Text) (n : NodeInfo J) (nodes : List (Text × NodeInfo J))
    → n.node_id ≡ me
    → IsKeyed nodes
    → IsKeyed (insert me n nodes)
insert-IsKeyed me n nodes e h j m found =
    ground (arith, lookup-insert me j n nodes, text_eq_iff me j, h j m)

module _ {J Q : Type 0} {capacity : ℕ} (ch : Channel Q (IngestionItem J))
    (doc : IsChannel capacity ch) (hash : Text → ℕ) (me : Text) where
  -- How the shared state may differ from what it was when the stream began.
  pub record IsOwn (before after : AppState J Q) : Type 0 where
    pub others : (j : Text) → me ≢ j → lookup j after.nodes ≡ lookup j before.nodes
    pub keyed : IsKeyed before.nodes → IsKeyed after.nodes
    pub own_updates :
        (new : List (NodeUpdate J)) × (after.sent ≡ before.sent ++ new)
        × All (λ u. u.node_id ≡ me) new
    pub workers : length after.worker_txs ≡ length before.worker_txs
    pub placed :
        IsPlaced ch doc hash (length before.worker_txs) before.worker_txs
        → IsPlaced ch doc hash (length after.worker_txs) after.worker_txs

  pub IsOwn_refl : (st : AppState J Q) → IsOwn st st
  IsOwn_refl st = record {
    others = λ j h. refl;
    keyed = λ h. h;
    own_updates = ([], sym (append-nil st.sent), tt);
    workers = refl;
    placed = λ h. h;
  }

  pub IsOwn_trans : {a b c : AppState J Q} → IsOwn a b → IsOwn b c → IsOwn a c
  IsOwn_trans {a} {b} {c} h k =
      let (new, sent, own) = h.own_updates in
      let (newer, sent', own') = k.own_updates in
      record {
        others = λ j ne. k.others j ne ∙ h.others j ne;
        keyed = λ key. k.keyed (h.keyed key);
        own_updates = (
          new ++ newer,
          rw (sent', sent) (append_assoc a.sent new newer),
          All-append (λ u. u.node_id ≡ me) new newer own own',
        );
        workers = k.workers ∙ h.workers;
        placed = λ p. k.placed (h.placed p);
      }

  pub registered :
      (st : AppState J Q) (n : NodeInfo J) (m : Metrics)
      → n.node_id ≡ me
      → IsOwn st (record st { nodes = insert me n st.nodes; metrics = m })
  registered st n m e = record {
    others = λ j ne. lookup-insert_ne me j n st.nodes ne;
    keyed = insert-IsKeyed me n st.nodes e;
    own_updates = ([], sym (append-nil st.sent), tt);
    workers = refl;
    placed = λ h. h;
  }

  pub broadcasts :
      (st : AppState J Q) (u : NodeUpdate J)
      → u.node_id ≡ me
      → IsOwn st (record st { sent = st.sent ++ u ∷ [] })
  broadcasts st u e = record {
    others = λ j ne. refl;
    keyed = λ h. h;
    own_updates = (u ∷ [], refl, (e, tt));
    workers = refl;
    placed = λ h. h;
  }

  pub sends :
      (st st' : AppState J Q) (item : IngestionItem J)
      → id_of item ≡ me
      → send_to_worker ch hash st me item ≡ some st'
      → length st'.worker_txs ≡ length st.worker_txs
      → st'.nodes ≡ st.nodes
      → st'.sent ≡ st.sent
      → IsOwn st st'
  sends st st' item own e len nodes sent = record {
    others = λ j ne. rw nodes refl;
    keyed = λ h. rw nodes h;
    own_updates = ([], rw (sent, append-nil) refl, tt);
    workers = len;
    placed = λ h.
        send_to_worker-IsPlaced ch doc hash st st' item h
          (subst (λ n. send_to_worker ch hash st n item ≡ some st') (sym own) e);
  }

  pub metrics_only : (st : AppState J Q) (m : Metrics) → IsOwn st (record st { metrics = m })
  metrics_only st m = record {
    others = λ j ne. refl;
    keyed = λ h. h;
    own_updates = ([], sym (append-nil st.sent), tt);
    workers = refl;
    placed = λ h. h;
  }

  pub touch-IsOwn :
      (st : AppState J Q) (m : Metrics) (hb : Heartbeat) (o : Option (NodeInfo J))
      → lookup me st.nodes ≡ o
      → IsOwn st (record st { nodes = touch me hb o st.nodes; metrics = m })
  touch-IsOwn st m hb none e = metrics_only st m
  touch-IsOwn st m hb (some n) e =
      let n' = record n { last_seen_ms = hb.timestamp_ms; status = online } in
      record {
        others = λ j ne. lookup-insert_ne me j n' st.nodes ne;
        keyed = λ key. insert-IsKeyed me n' st.nodes (key me n e) key;
        own_updates = ([], sym (append-nil st.sent), tt);
        workers = refl;
        placed = λ h. h;
      }
