-- ===== src/Server/Api/Nodes.antt =====
-- The registry as a cache of the database, in the handler of one node.
use hakuraku.Prelude.{
  ◌≡◌, ◌≢◌, refl, sym, ap, ◌∙◌, Bool, true, false, Option, none, some, Text, lookup,
  lookup-insert_self, Result, ok, err, Bool-cases, Option-cases, inl, inr,
}
use hakuraku.Server.State.{AppState, NodeInfo}
use hakuraku.Server.Db.{Database, NodeEntry, DbError, row_of, info_of_row}
use hakuraku.Server.Db
use hakuraku.Server.Api.{
  StatusCode, bad_request, not_found, internal_server_error, Unicode, is_valid_node_id,
}
use hakuraku.Server.Api.Handlers.{Body, node_body, get_node, from_registry, from_database}

bad-ne-ok : {J : Type 0} (n : NodeInfo J) → err bad_request ≢ ok (node_body n)
bad-ne-ok n h = cc

-- What the answer is from the registry, or else from the database.
abbrev pub expected :
    {J : Type 0} → Bool → Option (NodeInfo J) → Option (NodeInfo J) → Result StatusCode (Body J)
expected answers (some n) row = ok (node_body n)
expected false none row = err internal_server_error
expected true none none = err not_found
expected true none (some n) = ok (node_body n)

module _ {J Q : Type 0} (u : Unicode) where
  -- The answer to a request for a node, and the registry after it.
  abbrev pub answer : Bool → AppState J Q → Database J → Text → Result StatusCode (Body J)
  answer answers st db node_id = (get_node u answers st db node_id).2.res

  abbrev pub app_after : Bool → AppState J Q → Database J → Text → AppState J Q
  app_after answers st db node_id = (get_node u answers st db node_id).0

  valid_outcome :
      (answers : Bool) (st : AppState J Q) (db : Database J) (node_id : Text)
      → is_valid_node_id u node_id ≡ true
      → (answer answers st db node_id
          ≡ (from_registry answers st db node_id (lookup node_id st.nodes)).2)
        × (app_after answers st db node_id
            ≡ (from_registry answers st db node_id (lookup node_id st.nodes)).0)
  unfolding get_node
  valid_outcome answers st db node_id v = (rw (answer, v) refl, rw (app_after, v) refl)

  get_node_refused :
      (answers : Bool) (st : AppState J Q) (db : Database J) (node_id : Text)
      → is_valid_node_id u node_id ≡ false
      → answer answers st db node_id ≡ err bad_request
  unfolding get_node
  get_node_refused answers st db node_id v = rw (answer, v) refl

  row_kept :
      (st : AppState J Q) (db : Database J) (node_id : Text) (o : Option NodeEntry) (n : NodeInfo J)
      → expected true none (row_of db node_id o) ≡ ok (node_body n)
      → lookup node_id (from_database st (ok (row_of db node_id o))).0.nodes ≡ some n
  unfolding info_of_row
  row_kept st db node_id none n h = cc
  row_kept st db node_id (some m) n h = lookup-insert_self node_id _ st.nodes ∙ cc

  -- The registry's entry or else the database's row, and the registry after a node was found.
  from_registry_lem :
      (answers : Bool) (st : AppState J Q) (db : Database J) (node_id : Text)
      (o : Option (NodeInfo J))
      → lookup node_id st.nodes ≡ o
      → ((from_registry answers st db node_id o).2
          ≡ expected answers o (row_of db node_id (lookup node_id db.nodes)))
        × ((n : NodeInfo J)
            → expected answers o (row_of db node_id (lookup node_id db.nodes)) ≡ ok (node_body n)
            → lookup node_id (from_registry answers st db node_id o).0.nodes ≡ some n)
  unfolding Db.get_node info_of_row
  from_registry_lem answers st db node_id (some m) e = (refl, λ n h. e ∙ cc)
  from_registry_lem false st db node_id none e = (refl, λ n h. cc)
  from_registry_lem true st db node_id none e = elim (Option-cases (lookup node_id db.nodes)) [
    | inl missing ↦ (rw missing refl, λ n h. row_kept st db node_id _ n h)
    | inr (m, stored) ↦ (rw stored refl, λ n h. row_kept st db node_id _ n h)
  ]

  get_node_registered :
      (answers : Bool) (st : AppState J Q) (db : Database J) (node_id : Text) (n : NodeInfo J)
      → is_valid_node_id u node_id ≡ true
      → lookup node_id st.nodes ≡ some n
      → (answer answers st db node_id ≡ ok (node_body n)) × (app_after answers st db node_id ≡ st)
  get_node_registered answers st db node_id n v e =
      let (said, app) = valid_outcome answers st db node_id v in
      (
        said ∙ ap (λ o. (from_registry answers st db node_id o).2) e,
        app ∙ ap (λ o. (from_registry answers st db node_id o).0) e,
      )

  -- A request for a valid name is answered by the registry's entry, or else by the database's row,
  -- with "not found" where neither has the node and a server error where the database does not
  -- answer; any other name is a bad request. A node that was answered is answered the same the next
  -- time, whatever the database then holds and whether it answers, by an unchanged registry.
  pub get_node_cached :
      (answers answers' : Bool) (st : AppState J Q) (db db' : Database J) (node_id : Text)
      → (is_valid_node_id u node_id ≡ true
          → answer answers st db node_id
            ≡ expected answers
                (lookup node_id st.nodes)
                (row_of db node_id (lookup node_id db.nodes)))
        × (is_valid_node_id u node_id ≡ false → answer answers st db node_id ≡ err bad_request)
        × ((n : NodeInfo J)
            → answer answers st db node_id ≡ ok (node_body n)
            → (answer answers' (app_after answers st db node_id) db' node_id ≡ ok (node_body n))
              × (app_after answers' (app_after answers st db node_id) db' node_id
                  ≡ app_after answers st db node_id))
  get_node_cached answers answers' st db db' node_id =
      let (said, kept) = from_registry_lem answers st db node_id (lookup node_id st.nodes) refl in
      (
        λ v. (valid_outcome answers st db node_id v).0 ∙ said,
        get_node_refused answers st db node_id,
        λ n h. elim (Bool-cases (is_valid_node_id u node_id)) [
          | inl v ↦
              let (here, app) = valid_outcome answers st db node_id v in
              get_node_registered answers' (app_after answers st db node_id) db' node_id n v
                (ap (λ a. lookup node_id a.nodes) app ∙ kept n (sym said ∙ (sym here ∙ h)))
          | inr v ↦ absurd (bad-ne-ok n (sym (get_node_refused answers st db node_id v) ∙ h))
        ],
      )
