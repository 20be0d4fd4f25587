-- ===== src/Server/Api/Tests.antt =====
-- The handlers at concrete requests, with the Unicode tables of a small alphabet.
use mathlib.Core.List.{Perm}
use hakuraku.Prelude.{
  map, min, max, ℕ, ◌++◌, ◌<◌, ◌≡◌, ◌≢◌, ◌↔◌, ◌⊎◌, refl, true, false, ◌||◌, ◌==◌, List, [], ◌∷◌,
  none, some, codes, lookup, length, keep_if, pos, sub_i64, ◌≤ℤ◌, ok, err, arith, All, trim,
  split_on, text_eq, is_whitespace, mul_i64, parse_signed,
}
use hakuraku.Server.State.{AppState, NodeInfo}
use hakuraku.Server.Toys.{Items}
use hakuraku.Server.Db.{Database, SnapshotRecord, row_of, snapshots_of, in_range}
use hakuraku.Server.Db.Queries.{IsDesc, IsAsked}
use hakuraku.Server.Grpc.{now_ms}
use hakuraku.Server.Api.{
  Unicode, IsUnicode, ascii_alphanumeric, Parts, after_prefix, token_of, from_request_parts,
  unauthorized, bad_request, is_valid_node_id, ascii_lowercase, split_range, split_at, scale,
  parse_range_to_ms,
}
use hakuraku.Server.Api.Token.{IsOffered, from_request_parts_iff}
use hakuraku.Server.Api.Handlers.{node_body, history_body, get_node_history, reply, history_route}
use hakuraku.Server.Api.Nodes.{answer, app_after, expected, get_node_cached}
use hakuraku.Server.Api.History.{
  get_node_history_total, get_node_history_panics, get_node_history_newest,
}

-- ASCII and the letter é.
abbrev letters : Unicode
letters = record {
  is_alphanumeric = λ c. ascii_alphanumeric c || (c == 233);
  to_lowercase = map ascii_lowercase;
}

ascii_only : (c : ℕ) → c < 128 → (ascii_alphanumeric c || (c == 233)) ≡ ascii_alphanumeric c
ascii_only c h = ground arith

letters-IsUnicode : IsUnicode letters
letters-IsUnicode = record { alphanumeric_ascii = ascii_only; lowercase_ascii = λ s h. refl }

abbrev db : Database ℕ
db = record {
  nodes =
      (codes "a", record { hostname = codes "h"; last_seen = pos 5; status = codes "online" }) ∷ [];
  snapshots = record { node_id = codes "a"; timestamp = pos 9; stats_json = 3 } ∷ [];
  probe_results = [];
  db_errors = [];
  tie = λ r x. true;
}

abbrev app : AppState ℕ Items
app = record {
  sent = [];
  nodes = [];
  worker_txs = [];
  metrics = record { auth_failures = []; grpc_messages = []; ingestion_drops = 0; db_errors = [] };
}

abbrev request : Parts
request = record { authorization = none; auth_token = none; query = some (codes "x=1&token=key") }

from_request_parts_iff_example :
    ((from_request_parts (some (codes "key")) request ≡ (ok tt, false)) ↔ (
      IsOffered (codes "key") (after_prefix (codes "Bearer ") none)
      ⊎ (IsOffered (codes "key") none
          ⊎ IsOffered (codes "key") (token_of (split_on b'&' (codes "x=1&token=key"))))))
    × ((from_request_parts (some (codes "key")) request ≡ (ok tt, false))
        ⊎ (from_request_parts (some (codes "key")) request ≡ (err unauthorized, true)))
from_request_parts_iff_example = from_request_parts_iff (codes "key") request

get_node_cached_example :
    (is_valid_node_id letters (codes "a") ≡ true
      → answer letters true app db (codes "a")
        ≡ expected true none (row_of db (codes "a") (lookup (codes "a") db.nodes)))
    × (is_valid_node_id letters (codes "a") ≡ false
        → answer letters true app db (codes "a") ≡ err bad_request)
    × ((n : NodeInfo ℕ)
        → answer letters true app db (codes "a") ≡ ok (node_body n)
        → (answer letters false (app_after letters true app db (codes "a")) db (codes "a")
            ≡ ok (node_body n))
          × (app_after letters false (app_after letters true app db (codes "a")) db (codes "a")
              ≡ app_after letters true app db (codes "a")))
unfolding lookup
get_node_cached_example = get_node_cached letters true false app db db (codes "a")

get_node_history_total_example :
    get_node_history letters true (some 10) db (codes "a") (codes "2h") (pos 5) ≢ none
get_node_history_total_example =
    get_node_history_total letters letters-IsUnicode true (some 10) db (codes "a") (codes "2h")
      (pos 5) (omega arith, (omega arith, tt))

get_node_history_panics_example :
    get_node_history letters true (some 10) db (codes "a") (codes "é") (pos 5) ≡ none
unfolding is_valid_node_id text_eq is_whitespace
get_node_history_panics_example =
    get_node_history_panics letters (some 10) db (codes "a") (pos 5) true 233 refl (omega arith)
      refl refl refl

get_node_history_newest_example :
    (rows cut : List (SnapshotRecord ℕ)) × (get_node_history letters true
        (some 3600010)
        db
        (codes "a")
        (codes "1h")
        (pos 5)
      ≡ some (
        db,
        reply history_route (
            ok (
              history_body
                (codes "a")
                (codes "1h")
                (sub_i64 (now_ms (some 3600010)) (pos 3600000))
                (now_ms (some 3600010))
                (length rows)
                rows)),
      ))
    × IsDesc rows
    × (length rows ≡ min (max 1 (min 5 1000)) (length (rows ++ cut)))
    × All
        (IsAsked
          (codes "a")
          (sub_i64 (now_ms (some 3600010)) (pos 3600000))
          (now_ms (some 3600010)))
        rows
    × All (λ kept. All (λ row. row.timestamp ≤ℤ kept.timestamp) cut) rows
    × Perm (rows ++ cut) (
        keep_if
          (in_range (sub_i64 (now_ms (some 3600010)) (pos 3600000)) (now_ms (some 3600010)))
          (snapshots_of (codes "a") db))
unfolding is_valid_node_id parse_range_to_ms text_eq split_range split_at trim is_whitespace scale
    mul_i64 parse_signed
get_node_history_newest_example =
    get_node_history_newest letters (some 3600010) db (codes "a") (pos 5) (codes "1h") (pos 3600000)
      refl refl refl
