-- ===== src/Server/Router/Tests.antt =====
-- Requests with and without the token, on a router that compares the whole path.
use hakuraku.Prelude.{
  ℕ, true, [], none, some, codes, text_eq, lookup, ok, ◌≡◌, refl, split_on, strip_prefix, trim,
  is_whitespace,
}
use hakuraku.Server.State.{AppState}
use hakuraku.Server.Toys.{Items}
use hakuraku.Server.Db.{Database}
use hakuraku.Server.Api.{
  Unicode, unauthorized, from_request_parts, validate_token, bytes, token_of, difference,
}
use hakuraku.Server.Router.{Request, Axum, refuses, Context, handle, respond, count_unauthorized}
use hakuraku.Server.Router.Guarded.{IsGuarded, respond-IsGuarded}

abbrev literal : Axum
literal = record {
  find = λ rs path. lookup path rs;
  is_get = text_eq (codes "GET");
  path_id = ok;
  history_query = λ q. ok (none, none);
  ws_query = λ q. ok none;
  upgrade = λ req. ok tt;
}

abbrev ascii : Unicode
ascii = record { is_alphanumeric = λ c. true; to_lowercase = λ s. s }

abbrev running : Context
running = record {
  secret = some (codes "key");
  version = codes "1";
  clock = some 7;
  answers = true;
  encoded = ok [];
}

abbrev st : AppState ℕ Items
st = record {
  sent = [];
  nodes = [];
  worker_txs = [];
  metrics = record { auth_failures = []; grpc_messages = []; ingestion_drops = 0; db_errors = [] };
}

abbrev db : Database ℕ
db = record { nodes = []; snapshots = []; probe_results = []; db_errors = []; tie = λ r x. true }

abbrev anonymous : Request
anonymous = record {
  method = codes "GET";
  path = codes "/api/v1/nodes";
  parts = record { authorization = none; auth_token = none; query = some (codes "token=kex") };
}

refused :
    respond literal ascii running anonymous st db
    ≡ (count_unauthorized st, db, refuses unauthorized)
unfolding respond handle lookup text_eq from_request_parts validate_token bytes token_of difference
    split_on strip_prefix trim is_whitespace
refused = refl

respond-IsGuarded_example :
    IsGuarded running.secret anonymous st db (respond literal ascii running anonymous st db)
respond-IsGuarded_example = respond-IsGuarded literal ascii running anonymous st db
