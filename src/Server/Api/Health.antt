-- ===== src/Server/Api/Health.antt =====
-- pulse-server/src/api.rs: the handlers that read neither registry nor database. The version of the
-- build and the text format of the prometheus crate are arguments.
use hakuraku.Prelude.{List, [], ◌∷◌, Text, codes, Result, ok, err}
use hakuraku.Core.Auth.{Bytes}

unfoldable pub health_check : Text → List (Text × Text)
health_check version =
    (codes "status", codes "ok")
    ∷ (codes "service", codes "pulse-server")
    ∷ (codes "version", version)
    ∷ []

unfoldable pub liveness_check : Text → List (Text × Text)
liveness_check version =
    (codes "status", codes "ok")
    ∷ (codes "service", codes "pulse-server")
    ∷ (codes "version", version)
    ∷ []

pub record Exposition : Type 0 where
  pub status : Text
  pub content_type : Text
  pub body : Bytes

-- `encoded` is what the encoder makes of the gathered families.
unfoldable pub metrics_handler : Result Text Bytes → Exposition
metrics_handler (ok buffer) = record {
  status = codes "200";
  content_type = codes "text/plain; version=0.0.4; charset=utf-8";
  body = buffer;
}
metrics_handler (err e) = record {
  status = codes "500";
  content_type = codes "text/plain; charset=utf-8";
  body = [];
}
