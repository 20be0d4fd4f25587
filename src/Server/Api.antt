-- ===== src/Server/Api.antt =====
-- pulse-server/src/api.rs: the token check, the query parameters and the handlers. The Unicode
-- tables of `char` are the parameter `Unicode`. A handler's result is a JSON body or a status code;
-- the counters of requests and durations are left out.
pub mod Token
pub mod Handlers
pub mod Health
pub mod Nodes
pub mod History
mod Tests
use Prim.Native.Nat.{bit_or, bit_xor}
use hakuraku.Prelude.{
  All, map, ℕ, ◌+◌, ◌-◌, ◌*◌, ◌/◌, ◌%◌, ◌≡◌, ◌<◌, Bool, true, false, not, ◌&&◌, ◌||◌, List, [], ◌∷◌,
  ◌++◌, Option, none, some, map, Text, codes, text_eq, lookup, insert, length, all, ℤ, pos, sub_i64,
  mul_i64, ltb_ℤ, as_i64, parse_i64, trim, split_on, strip_prefix, len, utf8_width, Result, ok, err,
  ltb, leb, ◌==◌, if◌then◌else◌,
}
use hakuraku.Core.Auth.{Bytes}
use hakuraku.Server.State.{NodeInfo}
use hakuraku.Server.Db.{Database, SnapshotRecord, get_node, get_snapshots}
use hakuraku.Server.Grpc.{now_ms}

pub data StatusCode : Type 0 where
  bad_request unauthorized not_found internal_server_error service_unavailable : StatusCode

-- `char::is_alphanumeric` and `str::to_lowercase`, and what they say of ASCII.
pub record Unicode : Type 0 where
  pub is_alphanumeric : ℕ → Bool
  pub to_lowercase : Text → Text

abbrev pub ascii_alphanumeric : ℕ → Bool
ascii_alphanumeric c =
    (leb b'0' c && leb c b'9') || (leb b'A' c && leb c b'Z') || (leb b'a' c && leb c b'z')

abbrev pub ascii_lowercase : ℕ → ℕ
ascii_lowercase c = if leb b'A' c && leb c b'Z' then c + 32 else c

pub record IsUnicode (u : Unicode) : Type 0 where
  pub alphanumeric_ascii : (c : ℕ) → c < 128 → u.is_alphanumeric c ≡ ascii_alphanumeric c
  pub lowercase_ascii : (s : Text) → All (λ c. c < 128) s → u.to_lowercase s ≡ map ascii_lowercase s

-- The UTF-8 bytes of a text.
abbrev pub utf8 : ℕ → Bytes
utf8 c =
    if ltb c 128
    then c ∷ []
    else if ltb c 2048
    then (192 + c / 64) ∷ (128 + c % 64) ∷ []
    else if ltb c 65536
    then (224 + c / 4096) ∷ (128 + c / 64 % 64) ∷ (128 + c % 64) ∷ []
    else (240 + c / 262144) ∷ (128 + c / 4096 % 64) ∷ (128 + c / 64 % 64) ∷ (128 + c % 64) ∷ []

unfoldable pub bytes : Text → Bytes
bytes [] = []
bytes (c ∷ s) = utf8 c ++ bytes s

-- The loop over the two byte strings, which ends with the shorter.
unfoldable pub difference : ℕ → Bytes → Bytes → ℕ
difference equal [] bs = equal
difference equal (a ∷ as') [] = equal
difference equal (a ∷ as') (b ∷ bs) = difference (bit_or equal (bit_xor a b)) as' bs

unfoldable pub validate_token : Text → Text → Bool
unfolding difference
validate_token token expected =
    if not (length (bytes token) == length (bytes expected))
    then false
    else difference 0 (bytes token) (bytes expected) == 0

-- The parts of a request that the extractor reads. A header that is no text reads as absent.
pub record Parts : Type 0 where
  pub authorization : Option Text
  pub auth_token : Option Text
  pub query : Option Text

abbrev pub passes : Text → Option Text → Bool
passes secret none = false
passes secret (some token) = validate_token (trim token) secret

abbrev pub after_prefix : Text → Option Text → Option Text
after_prefix p none = none
after_prefix p (some s) = strip_prefix p s

-- The first pair that starts with `token=`.
unfoldable pub token_of : List Text → Option Text
token_of [] = none
token_of (p ∷ ps) = elim (strip_prefix (codes "token=") p) [ some v ↦ some v | none ↦ token_of ps ]

abbrev pub query_text : Option Text → Text
query_text none = []
query_text (some q) = q

-- The secret of the environment, if it is set. The flag is that AUTH_FAILURES is raised.
unfoldable pub from_request_parts : Option Text → Parts → Result StatusCode (Unit {0}) × Bool
from_request_parts none parts = (err internal_server_error, false)
from_request_parts (some secret) parts =
    if passes secret (after_prefix (codes "Bearer ") parts.authorization)
    then (ok tt, false)
    else if passes secret parts.auth_token
    then (ok tt, false)
    else if passes secret (token_of (split_on b'&' (query_text parts.query)))
    then (ok tt, false)
    else (err unauthorized, true)

unfoldable pub is_valid_node_id : Unicode → Text → Bool
is_valid_node_id u node_id =
    (not (text_eq node_id []) && leb (len node_id) 64)
    && all (λ c. u.is_alphanumeric c || (c == b'-') || (c == b'_')) node_id

-- `split_at` at a byte; `none` is the panic inside a character.
unfoldable pub split_at : Text → ℕ → Option (Text × Text)
split_at [] n = if n == 0 then some ([], []) else none
split_at (c ∷ s) n =
    let rest = split_at s (n - utf8_width c) in
    if n == 0
    then some ([], c ∷ s)
    else if ltb n (utf8_width c)
    then none
    else elim rest [ none ↦ none | some (front, back) ↦ some (c ∷ front, back) ]

abbrev number_or_one : Option ℤ → ℤ
number_or_one none = pos 1
number_or_one (some n) = n

-- The unit at the end of the range, and the milliseconds.
unfoldable pub scale : Text × Text → ℤ
scale (num_text, unit) =
    let num = number_or_one (parse_i64 num_text) in
    if text_eq unit (codes "m")
    then mul_i64 (mul_i64 num (pos 60)) (pos 1000)
    else if text_eq unit (codes "h")
    then mul_i64 (mul_i64 num (pos 3600)) (pos 1000)
    else if text_eq unit (codes "d")
    then mul_i64 (mul_i64 num (pos 86400)) (pos 1000)
    else pos 3600000

-- The number and the unit, from the trimmed range in lower case.
unfoldable pub split_range : Text → Option ℤ
split_range low = elim (split_at low (len low - 1)) [
  | none ↦ none
  | some parts ↦ some (scale parts)
]

-- `none` is the panic of `split_at`.
unfoldable pub parse_range_to_ms : Unicode → Text → Option ℤ
parse_range_to_ms u range = split_range (u.to_lowercase (trim range))

-- `limit.clamp(1, 1000)`.
unfoldable pub clamp_limit : ℤ → ℤ
clamp_limit limit =
    if ltb_ℤ limit (pos 1) then pos 1 else if ltb_ℤ (pos 1000) limit then pos 1000 else limit
