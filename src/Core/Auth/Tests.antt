-- ===== src/Core/Auth/Tests.antt =====
-- The theorems on authentication at concrete requests, with toy crates that keep what is documented.
use hakuraku.Prelude.{
  ℕ, zero, suc, ◌+◌, ◌≡◌, ◌≢◌, refl, ◌∙◌, ap, true, false, [], ◌∷◌, ◌++◌, Option, none, some, Text,
  codes, text_eq, text_eq_iff, ◌==◌, lookup, pos, negsuc, sub_i64, abs_i64, parse_signed, print_i64,
  ok, arith, All, IsVisible,
}
use hakuraku.Core.Auth.{
  Bytes, Crates, IsDocumented, Request, AuthInterceptor, Claim, message, check_fresh, contains,
  purge, insert_nonce, check_and_insert, now_or_zero, new_interceptor, new_tracker, verify_request,
  extract_header, generate_nonce,
}
use hakuraku.Core.Auth.Interceptor.{
  id_key, timestamp_key, nonce_key, signature_key, Readings, read_claim, verify_claim, call,
  check_nonce, inject_auth_headers, grpc_intercept,
}
use hakuraku.Server.Grpc.{authenticated_node_id}
use hakuraku.Server.Grpc.Identity.{authenticated_node_id-call}
use hakuraku.Core.Auth.Verify.{check_fresh_overflow, IsGenuine, call_sound}
use hakuraku.Core.Auth.RoundTrip.{call-inject_auth_headers}
use hakuraku.Core.Auth.Replay.{calls, replay_refused, replay_after_purge, grpc_intercept_replay}

-- Each number in unary, closed by an 'x'.
encode_one : ℕ → Text → Text
encode_one zero rest = b'x' ∷ rest
encode_one (suc n) rest = b'1' ∷ encode_one n rest

encode : Bytes → Text
unfolding encode_one
encode [] = []
encode (n ∷ b) = encode_one n (encode b)

abbrev prepend : ℕ → Option Bytes → Option Bytes
prepend n none = none
prepend n (some b) = some (n ∷ b)

decode_from : ℕ → Text → Option Bytes
decode_from n [] = some []
decode_from n (c ∷ s) = elim (c == b'1') [
  | true ↦ decode_from (suc n) s
  | false ↦ prepend n (decode_from 0 s)
]

decode_from-encode_one :
    (k n : ℕ) (rest : Text)
    → decode_from k (encode_one n rest) ≡ prepend (n + k) (decode_from 0 rest)
unfolding decode_from encode_one
decode_from-encode_one k zero rest = ap (λ m. prepend m (decode_from 0 rest)) (omega arith)
decode_from-encode_one k (suc n) rest =
    decode_from-encode_one (suc k) n rest ∙ ap (λ m. prepend m (decode_from 0 rest)) (omega arith)

decode-encode : (b : Bytes) → decode_from 0 (encode b) ≡ some b
unfolding encode decode_from
decode-encode [] = refl
decode-encode (n ∷ b) =
    decode_from-encode_one 0 n (encode b)
    ∙ rw (decode-encode b) (ap (λ m. some (m ∷ b)) (omega arith))

encode_one-IsVisible :
    (n : ℕ) (rest : Text) → All IsVisible rest → All IsVisible (encode_one n rest)
unfolding encode_one
encode_one-IsVisible zero rest h = (omega arith, h)
encode_one-IsVisible (suc n) rest h = (omega arith, encode_one-IsVisible n rest h)

encode-IsVisible : (b : Bytes) → All IsVisible (encode b)
unfolding encode
encode-IsVisible [] = tt
encode-IsVisible (n ∷ b) = encode_one-IsVisible n (encode b) (encode-IsVisible b)

abbrev toy : Crates
toy = record {
  key_ok = λ k. true;
  tag = λ k m. k ++ m;
  verify_slice = λ k m t. text_eq (k ++ m) t;
  digest = λ s. s;
  encode = encode;
  decode = decode_from 0;
  from_str = λ s. some s;
  to_str = λ v. some v;
}

toy-IsDocumented : IsDocumented toy
toy-IsDocumented = record {
  any_key = λ k. refl;
  verify_iff = λ k m t. text_eq_iff (k ++ m) t;
  decode-encode = decode-encode;
  encode-IsVisible = encode-IsVisible;
  to_str-from_str = λ s h. (s, refl, refl);
}

program : Unit {0}
unfolding call read_claim extract_header verify_claim verify_request check_fresh check_nonce
    check_and_insert insert_nonce purge contains now_or_zero message sub_i64 abs_i64 print_i64
    parse_signed lookup text_eq encode decode_from grpc_intercept new_interceptor new_tracker
program = tt

abbrev secret : Bytes
secret = 1 ∷ 2 ∷ []

abbrev interceptor : AuthInterceptor
interceptor = record {
  secret = secret;
  tracker = record { nonces = []; last_purge = pos 1000 };
  poisoned = false;
}

-- What node-1 signs at second 1110 with the nonce "11x".
abbrev claim : Claim
claim = record {
  node_id = codes "node-1";
  timestamp = pos 1110;
  nonce = codes "11x";
  signature = encode (secret ++ codes "node-1:1110:11x");
}

abbrev request : Request
request =
    (id_key, codes "node-1")
    ∷ (timestamp_key, codes "1110")
    ∷ (nonce_key, codes "11x")
    ∷ (signature_key, encode (secret ++ codes "node-1:1110:11x"))
    ∷ []

abbrev at : ℕ → Readings
at s = record { verifying = some s; tracking = some s }

accepted : (call toy interceptor (at 1115) request).1 ≡ ok request
unfolding program
accepted = refl

check_fresh_overflow_example : check_fresh (some 1115) (negsuc 9223372036854774692) ≡ ok tt
check_fresh_overflow_example = check_fresh_overflow 1115 (omega arith)

call_sound_example :
    (c : Claim) × (read_claim toy request ≡ ok c)
    × IsGenuine toy toy-IsDocumented secret (some 1115) c
    × (contains c.nonce (purge interceptor.tracker (now_or_zero (some 1115))).nonces ≡ false)
    × ((call toy interceptor (at 1115) request).0 ≡ record interceptor {
      tracker = (insert_nonce (purge interceptor.tracker (now_or_zero (some 1115))) c.nonce).0;
    })
    × (request ≡ request)
    × (interceptor.poisoned ≡ false)
call_sound_example = call_sound toy toy-IsDocumented interceptor (at 1115) request request accepted

call-inject_auth_headers_example :
    (r : Request) × (inject_auth_headers toy secret
        (codes "node-1")
        []
        (some 1110)
        (generate_nonce toy (some (2 ∷ [])) (codes "seed"))
      ≡ some (ok r))
    × ((call toy interceptor (at 1115) r).1 ≡ ok r)
unfolding contains
call-inject_auth_headers_example =
    call-inject_auth_headers toy toy-IsDocumented interceptor (codes "node-1") [] (some (2 ∷ []))
      (codes "seed") 1110 1115 (some 1115) (omega arith) (omega arith) (omega arith) (omega arith)
      (omega arith) refl refl

replay_refused_example :
    (call toy
      (calls toy (call toy interceptor (at 1115) request).0 ((at 1116, []) ∷ []))
      (at 1117)
      request).1
    ≢ ok request
unfolding program
replay_refused_example =
    replay_refused toy toy-IsDocumented interceptor (at 1115) (at 1117) request request request
      ((at 1116, []) ∷ []) accepted (refl, tt) refl

-- Accepted at second 1115, and again at second 1121.
replay_after_purge_example :
    (call toy (call toy interceptor (at 1115) request).0 (at 1121) request).1 ≡ ok request
unfolding program
replay_after_purge_example =
    replay_after_purge toy toy-IsDocumented interceptor (at 1115) (at 1121) request request claim
      accepted refl refl refl

grpc_intercept_replay_example :
    grpc_intercept toy secret (some 1116) (at 1116) request 5 ≡ (ok request, 5)
unfolding program
grpc_intercept_replay_example =
    grpc_intercept_replay toy toy-IsDocumented secret (some 1115) (some 1116) (at 1115) (at 1116)
      request request claim 4 5 refl refl refl

authenticated_node_id-call_example :
    (x : Claim) × (read_claim toy request ≡ ok x)
    × (authenticated_node_id toy request ≡ ok x.node_id)
    × IsGenuine toy toy-IsDocumented secret (some 1115) x
authenticated_node_id-call_example =
    authenticated_node_id-call toy toy-IsDocumented interceptor (at 1115) request request accepted
