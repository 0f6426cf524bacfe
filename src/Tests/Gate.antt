-- ===== src/Tests/Gate.antt =====
-- Witnesses for the middleware and the amounts.
use lending_bank_gateway.Prelude.{
  ◌+◌, ◌^◌, ◌≤◌, ◌<◌, ◌≡◌, ◌⊎◌, refl, true, false, String, none, some, [], ◌∷◌, All, inl, inr,
  arith,
}
use lending_bank_gateway.Prelude.Text.{strip}
use lending_bank_gateway.Json.Value.{negsuc, text, array, object, nil, cons, end, field}
use lending_bank_gateway.Gate.{checked, handle}
use lending_bank_gateway.Gate.Tokens.{Tokens, parse_caller_tokens}
use lending_bank_gateway.Gate.Tokens.Print.{IsEntry, print, parse_caller_tokens-print}
use lending_bank_gateway.Gate.SvcJwt.{Keyring, JwtSettings, Cache, verify}
use lending_bank_gateway.Gate.SvcJwt.Sound.{IsCache, Verifies, verify-Verifies}
use lending_bank_gateway.Gate.Ids.{
  Request, is_correlation_id, all_id_chars, identify, request_target_bytes,
}
use lending_bank_gateway.Gate.Ids.Safe.{IsHex, identify-is_correlation_id}
use lending_bank_gateway.Gate.S2s.{Guardian, passed}
use lending_bank_gateway.Gate.S2s.Admission.{Admitted}
use lending_bank_gateway.Gate.Passing.{handle-Admitted}
use lending_bank_gateway.Amounts.{
  finite, guarded, guard_error, over_capacity, quantized, parse_guarded_decimal,
}
use lending_bank_gateway.Amounts.Capacity.{parse_guarded_decimal_fits}
use lending_bank_gateway.Guards.Amount.{parse_amount}
use lending_bank_gateway.Guards.Amount.Exact.{IsStored, parse_amount-IsStored}

abbrev more_tokens : Tokens
more_tokens = ("b", "y") ∷ []

abbrev tokens : Tokens
tokens = ("a", "x") ∷ more_tokens

clean : All IsEntry tokens
unfolding strip
clean = (
  ((refl, refl, (refl, tt)), (refl, refl, (refl, tt)), (refl, tt)),
  (((refl, refl, (refl, tt)), (refl, refl, (refl, tt)), (refl, tt)), tt),
)

parse_caller_tokens-print_example : parse_caller_tokens (print ("a", "x") more_tokens) ≡ some tokens
parse_caller_tokens-print_example =
    parse_caller_tokens-print ("a", "x") more_tokens clean (refl, (refl, tt))

abbrev ring : Keyring (Unit {0})
ring = record {
  header = λ t. some (record { alg = some "RS256"; kid = some "k1" });
  fetch = λ now. some (
      object "{…}"
        (field "keys" (array "[…]" (cons (object "{…}" (field "kid" (text "k1") end)) nil)) end));
  from_jwk = λ j. some tt;
  decode = λ t k aud iss leeway. some end;
}

abbrev jwt_settings : JwtSettings
jwt_settings = record { audience = "bank-gateway"; issuer = "bff"; cache_ttl = 300; leeway = 30 }

abbrev new_cache : Cache
new_cache = record { keys = []; expire_at = 0 }

verify-Verifies_example :
    IsCache ring jwt_settings (verify ring jwt_settings 1000 1001 (λ c. c) "token" new_cache).1
    × Verifies ring jwt_settings 1000 1001
        (λ c. c)
        (omega arith)
        (omega arith)
        (λ c h. h)
        "token"
        (verify ring jwt_settings 1000 1001 (λ c. c) "token" new_cache).0
verify-Verifies_example =
    verify-Verifies ring jwt_settings 1000 1001 (λ c. c) (omega arith) (omega arith) (λ c h. h)
      "token" new_cache (inl refl)

abbrev hex : String
hex = "0123456789abcdef0123456789abcdef"

hex-IsHex : IsHex hex
unfolding all_id_chars
hex-IsHex = record { length = refl; chars = refl }

abbrev asking : Request
asking = record {
  path = "/api/v1/loans/";
  path_bytes = 14;
  raw_path_bytes = 14;
  query_bytes = 0;
  trace_id = some "<script>";
  request_id = some "req 1";
  tenant_id = some "bank-a";
  biz_seq_no = none;
  apikey = none;
  caller_service = some "a";
  s2s_token = some "x";
  authorization = none;
}

abbrev guard : Guardian
guard = record {
  secret = some "shared";
  exempt_paths = "/healthz" ∷ [];
  allowed_callers = none;
  caller_tokens = some tokens;
  callback_paths = [];
  callback_api_key = none;
  verifier = none;
}

identify-is_correlation_id_example :
    (is_correlation_id (identify hex hex hex hex asking).trace_id ≡ true)
    × (is_correlation_id (identify hex hex hex hex asking).safe_request_id ≡ true)
    × ((identify hex hex hex hex asking).request_id ≡ some "req 1")
identify-is_correlation_id_example =
    identify-is_correlation_id hex hex hex hex asking hex-IsHex hex-IsHex hex-IsHex hex-IsHex

lets_through : (handle guard hex hex hex hex asking).1 ≡ checked (passed (some true))
unfolding handle
lets_through = refl

handle-Admitted_example :
    (request_target_bytes asking ≤ 8192)
    × Admitted guard (identify hex hex hex hex asking) asking (some true)
handle-Admitted_example = handle-Admitted guard hex hex hex hex asking (some true) lets_through

-- the largest amount, and one that is rounded up beyond it
parse_guarded_decimal_fits_example :
    ((parse_guarded_decimal 17 4 (some (finite false 9999999999999999999995 (negsuc 4)))
        ≡ guarded (finite false 9999999999999999999995 (negsuc 4)))
      × (quantized 4 9999999999999999999995 (negsuc 4) < 10 ^ (17 + 4)))
    ⊎ ((parse_guarded_decimal 17 4 (some (finite false 9999999999999999999995 (negsuc 4)))
          ≡ guard_error over_capacity)
        × (10 ^ (17 + 4) ≤ quantized 4 9999999999999999999995 (negsuc 4)))
parse_guarded_decimal_fits_example =
    parse_guarded_decimal_fits 17 4 9999999999999999999995 false (negsuc 4)

takes :
    parse_amount (some (finite false 12345 (negsuc 1))) (some "usd")
    ≡ inr (finite false 12345 (negsuc 1))
unfolding parse_amount
takes = refl

parse_amount-IsStored_example :
    IsStored (some (finite false 12345 (negsuc 1))) (finite false 12345 (negsuc 1))
parse_amount-IsStored_example =
    parse_amount-IsStored (some (finite false 12345 (negsuc 1))) (some "usd")
      (finite false 12345 (negsuc 1)) takes

-- 1 and a 28th decimal place: the rounding of `normalize` hides the place from the test of the scale
takes_too_many_places :
    parse_amount (some (finite false 10000000000000000000000000001 (negsuc 27))) (some "USD")
    ≡ inr (finite false 10000000000000000000000000001 (negsuc 27))
unfolding parse_amount
takes_too_many_places = refl
