-- ===== src/Gate/S2s.antt =====
-- `S2SMiddleware` of app/core/s2s.py: who may call the gateway.
pub mod Admission
use Prim.Native.Char.{Char, code}
use lending_bank_gateway.Prelude.{
  ℕ, ◌==◌, ltb, Bool, true, false, not, ◌&&◌, ◌||◌, String, str_eq, Option, none, some, List, [],
  ◌∷◌, find, one_of, if◌then◌else◌,
}
use lending_bank_gateway.Json.Value.{
  Value, Fields, null, boolean, integer, number, text, array, object, get, present, is_text,
}
use lending_bank_gateway.Gate.Ids.{Request, RequestIds}
use lending_bank_gateway.Gate.Tokens.{Tokens, has_name, bearer_credential}

-- what the middleware is built with; `verifier` is the check of a service JWT
pub record Guardian : Type 0 where
  pub secret : Option String
  pub exempt_paths : List String
  pub allowed_callers : Option (List String)
  pub caller_tokens : Option Tokens
  pub callback_paths : List String
  pub callback_api_key : Option String
  pub verifier : Option (String → Option Fields)

-- The request goes on, with `s2s_token_bound` if that is set; it is answered with 401, a code, a
-- message and a challenge; or an exception is raised.
pub data Passage : Type 0 where
  passed : Option Bool → Passage
  unauthorized : String → String → String → Passage
  raises : Passage

abbrev challenge_s2s : String
challenge_s2s =
    "S2S realm=\"lending-bank-gateway\", header=\"X-S2S-Token\", Bearer realm=\"lending-bank-gateway\", audience=\"bank-gateway\""

abbrev challenge_apikey : String
challenge_apikey = "ApiKey realm=\"lending-bank-gateway\", header=\"apikey\""

abbrev refused : String → Passage
refused message = unauthorized "GW_401_S2S" message challenge_s2s

-- `value or None`
abbrev or_none : Option String → Option String
or_none none = none
or_none (some s) = if str_eq s "" then none else some s

abbrev pub or_empty : Option String → String
or_empty none = ""
or_empty (some s) = s

abbrev some_of {ℓ} : {A : Type ℓ} → Option (List A) → Option (List A)
some_of none = none
some_of (some []) = none
some_of (some (x ∷ xs)) = some (x ∷ xs)

-- the constructor
abbrev pub guardian : Guardian → Guardian
guardian g = record g {
  secret = or_none g.secret;
  allowed_callers = some_of g.allowed_callers;
  caller_tokens = some_of g.caller_tokens;
  callback_api_key = or_none g.callback_api_key;
}

abbrev pub is_ascii : String → Bool
is_ascii String.[] = true
is_ascii (String.◌∷◌ c s) = ltb (code c) 128 && is_ascii s

-- `hmac.compare_digest` on two texts, which raises where one is not ASCII
unfoldable pub compare_digest : String → String → Option Bool
compare_digest s t = if is_ascii s && is_ascii t then some (str_eq s t) else none

-- `if not compare_digest(…)`
abbrev pub compared : Option Bool → Passage → Passage → Passage
compared none p q = raises
compared (some true) p q = p
compared (some false) p q = q

-- `path.rstrip("/")`
unfoldable pub rstrip_slash : String → String
rstrip_slash String.[] = ""
rstrip_slash (String.◌∷◌ c s) =
    let rest = rstrip_slash s in if code c == b'/' && str_eq rest "" then "" else String.◌∷◌ c rest

abbrev root_or : String → String
root_or s = if str_eq s "" then "/" else s

abbrev pub path_of : Request → String
path_of r = root_or (rstrip_slash r.path)

abbrev pub caller_of : Request → String
caller_of r = or_empty r.caller_service

-- a claim that is absent is not asked for
abbrev pub agrees : String → Option Value → Bool
agrees s none = true
agrees s (some v) = is_text s v

-- the same against a header that may be absent
abbrev pub agrees_if_any : Option String → Option Value → Bool
agrees_if_any none v = true
agrees_if_any (some s) v = agrees s v

abbrev pub is_allowed : Option (List String) → String → Bool
is_allowed none caller = true
is_allowed (some callers) caller = one_of caller callers

-- a callback, by its apikey
abbrev pub callback_passage : Option String → String → Passage
callback_passage none provided = passed none
callback_passage (some key) provided =
    if str_eq provided ""
    then unauthorized "GW_401_CALLBACK" "invalid or missing apikey" challenge_apikey
    else compared (compare_digest provided key) (passed none)
        (unauthorized "GW_401_CALLBACK" "invalid or missing apikey" challenge_apikey)

-- a service JWT
abbrev pub jwt_passage : Guardian → RequestIds → String → Option Fields → Passage
jwt_passage g ids caller none = refused "bad bff svc token"
jwt_passage g ids caller (some claims) =
    if not (agrees caller (present (get "caller_service" claims)))
    then refused "caller does not match svc token"
    else if not (agrees_if_any ids.tenant_id (present (get "tenant_id" claims)))
    then refused "tenant does not match svc token"
    else if is_allowed g.allowed_callers caller
    then passed (some false)
    else refused "unknown caller"

-- the list of callers, after the secret
abbrev pub allowed_passage : Guardian → String → Passage
allowed_passage g caller =
    if is_allowed g.allowed_callers caller then passed (some false) else refused "unknown caller"

-- the shared secret
abbrev pub secret_passage : Guardian → String → String → Option String → Passage
secret_passage g caller token none = allowed_passage g caller
secret_passage g caller token (some secret) =
    compared (compare_digest token secret) (allowed_passage g caller) (refused "bad s2s token")

-- `self._caller_tokens.get(caller)`
abbrev pub token_of : Option Tokens → String → Option String
token_of none caller = none
token_of (some ts) caller = elim (find (has_name caller) ts) [
  | none ↦ none
  | some (name, tok) ↦ some tok
]

-- a caller with a token of its own, and any other
abbrev pub token_passage : Guardian → String → String → Option String → Passage
token_passage g caller token none = secret_passage g caller token g.secret
token_passage g caller token (some expected) =
    compared (compare_digest token expected) (passed (some true)) (refused "bad s2s token")

abbrev pub direct_passage : Guardian → String → String → Passage
direct_passage g caller token = token_passage g caller token (token_of g.caller_tokens caller)

-- the JWT counts only where there is no S2S token
abbrev pub service_passage :
    Guardian → RequestIds → String → String → String → Option (String → Option Fields) → Passage
service_passage g ids caller token bearer none = direct_passage g caller token
service_passage g ids caller token bearer (some verify) =
    if str_eq token "" && not (str_eq bearer "")
    then jwt_passage g ids caller (verify bearer)
    else direct_passage g caller token

unfoldable pub dispatch : Guardian → RequestIds → Request → Passage
unfolding compare_digest bearer_credential rstrip_slash
dispatch g ids r =
    if one_of (path_of r) g.exempt_paths
    then passed none
    else if one_of (path_of r) g.callback_paths
    then callback_passage g.callback_api_key (or_empty r.apikey)
    else if str_eq (caller_of r) ""
    then refused "missing X-Caller-Service"
    else service_passage g ids (caller_of r) (or_empty r.s2s_token)
        (bearer_credential (or_empty r.authorization)) g.verifier
