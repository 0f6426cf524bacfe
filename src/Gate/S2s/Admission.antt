-- ===== src/Gate/S2s/Admission.antt =====
-- Who is let through.
use lending_bank_gateway.Prelude.{
  ◌≡◌, ◌≢◌, inl, inr, refl, sym, subst, Bool, true, false, not, ◌&&◌, String, str_eq, eq_iff,
  Option, none, some, one_of, arith, Bool-cases,
}
use lending_bank_gateway.Json.Value.{present, Fields, get}
use lending_bank_gateway.Gate.Ids.{Request, RequestIds}
use lending_bank_gateway.Gate.Tokens.{bearer_credential}
use lending_bank_gateway.Gate.S2s.{
  Guardian, Passage, passed, or_empty, compare_digest, compared, path_of, caller_of, agrees,
  agrees_if_any, is_allowed, callback_passage, jwt_passage, allowed_passage, secret_passage,
  token_of, token_passage, service_passage, dispatch,
}

-- the request has the shared secret, if there is one
abbrev pub HasSecret : Option String → String → Type 0
HasSecret none token = Unit
HasSecret (some secret) token = token ≡ secret

-- the reasons to let a request through, with what they set `s2s_token_bound` to
pub data Admitted (g : Guardian) (ids : RequestIds) (r : Request) : Option Bool → Type 0 where
  exempt : one_of (path_of r) g.exempt_paths ≡ true → Admitted g ids r none
  degraded :
      one_of (path_of r) g.callback_paths ≡ true → g.callback_api_key ≡ none → Admitted g ids r none
  by_apikey :
      (key : String)
      → one_of (path_of r) g.callback_paths ≡ true
      → g.callback_api_key ≡ some key
      → or_empty r.apikey ≡ key
      → Admitted g ids r none
  by_jwt :
      (verify : String → Option Fields) (claims : Fields)
      → g.verifier ≡ some verify
      → verify (bearer_credential (or_empty r.authorization)) ≡ some claims
      → or_empty r.s2s_token ≡ ""
      → agrees (caller_of r) (present (get "caller_service" claims)) ≡ true
      → agrees_if_any ids.tenant_id (present (get "tenant_id" claims)) ≡ true
      → is_allowed g.allowed_callers (caller_of r) ≡ true
      → Admitted g ids r (some false)
  by_own_token :
      (token : String)
      → token_of g.caller_tokens (caller_of r) ≡ some token
      → or_empty r.s2s_token ≡ token
      → Admitted g ids r (some true)
  by_secret :
      token_of g.caller_tokens (caller_of r) ≡ none
      → HasSecret g.secret (or_empty r.s2s_token)
      → is_allowed g.allowed_callers (caller_of r) ≡ true
      → Admitted g ids r (some false)

compared-passed :
    (s t : String) (p q : Passage) {b : Option Bool}
    → q ≢ passed b
    → compared (compare_digest s t) p q ≡ passed b
    → (s ≡ t) × (p ≡ passed b)
unfolding compare_digest
compared-passed s t p q other h = ground (arith, eq_iff s t)

abbrev with_jwt : Request → Bool
with_jwt r =
    str_eq (or_empty r.s2s_token) ""
    && not (str_eq (bearer_credential (or_empty r.authorization)) "")

module _ (g : Guardian) (ids : RequestIds) (r : Request) {b : Option Bool} where
  callback-Admitted :
      (key : Option String)
      → g.callback_api_key ≡ key
      → one_of (path_of r) g.callback_paths ≡ true
      → callback_passage key (or_empty r.apikey) ≡ passed b
      → Admitted g ids r b
  callback-Admitted none e path h =
      let same : none ≡ b = ground arith in subst (Admitted g ids r) same (degraded path e)
  callback-Admitted (some key) e path h = elim (Bool-cases (str_eq (or_empty r.apikey) "")) [
    | inl empty ↦ ground arith
    | inr full ↦
        let (right, end) =
          compared-passed (or_empty r.apikey) key (passed none) _ (λ q. ground arith)
            (rw full at h) in
        let same : none ≡ b = ground arith in
        subst (Admitted g ids r) same (by_apikey key path e right)
  ]

  allowed-false :
      allowed_passage g (caller_of r) ≡ passed b
      → (is_allowed g.allowed_callers (caller_of r) ≡ true) × (some false ≡ b)
  allowed-false h = ground arith

  secret-Admitted :
      (secret : Option String)
      → g.secret ≡ secret
      → token_of g.caller_tokens (caller_of r) ≡ none
      → secret_passage g (caller_of r) (or_empty r.s2s_token) secret ≡ passed b
      → Admitted g ids r b
  secret-Admitted none e unlisted h =
      let (allowed, same) = allowed-false h in
      subst (Admitted g ids r) same
        (by_secret unlisted (subst (λ x. HasSecret x (or_empty r.s2s_token)) (sym e) tt) allowed)
  secret-Admitted (some secret) e unlisted h =
      let (right, end) =
        compared-passed (or_empty r.s2s_token) secret (allowed_passage g (caller_of r)) _
          (λ q. ground arith) h in
      let (allowed, same) = allowed-false end in
      subst (Admitted g ids r) same
        (by_secret unlisted (subst (λ x. HasSecret x (or_empty r.s2s_token)) (sym e) right) allowed)

  direct-Admitted :
      (own : Option String)
      → token_of g.caller_tokens (caller_of r) ≡ own
      → token_passage g (caller_of r) (or_empty r.s2s_token) own ≡ passed b
      → Admitted g ids r b
  direct-Admitted none e h = secret-Admitted g.secret refl e h
  direct-Admitted (some token) e h =
      let (right, end) =
        compared-passed (or_empty r.s2s_token) token (passed (some true)) _ (λ q. ground arith) h in
      let same : some true ≡ b = ground arith in
      subst (Admitted g ids r) same (by_own_token token e right)

  jwt-passed :
      (claims : Fields)
      → jwt_passage g ids (caller_of r) (some claims) ≡ passed b
      → (agrees (caller_of r) (present (get "caller_service" claims)) ≡ true)
        × (agrees_if_any ids.tenant_id (present (get "tenant_id" claims)) ≡ true)
        × (is_allowed g.allowed_callers (caller_of r) ≡ true)
        × (some false ≡ b)
  jwt-passed claims h = ground arith

  jwt-Admitted :
      (verify : String → Option Fields) (o : Option Fields)
      → g.verifier ≡ some verify
      → verify (bearer_credential (or_empty r.authorization)) ≡ o
      → or_empty r.s2s_token ≡ ""
      → jwt_passage g ids (caller_of r) o ≡ passed b
      → Admitted g ids r b
  jwt-Admitted verify none e checked bare h = ground arith
  jwt-Admitted verify (some claims) e checked bare h =
      let (caller, tenant, allowed, same) = jwt-passed claims h in
      subst (Admitted g ids r) same (by_jwt verify claims e checked bare caller tenant allowed)

  service-Admitted :
      (o : Option (String → Option Fields))
      → g.verifier ≡ o
      → service_passage g ids
          (caller_of r)
          (or_empty r.s2s_token)
          (bearer_credential (or_empty r.authorization))
          o
        ≡ passed b
      → Admitted g ids r b
  service-Admitted none e h = direct-Admitted _ refl h
  service-Admitted (some verify) e h = elim (Bool-cases (with_jwt r)) [
    | inl shown ↦
        jwt-Admitted verify _ e refl (ground (arith, eq_iff (or_empty r.s2s_token) ""))
          (rw shown at h)
    | inr direct ↦ direct-Admitted _ refl (rw direct at h)
  ]

  -- A request is let through only for one of the reasons of `Admitted`: its path is open, or it is a
  -- callback with the configured key, or it has no S2S token and a service JWT whose claims agree with
  -- its headers, or it has its caller's own token, or its caller has none and it has the shared
  -- secret. `s2s_token_bound` is set only by the caller's own token.
  pub dispatch-Admitted : dispatch g ids r ≡ passed b → Admitted g ids r b
  unfolding dispatch
  dispatch-Admitted h = elim (Bool-cases (one_of (path_of r) g.exempt_paths)) [
    | inl free ↦ let same : none ≡ b = ground arith in subst (Admitted g ids r) same (exempt free)
    | inr closed ↦ elim (Bool-cases (one_of (path_of r) g.callback_paths)) [
      | inl callback ↦
          callback-Admitted g.callback_api_key refl callback (rw (closed, callback) at h)
      | inr service ↦ elim (Bool-cases (str_eq (caller_of r) "")) [
        | inl nobody ↦ ground arith
        | inr somebody ↦ service-Admitted g.verifier refl (rw (closed, service, somebody) at h)
      ]
    ]
  ]
