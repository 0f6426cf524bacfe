-- ===== src/Gate/SvcJwt.antt =====
-- app/core/svc_jwt.py: the check of the BFF's service JWTs, with the cache of its public keys.
pub mod Sound
use lending_bank_gateway.Prelude.{
  ℕ, ◌+◌, leb, Bool, true, false, ◌&&◌, ◌||◌, String, str_eq, Option, none, some, List, [], ◌∷◌,
  ◌++◌, find, if◌then◌else◌,
}
use lending_bank_gateway.Json.Value.{
  Value, Items, Fields, null, boolean, integer, number, text, array, object, nil, cons, get,
  is_falsy, is_nil, is_end,
}

-- the part of a JWT's header that is read: `alg`, if it is a text, and `kid`
pub record Header : Type 0 where
  pub alg : Option String
  pub kid : Option String

-- What the verifier calls: `header` reads a token's header, `fetch` is the BFF's answer at a time as
-- JSON, `none` where the request raises or its status is no success, `from_jwk` makes a public key,
-- and `decode` gives the claims of a token that has `exp`, `aud` and `iss` and passes the check of
-- the signature and of these under RS256.
pub record Keyring {ℓ} (Key : Type ℓ) : Type ℓ where
  pub header : String → Option Header
  pub fetch : ℕ → Option Value
  pub from_jwk : Value → Option Key
  pub decode : String → Key → String → String → ℕ → Option Fields

pub record JwtSettings : Type 0 where
  pub audience : String
  pub issuer : String
  pub cache_ttl : ℕ
  pub leeway : ℕ

-- the cache
pub record Cache : Type 0 where
  pub keys : List (String × Value)
  pub expire_at : ℕ

abbrev pub retry_backoff : ℕ
retry_backoff = 5

-- `{k["kid"]: k for k in keys if k.get("kid")}`, the last first; `none` where it raises. A kid that is
-- a number or a truth value is no key that a header can name.
abbrev add_key :
    Option Value → Value → Option (List (String × Value)) → Option (List (String × Value))
add_key kid jwk none = none
add_key none jwk (some rest) = some rest
add_key (some null) jwk (some rest) = some rest
add_key (some (boolean b)) jwk (some rest) = some rest
add_key (some (integer t n)) jwk (some rest) = some rest
add_key (some (number t n b)) jwk (some rest) = some rest
add_key (some (text t)) jwk (some rest) = some (if str_eq t "" then rest else rest ++ (t, jwk) ∷ [])
add_key (some (array t xs)) jwk (some rest) = if is_nil xs then some rest else none
add_key (some (object t d)) jwk (some rest) = if is_end d then some rest else none

unfoldable pub key_entries : Items → Option (List (String × Value))
key_entries nil = some []
key_entries (cons (object t d) items) = add_key (get "kid" d) (object t d) (key_entries items)
key_entries (cons null items) = none
key_entries (cons (boolean b) items) = none
key_entries (cons (integer t n) items) = none
key_entries (cons (number t n b) items) = none
key_entries (cons (text t) items) = none
key_entries (cons (array t xs) items) = none

abbrev entries_of : Option Value → Option (List (String × Value))
entries_of (some (array t items)) = key_entries items
entries_of _ = none

-- `_fetch_keys` after the request
unfoldable pub keys_of : Option Value → Option (List (String × Value))
unfolding key_entries
keys_of (some (object t d)) = if is_falsy (get "keys" d) then some [] else entries_of (get "keys" d)
keys_of _ = none

abbrev pub has_kid : String → String × Value → Bool
has_kid kid e = str_eq e.0 kid

abbrev pub fetched : JwtSettings → ℕ → Option (List (String × Value)) → Cache
fetched s now none = record { keys = []; expire_at = now + retry_backoff }
fetched s now (some keys) = record { keys = keys; expire_at = now + s.cache_ttl }

abbrev pub value_of : Option (String × Value) → Option Value
value_of none = none
value_of (some (kid, jwk)) = some jwk

abbrev pub is_rs256 : Option String → Bool
is_rs256 none = false
is_rs256 (some alg) = str_eq alg "RS256"

-- `header.get("kid")`, if it is not empty
abbrev pub kid_of : Option String → Option String
kid_of none = none
kid_of (some kid) = if str_eq kid "" then none else some kid

module _ {ℓ} {Key : Type ℓ} (ring : Keyring Key) (s : JwtSettings) where
  -- with the lock, at the time `locked_at`
  abbrev pub refresh_locked : ℕ → Cache → Cache
  refresh_locked locked_at c =
      if leb c.expire_at locked_at then fetched s locked_at (keys_of (ring.fetch locked_at)) else c

  -- the cache that a check at `now` reads; `waiting` is what others do to it before this one has the
  -- lock
  unfoldable pub refresh : ℕ → ℕ → (Cache → Cache) → Cache → Cache
  unfolding keys_of
  refresh now locked_at waiting c =
      if leb c.expire_at now then refresh_locked locked_at (waiting c) else c

  -- `_jwk_for`
  unfoldable pub jwk_for : ℕ → ℕ → (Cache → Cache) → String → Cache → Option Value × Cache
  unfolding refresh
  jwk_for now locked_at waiting kid c =
      let c' = refresh now locked_at waiting c in (value_of (find (has_kid kid) c'.keys), c')

  abbrev pub checked : String → Option Value → Option Fields
  checked token none = none
  checked token (some jwk) = elim (ring.from_jwk jwk) [
    | none ↦ none
    | some key ↦ ring.decode token key s.audience s.issuer s.leeway
  ]

  -- with a kid
  abbrev pub verify_kid : ℕ → ℕ → (Cache → Cache) → String → String → Cache → Option Fields × Cache
  verify_kid now locked_at waiting token kid c =
      let (jwk, c') = jwk_for now locked_at waiting kid c in (checked token jwk, c')

  abbrev pub verify_header :
      ℕ → ℕ → (Cache → Cache) → String → Option Header → Cache → Option Fields × Cache
  verify_header now locked_at waiting token none c = (none, c)
  verify_header now locked_at waiting token (some h) c =
      if is_rs256 h.alg
      then (elim (kid_of h.kid) [
        | none ↦ (none, c)
        | some kid ↦ verify_kid now locked_at waiting token kid c
      ])
      else (none, c)

  unfoldable pub verify : ℕ → ℕ → (Cache → Cache) → String → Cache → Option Fields × Cache
  unfolding jwk_for
  verify now locked_at waiting token c =
      if str_eq token ""
      then (none, c)
      else verify_header now locked_at waiting token (ring.header token) c
