-- ===== src/Gate/SvcJwt/Sound.antt =====
-- What a service JWT that is let through has shown.
use lending_bank_gateway.Prelude.{
  ℕ, ◌+◌, ◌≤◌, ◌<◌, ◌≡◌, ◌⊎◌, inl, inr, refl, ap, ◌∙◌, leb, true, false, String, str_eq, eq_iff,
  Option, none, some, List, [], find, find-holds, arith, Bool-cases, Option-cases,
}
use lending_bank_gateway.Json.Value.{Value, Fields}
use lending_bank_gateway.Gate.SvcJwt.{
  Header, Keyring, JwtSettings, Cache, has_kid, value_of, keys_of, checked, is_rs256, kid_of,
  refresh_locked, refresh, jwk_for, verify_header, verify,
}

is_rs256-alg : (o : Option String) → is_rs256 o ≡ true → o ≡ some "RS256"
is_rs256-alg none h = cc
is_rs256-alg (some alg) h = ap some ((eq_iff alg "RS256").0 h)

kid_of-kid : (o : Option String) (kid : String) → kid_of o ≡ some kid → o ≡ some kid
kid_of-kid none kid h = h
kid_of-kid (some k) kid h = ground arith

module _ {ℓ} {Key : Type ℓ} (ring : Keyring Key) (s : JwtSettings) where
  -- the keys are those that the BFF gave at this time
  abbrev pub GivenAt : ℕ → List (String × Value) → Type 0
  GivenAt at keys = keys_of (ring.fetch at) ≡ some keys

  -- the cache is empty, or holds the keys that the BFF gave at a time, for as long as the settings say
  abbrev pub IsCache : Cache → Type 0
  IsCache c = (c.keys ≡ []) ⊎ ((at : ℕ) × GivenAt at c.keys × (c.expire_at ≡ at + s.cache_ttl))

  -- the token's header names RS256 and this key
  abbrev pub Names : String → String → Type 0
  Names token kid =
      (h : Header) × (ring.header token ≡ some h) × (h.alg ≡ some "RS256") × (h.kid ≡ some kid)

  -- the claims of a token that names RS256 and a key that the BFF gave less than the lifetime of the
  -- cache before, and whose signature, audience, issuer and time the library accepts with that key
  pub record IsVerified (now : ℕ) (token : String) (claims : Fields) : Type ℓ where
    pub kid : String
    pub named : Names token kid
    pub keys : List (String × Value)
    pub at : ℕ
    pub given : GivenAt at keys
    pub recent : now < at + s.cache_ttl
    pub jwk : Value
    pub listed : find (has_kid kid) keys ≡ some (kid, jwk)
    pub public_key : Key
    pub read : ring.from_jwk jwk ≡ some public_key
    pub decoded : ring.decode token public_key s.audience s.issuer s.leeway ≡ some claims

  module _ (now locked_at : ℕ) (waiting : Cache → Cache) (later : now ≤ locked_at)
      (lives : 0 < s.cache_ttl) (kept : (c : Cache) → IsCache c → IsCache (waiting c)) where
    refresh_locked-IsCache : (c : Cache) → IsCache c → IsCache (refresh_locked ring s locked_at c)
    refresh_locked-IsCache c h = elim (Bool-cases (leb c.expire_at locked_at)) [
      | inl old ↦ elim (Option-cases (keys_of (ring.fetch locked_at))) [
        | inl failed ↦ rw (old, failed) (inl refl)
        | inr (keys, given) ↦ rw (old, given) (inr (locked_at, given, refl))
      ]
      | inr fresh ↦ rw fresh h
    ]

    abbrev IsRecent : Cache → Type 0
    IsRecent c = (c.keys ≡ []) ⊎ ((at : ℕ) × GivenAt at c.keys × (now < at + s.cache_ttl))

    unexpired-IsRecent :
        (t : ℕ) (c : Cache) → now ≤ t → leb c.expire_at t ≡ false → IsCache c → IsRecent c
    unexpired-IsRecent t c after live (inl empty) = inl empty
    unexpired-IsRecent t c after live (inr (at, given, expires)) = inr (at, given, ground arith)

    locked-IsRecent : (c : Cache) → IsCache c → IsRecent (refresh_locked ring s locked_at c)
    locked-IsRecent c h = elim (Bool-cases (leb c.expire_at locked_at)) [
      | inl old ↦ elim (Option-cases (keys_of (ring.fetch locked_at))) [
        | inl failed ↦ rw (old, failed) (inl refl)
        | inr (keys, given) ↦ rw (old, given) (inr (locked_at, given, omega arith))
      ]
      | inr fresh ↦ rw fresh (unexpired-IsRecent locked_at c later fresh h)
    ]

    -- a check keeps the cache as it should be, and reads recent keys
    refresh-IsRecent :
        (c : Cache)
        → IsCache c
        → IsCache (refresh ring s now locked_at waiting c)
          × IsRecent (refresh ring s now locked_at waiting c)
    unfolding refresh
    refresh-IsRecent c h = elim (Bool-cases (leb c.expire_at now)) [
      | inl old ↦
          rw old
            (refresh_locked-IsCache (waiting c) (kept c h), locked-IsRecent (waiting c) (kept c h))
      | inr fresh ↦ rw fresh (h, unexpired-IsRecent now c (omega arith) fresh h)
    ]

    abbrev pub Verifies : String → Option Fields → Type ℓ
    Verifies token none = Unit
    Verifies token (some claims) = IsVerified now token claims

    verified :
        (token kid kid' : String) (c : Cache) (jwk : Value) (key : Key) (claims : Fields)
        → Names token kid
        → find (has_kid kid) c.keys ≡ some (kid', jwk)
        → ring.from_jwk jwk ≡ some key
        → ring.decode token key s.audience s.issuer s.leeway ≡ some claims
        → IsRecent c
        → IsVerified now token claims
    verified token kid kid' c jwk key claims named listed read decoded (inl empty) = cc
    verified token kid kid' c jwk key claims named listed read decoded (inr (at, given, recent)) =
        let same : kid' ≡ kid =
          (eq_iff kid' kid).0 (find-holds (has_kid kid) (kid', jwk) c.keys listed) in
        record {
          kid = kid;
          named = named;
          keys = c.keys;
          at = at;
          given = given;
          recent = recent;
          jwk = jwk;
          listed = listed ∙ ap (λ x. some (x, jwk)) same;
          public_key = key;
          read = read;
          decoded = decoded;
        }

    checked-Verifies :
        (token kid : String) (c : Cache)
        → Names token kid
        → IsRecent c
        → Verifies token (checked ring s token (value_of (find (has_kid kid) c.keys)))
    checked-Verifies token kid c named recent = elim (Option-cases (find (has_kid kid) c.keys)) [
      | inl unknown ↦ rw unknown tt
      | inr ((kid', jwk), listed) ↦ elim (Option-cases (ring.from_jwk jwk)) [
        | inl unreadable ↦ rw (listed, unreadable) tt
        | inr (key, read) ↦
            elim (Option-cases (ring.decode token key s.audience s.issuer s.leeway)) [
              | inl refused ↦ rw (listed, read, refused) tt
              | inr (claims, decoded) ↦
                  rw (listed, read, decoded)
                    (verified token kid kid' c jwk key claims named listed read decoded recent)
            ]
      ]
    ]

    verify_header-Verifies :
        (token : String) (o : Option Header) (c : Cache)
        → ring.header token ≡ o
        → IsCache c
        → IsCache (verify_header ring s now locked_at waiting token o c).1
          × Verifies token (verify_header ring s now locked_at waiting token o c).0
    unfolding jwk_for
    verify_header-Verifies token none c e h = (h, tt)
    verify_header-Verifies token (some x) c e h = elim (Bool-cases (is_rs256 x.alg)) [
      | inl signed ↦ elim (Option-cases (kid_of x.kid)) [
        | inl missing ↦ rw (signed, missing) (h, tt)
        | inr (kid, found) ↦
            let (kept', recent) = refresh-IsRecent c h in
            rw (signed, found)
              (
                kept',
                checked-Verifies token kid (refresh ring s now locked_at waiting c)
                    (x, e, is_rs256-alg x.alg signed, kid_of-kid x.kid kid found) recent,
              )
      ]
      | inr other ↦ rw other (h, tt)
    ]

    -- When the cache is as it should be, so it stays, and a token that is let through names RS256 and a
    -- key that the BFF gave less than the lifetime of the cache ago, and the library has accepted its
    -- signature, audience, issuer and time with that key; if the time does not run backwards, the
    -- lifetime is not 0, and other checks keep the cache.
    pub verify-Verifies :
        (token : String) (c : Cache)
        → IsCache c
        → IsCache (verify ring s now locked_at waiting token c).1
          × Verifies token (verify ring s now locked_at waiting token c).0
    unfolding verify
    verify-Verifies token c h = elim (Bool-cases (str_eq token "")) [
      | inl empty ↦ rw empty (h, tt)
      | inr full ↦ rw full (verify_header-Verifies token (ring.header token) c refl h)
    ]
