-- ===== src/AccountGuard/Permits.antt =====
-- The guard of app/services/account_guard.py against the white list.
use lending_bank_gateway.Prelude.{
  ◌≡◌, ◌≢◌, ◌↔◌, ◌⊎◌, inl, inr, refl, sym, ◌∙◌, true, false, String, str_eq, eq_iff, Option, none,
  some, List, [], ◌∷◌, find, one_of, arith, Bool-cases, Option-cases,
}
use lending_bank_gateway.Prelude.Text.{strip}
use lending_bank_gateway.Db.{Db, Digests}
use lending_bank_gateway.AccountGuard.{
  PlatformBankAccount, Mode, Reason, GuardVerdict, passed, rejected, GuardRequest, Fault, admitted,
  split_commas, words, or_empty, other_currency, is_account, row_verdict, evaluate, normalized,
  verdict_on, assert_platform_account_allowed,
}

-- one of the pieces is the scope, up to space around it
abbrev pub Names : String → List String → Type 0
Names scope [] = ⊥
Names scope (p ∷ ps) = (strip p ≡ scope) ⊎ Names scope ps

one_of-words :
    (s : String) (pieces : List String)
    → (one_of s (words pieces) ≡ true) ↔ (Names s pieces × (s ≢ ""))
one_of-words s [] = (λ h. cc, λ (h, _). absurd h)
one_of-words s (p ∷ ps) =
    let (there, back) = one_of-words s ps in
    elim (Bool-cases (str_eq (strip p) "")) [
      | inl blank ↦ rw blank (
        λ h. let (named, some_text) = there h in (inr named, some_text),
        λ (named, some_text). elim named [
          | inl e ↦ absurd (some_text (sym e ∙ (eq_iff (strip p) "").0 blank))
          | inr later ↦ back (later, some_text)
        ],
      )
      | inr word ↦ rw word (
        λ h. elim (Bool-cases (str_eq s (strip p))) [
          | inl hit ↦
              let e = (eq_iff s (strip p)).0 hit in
              (inl (sym e), λ none_left. ground (arith, eq_iff (strip p) "", sym e ∙ none_left))
          | inr miss ↦ let (named, some_text) = there (ground arith) in (inr named, some_text)
        ],
        λ (named, some_text). elim named [
          | inl e ↦ ground (arith, (eq_iff s (strip p)).1 (sym e))
          | inr later ↦ ground (arith, back (later, some_text))
        ],
      )
    ]

abbrev pub CurrencyFits : Option String → Option String → Type 0
CurrencyFits none currency = Unit
CurrencyFits (some bound) currency = (bound ≡ "") ⊎ (bound ≡ or_empty currency)

other_currency_iff :
    (bound currency : Option String)
    → (other_currency bound currency ≡ false) ↔ CurrencyFits bound currency
other_currency_iff none currency = (λ _. tt, λ _. refl)
other_currency_iff (some b) currency = elim (Bool-cases (str_eq b "")) [
  | inl free ↦ (λ _. inl ((eq_iff b "").0 free), λ _. rw free refl)
  | inr tied ↦ (
    λ h. inr ((eq_iff b (or_empty currency)).0 (ground arith)),
    λ fits. ground (arith, eq_iff b "", eq_iff b (or_empty currency)),
  )
]

-- The tenant has registered the account, the account is active, its list of scopes names the
-- request's, and it is bound to no currency but the request's.
pub record IsPermitted (accounts : List PlatformBankAccount) (req : GuardRequest) : Type 0 where
  pub numbered : normalized req.account_no ≢ ""
  pub row : PlatformBankAccount
  pub registered : find (is_account req.tenant_id (normalized req.account_no)) accounts ≡ some row
  pub active : row.status ≡ "active"
  pub scoped : Names req.business_scope (split_commas row.allowed_scopes)
  pub named : req.business_scope ≢ ""
  pub currency_fits : CurrencyFits row.currency req.currency

row_verdict_iff :
    (row : PlatformBankAccount) (scope : String) (currency : Option String)
    → (row_verdict row scope currency ≡ passed) ↔ (
        (row.status ≡ "active")
        × (Names scope (split_commas row.allowed_scopes) × (scope ≢ ""))
        × CurrencyFits row.currency currency)
unfolding row_verdict
row_verdict_iff row scope currency =
    let (scope_there, scope_back) = one_of-words scope (split_commas row.allowed_scopes) in
    let (fits_there, fits_back) = other_currency_iff row.currency currency in
    let (active_there, active_back) = eq_iff row.status "active" in
    (
      λ h. (active_there (ground arith), scope_there (ground arith), fits_there (ground arith)),
      λ (active, scoped, fits).
          ground (arith, active_back active, scope_back scoped, fits_back fits),
    )

module _ (accounts : List PlatformBankAccount) (req : GuardRequest) where
  abbrev number : String
  number = normalized req.account_no

  evaluate_found :
      number ≢ ""
      → (o : Option PlatformBankAccount) → find (is_account req.tenant_id number) accounts ≡ o
      → verdict_on accounts req ≡ elim o [
        | none ↦ rejected Reason.account_not_registered
        | some row ↦ row_verdict row req.business_scope req.currency
      ]
  unfolding evaluate
  evaluate_found numbered o e = ground (arith, eq_iff number "")

  passed-numbered : verdict_on accounts req ≡ passed → number ≢ ""
  unfolding evaluate
  passed-numbered h missing = ground (arith, eq_iff number "")

  verdict_on_iff : (verdict_on accounts req ≡ passed) ↔ IsPermitted accounts req
  verdict_on_iff = (
    λ h.
        let numbered = passed-numbered h in
        elim (Option-cases (find (is_account req.tenant_id number) accounts)) [
          | inl unknown ↦ let e = evaluate_found numbered none unknown in cc
          | inr (row, registered) ↦
              let (active, (scoped, named), fits) =
                (row_verdict_iff row req.business_scope req.currency).0
                  (sym (evaluate_found numbered (some row) registered) ∙ h) in
              record {
                numbered = numbered;
                row = row;
                registered = registered;
                active = active;
                scoped = scoped;
                named = named;
                currency_fits = fits;
              }
        ],
    λ p.
        evaluate_found p.numbered (some p.row) p.registered
        ∙ (row_verdict_iff p.row req.business_scope req.currency).1
            (p.active, (p.scoped, p.named), p.currency_fits),
  )

  module _ (env : Digests) (fault : Fault) (db : Db) where
    -- the enforced guard lets pass exactly the verdict that nothing fails
    passes_iff :
        (f : Fault) (v : GuardVerdict)
        → v ≡ verdict_on accounts req
        → ((assert_platform_account_allowed env accounts f Mode.enforce req db).0 ≡ admitted)
          ↔ ((v ≡ passed) × ((f ≡ Fault.healthy) ⊎ (f ≡ Fault.write_fails)))
    unfolding assert_platform_account_allowed
    passes_iff Fault.healthy v e = rw (sym e) (λ h. (ground arith, inl refl), λ p. ground arith)
    passes_iff Fault.query_fails v e =
        (λ h. ground (arith, passed-numbered, eq_iff number ""), λ p. ground arith)
    passes_iff Fault.write_fails v e = (λ h. (ground arith, inr refl), λ p. ground arith)
    passes_iff Fault.commit_fails v e = (λ h. ground arith, λ p. ground arith)

    -- With the guard enforced, the endpoint goes on exactly if the account is permitted and the
    -- guard's transaction succeeds; the failure of a write it does not make is no obstacle.
    pub enforce_iff :
        ((assert_platform_account_allowed env accounts fault Mode.enforce req db).0 ≡ admitted)
        ↔ (IsPermitted accounts req × ((fault ≡ Fault.healthy) ⊎ (fault ≡ Fault.write_fails)))
    enforce_iff =
        let (there, back) = passes_iff fault (verdict_on accounts req) refl in
        (
          λ h. let (p, up) = there h in (verdict_on_iff.0 p, up),
          λ (permitted, up). back (verdict_on_iff.1 permitted, up),
        )
