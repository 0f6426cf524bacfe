-- ===== src/Domain/MoneyWrite/Evidence.antt =====
-- What the typed fields of app/domain/money_write.py commit the gateway to.
use lending_bank_gateway.Prelude.{◌≡◌, ◌↔◌, ◌⊎◌, Bool, true, String, some, arith}
use lending_bank_gateway.Domain.States.{OrderStatus}
use lending_bank_gateway.Domain.MoneyWrite.{Outcome, money_write_fields}

module _ (s : OrderStatus) (evidence : Bool) (biz : String) (repayment trusted : Bool) where
  -- The fields claim "not applied" exactly when the ledger says FAILED and the caller has evidence
  -- that nothing happened.
  pub not_applied_iff :
      ((money_write_fields s evidence biz repayment trusted).outcome ≡ some Outcome.not_applied)
      ↔ ((s ≡ OrderStatus.failed) × (evidence ≡ true))
  unfolding money_write_fields
  not_applied_iff = (λ h. ground arith, λ h. ground arith)

  -- The fields claim "accepted" exactly when the ledger says SUBMITTED or PROCESSING and the
  -- acknowledgement is trusted.
  pub accepted_iff :
      ((money_write_fields s evidence biz repayment trusted).outcome ≡ some Outcome.accepted)
      ↔ (((s ≡ OrderStatus.submitted) ⊎ (s ≡ OrderStatus.processing)) × (trusted ≡ true))
  unfolding money_write_fields
  accepted_iff = (λ h. ground arith, λ h. ground arith)
