-- ===== src/Tests/Guard.antt =====
-- Witnesses for the account guard: a collection into a platform account that is on the white list,
-- and one into an account that is not.
use lending_bank_gateway.Prelude.{◌≡◌, ◌↔◌, ◌⊎◌, String, none, some, List, [], ◌∷◌}
use lending_bank_gateway.Json.{text}
use lending_bank_gateway.Db.{empty}
use lending_bank_gateway.Audit.Chain.{IsChained}
use lending_bank_gateway.AccountGuard.{
  PlatformBankAccount, Mode, GuardRequest, Fault, admitted, assert_platform_account_allowed,
}
use lending_bank_gateway.AccountGuard.Permits.{IsPermitted, enforce_iff}
use lending_bank_gateway.AccountGuard.Effects.{guard-keeps}
use lending_bank_gateway.Tests.{digests}
use lending_bank_gateway.Tests.Flows.{empty-IsChained}

abbrev escrow : PlatformBankAccount
escrow = record {
  id = 1;
  tenant_id = "bank-a";
  account_no = "00112233";
  purpose = "escrow";
  allowed_scopes = "bank_refund, bank_collect";
  currency = some "HKD";
  status = "active";
  note = none;
}

abbrev collect : String → GuardRequest
collect account_no = record {
  account_no = some (text account_no);
  tenant_id = "bank-a";
  business_scope = "bank_collect";
  currency = some "HKD";
  caller = "loan";
  trace_id = "req-1";
}

abbrev listed : List PlatformBankAccount
listed = escrow ∷ []

enforce_iff_example :
    ((assert_platform_account_allowed digests listed Fault.healthy Mode.enforce
        (collect " 00112233 ")
        empty).0
      ≡ admitted)
    ↔ (IsPermitted listed (collect " 00112233 ")
        × ((Fault.healthy ≡ Fault.healthy) ⊎ (Fault.healthy ≡ Fault.write_fails)))
enforce_iff_example = enforce_iff listed (collect " 00112233 ") digests Fault.healthy empty

guard-keeps_example :
    ((Mode.observe ≡ Mode.enforce)
      ⊎ ((assert_platform_account_allowed digests listed Fault.healthy Mode.observe
            (collect "1")
            empty).0
          ≡ admitted))
    × ((assert_platform_account_allowed digests listed Fault.healthy Mode.observe
          (collect "1")
          empty).1.orders
        ≡ [])
    × ((assert_platform_account_allowed digests listed Fault.healthy Mode.observe
          (collect "1")
          empty).1.idempotency
        ≡ [])
    × ((assert_platform_account_allowed digests listed Fault.healthy Mode.observe
          (collect "1")
          empty).1.outbox
        ≡ [])
    × IsChained digests "bank-a"
        (assert_platform_account_allowed digests listed Fault.healthy Mode.observe
          (collect "1")
          empty).1
guard-keeps_example =
    guard-keeps digests (collect "1") empty listed Fault.healthy Mode.observe "bank-a"
      empty-IsChained
