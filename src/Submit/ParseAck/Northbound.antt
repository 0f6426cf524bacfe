-- ===== src/Submit/ParseAck/Northbound.antt =====
-- The status text that `_parse_ack` shows upstream, against the status that the ledger takes.
use lending_bank_gateway.Prelude.{
  ◌≡◌, ◌↔◌, ◌⊎◌, refl, Bool, true, false, String, str_eq, eq_iff, Option, none, some, one_of, arith,
  if◌then◌else◌,
}
use lending_bank_gateway.Prelude.Text.{upper, upper-upper, strip}
use lending_bank_gateway.Json.{Payload, text_get}
use lending_bank_gateway.Domain.States.{
  OrderStatus, map_wedap_txn_status, map_wedap_repayment_status, succeeded, failed, reversed,
}
use lending_bank_gateway.Submit.ParseAck.{
  Ack, normal, generic_ack, repayment_ack, parse_ack, generic_northbound_statuses,
  repayment_northbound_statuses,
}

upper-normal : (raw : Option String) → upper (normal raw) ≡ normal raw
unfolding normal
upper-normal none = unfold upper in refl
upper-normal (some raw) = upper-upper (strip raw)

-- What is shown and what is recorded agree on each final status, and nothing is shown that is
-- neither a known status nor RESULT_UNKNOWN.
pub record Agrees (repayment : Bool) (a : Ack) : Type 0 where
  pub success : (a.fields.txn_status ≡ "SUCCESS") ↔ (a.mapped ≡ some succeeded)
  pub failure : (a.fields.txn_status ≡ "FAILED") ↔ (a.mapped ≡ some failed)
  pub reversal : (a.fields.txn_status ≡ "REVERSED") ↔ (a.mapped ≡ some reversed)
  pub unknown : (a.fields.txn_status ≡ "RESULT_UNKNOWN") ↔ (a.trusted ≡ false)
  pub closed :
      a.trusted ≡ true
      → one_of a.fields.txn_status
          (if repayment then repayment_northbound_statuses else generic_northbound_statuses)
        ≡ true

module _ (s : String) (fixed : upper s ≡ s) where
  txn_status_fixed : map_wedap_txn_status s ≡ (
      if str_eq s "SUCCESS"
      then some succeeded
      else if str_eq s "FAILED"
      then some failed
      else if str_eq s "REVERSED"
      then some reversed
      else none)
  unfolding map_wedap_txn_status
  txn_status_fixed = rw fixed

  repayment_status_fixed : map_wedap_repayment_status s ≡ (
      if str_eq s "SUCCESS"
      then some succeeded
      else if str_eq s "FAILED"
      then some failed
      else none)
  unfolding map_wedap_repayment_status
  repayment_status_fixed = rw fixed

  generic_ack-Agrees : Agrees false (generic_ack s)
  unfolding generic_ack
  generic_ack-Agrees = record {
    success = (
      λ h. ground (arith, txn_status_fixed, eq_iff s "SUCCESS", eq_iff "RESULT_UNKNOWN" "SUCCESS"),
      λ h. ground (arith, txn_status_fixed, eq_iff s "SUCCESS"),
    );
    failure = (
      λ h. ground (
        arith,
        txn_status_fixed,
        eq_iff s "SUCCESS",
        eq_iff s "FAILED",
        eq_iff "SUCCESS" "FAILED",
        eq_iff "RESULT_UNKNOWN" "FAILED",
      ),
      λ h. ground (arith, txn_status_fixed, eq_iff s "FAILED"),
    );
    reversal = (
      λ h. ground (
        arith,
        txn_status_fixed,
        eq_iff s "SUCCESS",
        eq_iff s "FAILED",
        eq_iff s "REVERSED",
        eq_iff "SUCCESS" "REVERSED",
        eq_iff "FAILED" "REVERSED",
        eq_iff "RESULT_UNKNOWN" "REVERSED",
      ),
      λ h. ground (arith, txn_status_fixed, eq_iff s "REVERSED"),
    );
    unknown = (
      λ h. ground (
        arith,
        eq_iff s "SUCCESS",
        eq_iff s "PROCESSING",
        eq_iff s "FAILED",
        eq_iff s "REVERSED",
        eq_iff s "PENDING",
        eq_iff "SUCCESS" "RESULT_UNKNOWN",
        eq_iff "PROCESSING" "RESULT_UNKNOWN",
        eq_iff "FAILED" "RESULT_UNKNOWN",
        eq_iff "REVERSED" "RESULT_UNKNOWN",
        eq_iff "PENDING" "RESULT_UNKNOWN",
      ),
      λ h. ground arith,
    );
    closed = λ h. ground arith;
  }

  repayment_ack-Agrees : (d : Payload) → Agrees true (repayment_ack d s)
  unfolding repayment_ack
  repayment_ack-Agrees d = record {
    success = (
      λ h.
          ground
            (arith, repayment_status_fixed, eq_iff s "SUCCESS", eq_iff "RESULT_UNKNOWN" "SUCCESS"),
      λ h. ground (arith, repayment_status_fixed, eq_iff s "SUCCESS"),
    );
    failure = (
      λ h. ground (
        arith,
        repayment_status_fixed,
        eq_iff s "SUCCESS",
        eq_iff s "FAILED",
        eq_iff "SUCCESS" "FAILED",
        eq_iff "RESULT_UNKNOWN" "FAILED",
      ),
      λ h. ground (arith, repayment_status_fixed, eq_iff s "FAILED"),
    );
    reversal = (
      λ h. ground (
        arith,
        repayment_status_fixed,
        eq_iff s "SUCCESS",
        eq_iff s "PROCESSING",
        eq_iff s "FAILED",
        eq_iff "SUCCESS" "REVERSED",
        eq_iff "FAILED" "REVERSED",
        eq_iff "PROCESSING" "REVERSED",
        eq_iff "RESULT_UNKNOWN" "REVERSED",
      ),
      λ h. ground (arith, repayment_status_fixed),
    );
    unknown = (
      λ h. ground (
        arith,
        eq_iff s "SUCCESS",
        eq_iff s "PROCESSING",
        eq_iff s "FAILED",
        eq_iff "SUCCESS" "RESULT_UNKNOWN",
        eq_iff "PROCESSING" "RESULT_UNKNOWN",
        eq_iff "FAILED" "RESULT_UNKNOWN",
      ),
      λ h. ground arith,
    );
    closed = λ h. ground arith;
  }

-- Whatever wedap answers, the status shown upstream is SUCCESS, FAILED or REVERSED exactly when the
-- ledger takes that final status, it is a known status of the contract when the acknowledgement is
-- trusted, and it is RESULT_UNKNOWN exactly when the acknowledgement is not trusted.
pub parse_ack-Agrees : (d : Payload) (repayment : Bool) → Agrees repayment (parse_ack d repayment)
unfolding parse_ack
parse_ack-Agrees d true =
    repayment_ack-Agrees (normal (text_get "status" d)) (upper-normal (text_get "status" d)) d
parse_ack-Agrees d false =
    generic_ack-Agrees (normal (text_get "txnStatus" d)) (upper-normal (text_get "txnStatus" d))

-- An acknowledgement that is final makes the order succeeded, failed or reversed.
pub parse_ack-mapped :
    (d : Payload) (repayment : Bool) (s : OrderStatus)
    → (parse_ack d repayment).mapped ≡ some s
    → (s ≡ succeeded) ⊎ (s ≡ failed) ⊎ (s ≡ reversed)
unfolding parse_ack map_wedap_repayment_status map_wedap_txn_status
parse_ack-mapped d true s h = ground arith
parse_ack-mapped d false s h = ground arith
