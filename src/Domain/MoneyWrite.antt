-- ===== src/Domain/MoneyWrite.antt =====
-- app/domain/money_write.py: the typed answer fields of a money write.
-- The dict of fields is a record; `none` is a key that the dict does not have.
pub mod Evidence
use Prim.Native.String.{◌++◌}
use lending_bank_gateway.Prelude.{
  Bool, true, false, ◌&&◌, ◌||◌, String, Option, none, some, if◌then◌else◌,
}
use lending_bank_gateway.Domain.BizSeq.{quote}
use lending_bank_gateway.Domain.States.{OrderStatus, same}

pub data Outcome : Type 0 where
  not_applied pending unknown accepted : Outcome

pub data OperationStatus : Type 0 where
  pending reconciling succeeded rejected : OperationStatus

pub data RetryPolicy : Type 0 where
  never retry_same_key_after poll_status : RetryPolicy
  reauth_and_replay correct_and_new_intent : RetryPolicy

pub record MoneyFields : Type 0 where
  pub outcome : Option Outcome
  pub operation_status : Option OperationStatus
  pub retry_policy : RetryPolicy
  pub resubmit_allowed : Bool
  pub operation_id : Option String
  pub status_url : Option String

unfoldable pub operation_status_url : String → Bool → String
operation_status_url biz_seq_no repayment =
    let key = quote biz_seq_no in
    if repayment
    then "/api/v1/loans/p2p-repayments/" ++ key ++ "/status"
    else "/api/v1/bank-funds/status?bizSeqNo=" ++ key

-- the three fields that each row of the table sets
abbrev pub row : Option Outcome → OperationStatus → RetryPolicy → String → Bool → MoneyFields
row outcome status policy biz_seq_no repayment = record {
  outcome = outcome;
  operation_status = some status;
  retry_policy = policy;
  resubmit_allowed = false;
  operation_id = some biz_seq_no;
  status_url = some (operation_status_url biz_seq_no repayment);
}

-- arguments: the order's status, `no_effect_evidence`, `biz_seq_no`, `repayment`, `ack_trusted`
unfoldable pub money_write_fields : OrderStatus → Bool → String → Bool → Bool → MoneyFields
money_write_fields order_status no_effect_evidence biz_seq_no repayment ack_trusted =
    if same order_status OrderStatus.succeeded
    then row none OperationStatus.succeeded RetryPolicy.never biz_seq_no repayment
    else if same order_status OrderStatus.accepted
    then row (some Outcome.pending) OperationStatus.pending RetryPolicy.poll_status biz_seq_no
        repayment
    else if (same order_status OrderStatus.submitted || same order_status OrderStatus.processing)
        && ack_trusted
    then row (some Outcome.accepted) OperationStatus.pending RetryPolicy.poll_status biz_seq_no
        repayment
    else if same order_status OrderStatus.failed && no_effect_evidence
    then row (some Outcome.not_applied) OperationStatus.rejected RetryPolicy.correct_and_new_intent
        biz_seq_no repayment
    else row (some Outcome.unknown) OperationStatus.reconciling RetryPolicy.poll_status biz_seq_no
        repayment

-- the gateway refused before it dispatched anything
unfoldable pub money_write_reject_fields : MoneyFields
money_write_reject_fields = record {
  outcome = some Outcome.not_applied;
  operation_status = none;
  retry_policy = RetryPolicy.correct_and_new_intent;
  resubmit_allowed = false;
  operation_id = none;
  status_url = none;
}

unfoldable pub money_write_unresolved_fields : String → Bool → MoneyFields
money_write_unresolved_fields biz_seq_no repayment =
    row (some Outcome.unknown) OperationStatus.reconciling RetryPolicy.poll_status biz_seq_no
      repayment
