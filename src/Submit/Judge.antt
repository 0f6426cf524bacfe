-- ===== src/Submit/Judge.antt =====
-- The `try` of app/services/submit.py: what each end of the call of wedap comes to.
pub mod Evidence
use lending_bank_gateway.Prelude.{
  ℕ, Bool, true, false, not, ◌&&◌, String, Option, none, some, leb, if◌then◌else◌,
}
use lending_bank_gateway.Prelude.Text.{take}
use lending_bank_gateway.Domain.States.{
  OrderStatus, same, value, is_door_reject_http_status, is_repayment_terminal_reject, submitted,
  result_unknown, failed,
}
use lending_bank_gateway.Db.{Response, ErrorCode}
use lending_bank_gateway.Submit.ParseAck.{Ack, parse_ack, no_response}
use lending_bank_gateway.Submit.Request.{
  SubmitRequest, WedapCall, answered, transport_error, http_error, wedap_error, raised,
}

-- What the call comes to: the status for the order, the answer so far, whether there is evidence
-- that no money moved, and whether the acknowledgement is trusted.
pub record Verdict : Type 0 where
  pub new_status : OrderStatus
  pub response : Response
  pub no_effect_evidence : Bool
  pub ack_trusted : Bool

abbrev or_submitted : Option OrderStatus → OrderStatus
or_submitted none = submitted
or_submitted (some s) = s

abbrev is_failed : Option OrderStatus → Bool
is_failed none = false
is_failed (some s) = same s failed

abbrev answer_verdict : SubmitRequest → Ack → Verdict
answer_verdict req ack = record {
  new_status = or_submitted ack.mapped;
  response = record ack.fields { biz_seq_no = req.biz_seq_no };
  no_effect_evidence = req.repayment_contract && is_failed ack.mapped;
  ack_trusted = ack.trusted;
}

abbrev unknown_verdict : SubmitRequest → Verdict
unknown_verdict req = record {
  new_status = result_unknown;
  response = no_response "RESULT_UNKNOWN" req.biz_seq_no;
  no_effect_evidence = false;
  ack_trusted = true;
}

abbrev http_verdict : SubmitRequest → ℕ → Verdict
http_verdict req status_code = if leb 500 status_code then unknown_verdict req else record {
  new_status = failed;
  response = record (no_response "FAILED" req.biz_seq_no) {
    error_code = some (ErrorCode.http status_code);
  };
  no_effect_evidence = not req.repayment_contract && is_door_reject_http_status (some status_code);
  ack_trusted = true;
}

abbrev wedap_verdict : SubmitRequest → String → String → Option ℕ → Verdict
wedap_verdict req code msg http_status =
    let terminal_reject =
      if req.repayment_contract then is_repayment_terminal_reject code else true in
    let new_status = if terminal_reject then failed else result_unknown in
    record {
      new_status = new_status;
      response = record (no_response (value new_status) req.biz_seq_no) {
        error_code = some (ErrorCode.wedap code);
        error_msg = some (take 200 msg);
      };
      no_effect_evidence =
          if req.repayment_contract
          then terminal_reject
          else is_door_reject_http_status http_status;
      ack_trusted = true;
    }

-- the `try` and its handlers; `none` where the exception is none of theirs
unfoldable pub judge : SubmitRequest → WedapCall → Option Verdict
judge req (answered data') = some (answer_verdict req (parse_ack data' req.repayment_contract))
judge req transport_error = some (unknown_verdict req)
judge req (http_error status_code) = some (http_verdict req status_code)
judge req (wedap_error code msg http_status) = some (wedap_verdict req code msg http_status)
judge req raised = none
