-- ===== src/Reversal.antt =====
-- app/services/reversal.py: a reversal is an order of its own; when wedap takes it, the original
-- order is reversed in the same transaction.
use Prim.Native.String.{◌++◌}
use lending_bank_gateway.Prelude.{
  ℕ, Bool, true, false, String, Option, none, some, leb, if◌then◌else◌,
}
use lending_bank_gateway.Prelude.Text.{take}
use lending_bank_gateway.Json.{text_get}
use lending_bank_gateway.Domain.MoneyWrite.{money_write_fields}
use lending_bank_gateway.Domain.States.{
  OrderStatus, same, value, may_move, is_door_reject_http_status, accepted, succeeded, failed,
  reversed, result_unknown,
}
use lending_bank_gateway.Db.{
  Db, Digests, BankTxnOrder, Response, ErrorCode, Result, ok, err, illegal_transition,
  no_result_found, unexpected, find_order,
}
use lending_bank_gateway.Idempotency.{record_response}
use lending_bank_gateway.Finalize.{finalize_terminal_in_session}
use lending_bank_gateway.Submit.ParseAck.{no_response}
use lending_bank_gateway.Submit.Request.{
  SubmitRequest, WedapCall, answered, transport_error, http_error, wedap_error, raised,
}
use lending_bank_gateway.Submit.Judge.{Verdict}
use lending_bank_gateway.Submit.Register.{submit_begin}
use lending_bank_gateway.Submit.Conclude.{advance, answer, commit}

flip : Digests → ℕ → String → String → BankTxnOrder → Db → Db
flip env now trace_id caller_service ori db =
    if same ori.status reversed
    then db
    else if may_move ori.status reversed
    then finalize_terminal_in_session env now (record ori { status = reversed }) "SYNC" trace_id
        caller_service (some (value ori.status)) db
    else db

-- `_reverse_original`
unfoldable pub reverse_original : Digests → ℕ → String → String → String → String → Db → Db
unfolding flip
reverse_original env now tenant_id ori_biz_seq_no trace_id caller_service db =
    elim (find_order tenant_id ori_biz_seq_no db) [
      | none ↦ db
      | some ori ↦ flip env now trace_id caller_service ori db
    ]

abbrev or_reversed : Option String → String
or_reversed none = "REVERSED"
or_reversed (some s) = s

abbrev verdict : OrderStatus → Response → Bool → Verdict
verdict new_status response evidence = record {
  new_status = new_status;
  response = response;
  no_effect_evidence = evidence;
  ack_trusted = true;
}

abbrev unknown_verdict : SubmitRequest → Verdict
unknown_verdict req = verdict result_unknown (no_response "RESULT_UNKNOWN" req.biz_seq_no) false

-- the `try` and its handlers; `none` where the exception is none of theirs
unfoldable pub judge_reversal : SubmitRequest → WedapCall → Option Verdict
judge_reversal req (answered d) =
    some
      (verdict succeeded (no_response (or_reversed (text_get "txnStatus" d)) req.biz_seq_no) false)
judge_reversal req transport_error = some (unknown_verdict req)
judge_reversal req (http_error status_code) =
    if leb 500 status_code
    then some (unknown_verdict req)
    else some (
        verdict failed
          (record (no_response "FAILED" req.biz_seq_no) {
            error_code = some (ErrorCode.http status_code);
          })
          (is_door_reject_http_status (some status_code)))
judge_reversal req (wedap_error code msg http_status) = some (
    verdict failed
      (record (no_response "FAILED" req.biz_seq_no) {
        error_code = some (ErrorCode.wedap code);
        error_msg = some (take 200 msg);
      })
      (is_door_reject_http_status http_status))
judge_reversal req raised = none

-- the compare-and-set has hit: move the reversal on, and on success reverse the original
unfoldable pub advance_reversal :
    Digests → ℕ → SubmitRequest → String → OrderStatus → BankTxnOrder → Db → Db
advance_reversal env now req ori_biz_seq_no new_status order db =
    let db' = advance env now req new_status order db in
    if same new_status succeeded
    then reverse_original env now req.tenant_id ori_biz_seq_no req.request_id req.caller_service db'
    else db'

abbrev pub status_or : OrderStatus → Option BankTxnOrder → OrderStatus
status_or s none = s
status_or s (some o) = o.status

-- The session holds one object for the reversal's row, so its status is read as the flushes left it.
finish : Digests → ℕ → SubmitRequest → String → Verdict → BankTxnOrder → Db → Result (Response × Db)
finish env now req ori_biz_seq_no v order db =
    let db' =
      if same order.status accepted
      then advance_reversal env now req ori_biz_seq_no v.new_status order db
      else db in
    let status = status_or order.status (find_order req.tenant_id req.biz_seq_no db') in
    let response = record v.response {
      order_status = some status;
      money = some (money_write_fields status v.no_effect_evidence req.biz_seq_no false true);
    } in
    answer response (
      record_response req.tenant_id req.business_scope req.biz_seq_no response
        (some ("order:" ++ req.biz_seq_no)) db')

unfoldable pub conclude_reversal :
    Digests → ℕ → SubmitRequest → String → Verdict → Db → Result (Response × Db)
unfolding finish
conclude_reversal env now req ori_biz_seq_no v db =
    if may_move accepted v.new_status
    then elim (find_order req.tenant_id req.biz_seq_no db) [
      | none ↦ err no_result_found
      | some order ↦ finish env now req ori_biz_seq_no v order db
    ]
    else err illegal_transition

unfoldable pub resume_reversal :
    Digests → ℕ → SubmitRequest → String → WedapCall → Db → Result (Response × Db)
resume_reversal env now req ori_biz_seq_no call db = elim (judge_reversal req call) [
  | none ↦ err unexpected
  | some v ↦ conclude_reversal env now req ori_biz_seq_no v db
]

-- The whole of `submit_reversal`, as `submit_order`.
unfoldable pub submit_reversal :
    Digests → ℕ → ℕ → SubmitRequest → String → WedapCall → (Db → Db) → Db → Result Response × Db
submit_reversal env now later req ori_biz_seq_no call others db =
    elim (submit_begin env now req db) [
      | err e ↦ (err e, db)
      | ok (some early, db') ↦ (ok early, db')
      | ok (none, db') ↦
          commit (others db') (resume_reversal env later req ori_biz_seq_no call (others db'))
    ]
