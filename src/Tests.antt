-- ===== src/Tests.antt =====
-- Concrete requests and answers for the tests.
pub mod Flows
pub mod Orders
pub mod Delivery
pub mod Callbacks
pub mod Domain
pub mod Guard
pub mod Files
pub mod Rounds
pub mod Sends
pub mod Recon
pub mod Gate
pub mod Details
use Prim.Native.String.{◌++◌}
use lending_bank_gateway.Prelude.{
  ℕ, ◌≡◌, refl, Bool, true, false, String, Option, none, some, [], ◌∷◌,
}
use lending_bank_gateway.Json.{Payload, text, str_or_empty}
use lending_bank_gateway.Domain.States.{OrderStatus}
use lending_bank_gateway.Db.{
  BankTxnOrder, CallbackOutbox, OutboxStatus, Db, Digests, Response, Result, ok, err, empty,
}
use lending_bank_gateway.Submit.Request.{SubmitRequest, WedapCall, answered, http_error}
use lending_bank_gateway.Submit.ParseAck.{no_response}
use lending_bank_gateway.Submit.Conclude.{resume, submit_order}
use lending_bank_gateway.Submit.Register.{submit_begin}
use lending_bank_gateway.Reversal.{submit_reversal}

abbrev pub digests : Digests
digests = record {
  payload_hash = λ p. str_or_empty "amount" p;
  row_hash = λ e prev. e.action ++ "/" ++ prev;
}

abbrev pub request : Bool → SubmitRequest
request repayment = record {
  tenant_id = "bank-a";
  biz_seq_no = "LN-0001";
  business_action = "DISBURSE";
  biz_type = "DISB";
  amount = "250.00";
  currency = "CNY";
  caller_service = "loan";
  request_id = "req-1";
  business_scope = "disburse";
  wedap_payload = ("amount", text "250.00") ∷ ("transType", text "DISB") ∷ [];
  ori_req_date = some "20260101";
  repayment_contract = repayment;
}

abbrev pub success : WedapCall
success = answered (("txnStatus", text " success ") ∷ [])

abbrev pub same_db : Db → Db
same_db db = db

-- the two calls, opened down to the operations they are made of, for runs at fixed inputs
unfoldable pub submit : SubmitRequest → WedapCall → Db → Result Response × Db
unfolding lending_bank_gateway.Submit.Conclude.submit_order
    lending_bank_gateway.Submit.Register.submit_begin
    lending_bank_gateway.Domain.BizSeq.validate_biz_seq_no
    lending_bank_gateway.Domain.BizSeq.all_safe
    lending_bank_gateway.Submit.Register.register_and_accept_order
    lending_bank_gateway.Idempotency.check_or_register lending_bank_gateway.Db.add_order
    lending_bank_gateway.Submit.Conclude.resume lending_bank_gateway.Submit.Conclude.conclude
    lending_bank_gateway.Submit.Judge.judge lending_bank_gateway.Submit.ParseAck.parse_ack
    lending_bank_gateway.Submit.ParseAck.normal lending_bank_gateway.Json.text_get
    lending_bank_gateway.Json.get lending_bank_gateway.Domain.States.map_wedap_txn_status
    lending_bank_gateway.Domain.States.may_move lending_bank_gateway.Prelude.Text.upper
    lending_bank_gateway.Prelude.Text.strip lending_bank_gateway.Audit.tail_hash
    lending_bank_gateway.Audit.write_audit lending_bank_gateway.Db.find_order
    lending_bank_gateway.Db.put_order lending_bank_gateway.Domain.BizSeq.quote
    lending_bank_gateway.Domain.MoneyWrite.money_write_fields
    lending_bank_gateway.Domain.MoneyWrite.operation_status_url
    lending_bank_gateway.Domain.States.allowed
    lending_bank_gateway.Domain.States.is_door_reject_http_status
    lending_bank_gateway.Domain.States.is_repayment_terminal_reject
    lending_bank_gateway.Domain.States.map_wedap_repayment_status
    lending_bank_gateway.Finalize.dedup_key
    lending_bank_gateway.Finalize.finalize_terminal_in_session
    lending_bank_gateway.Finalize.is_terminal lending_bank_gateway.Finalize.terminal_event
    lending_bank_gateway.Idempotency.find_record lending_bank_gateway.Idempotency.record_response
    lending_bank_gateway.Json.flag_get lending_bank_gateway.Json.str_or_empty
    lending_bank_gateway.Json.str_or_none lending_bank_gateway.Outbox.enqueue_forward
    lending_bank_gateway.Prelude.Text.take lending_bank_gateway.Submit.Conclude.advance
    lending_bank_gateway.Submit.Register.in_flight_response
    lending_bank_gateway.Submit.Register.registered
submit req call db = submit_order digests 10 20 req call same_db db

unfoldable pub reverse : SubmitRequest → WedapCall → Db → Result Response × Db
unfolding submit lending_bank_gateway.Reversal.submit_reversal
    lending_bank_gateway.Reversal.resume_reversal lending_bank_gateway.Reversal.conclude_reversal
    lending_bank_gateway.Reversal.judge_reversal lending_bank_gateway.Reversal.advance_reversal
    lending_bank_gateway.Reversal.reverse_original
reverse req call db = submit_reversal digests 30 40 req "LN-0001" call same_db db

abbrev pub got : Result Response → Response
got (ok r) = r
got (err e) = no_response "" ""

abbrev pub after_begin : Result (Option Response × Db) → Db
after_begin (ok (r, db)) = db
after_begin (err e) = empty

abbrev pub got_db : Result (Response × Db) → Db
got_db (ok (r, db)) = db
got_db (err e) = empty

abbrev pub got_answer : Result (Response × Db) → Response
got_answer (ok (r, db)) = r
got_answer (err e) = no_response "" ""

-- the database after one order that succeeds
abbrev pub after_success : Db
after_success = (submit_order digests 10 20 (request false) success same_db empty).1

-- its answer
abbrev pub success_answer : Response
success_answer = got (submit_order digests 10 20 (request false) success same_db empty).0

abbrev pub undo : SubmitRequest
undo = record (request false) {
  biz_seq_no = "LN-0002";
  business_action = "REVERSAL";
  biz_type = "RVSL";
  business_scope = "reversal";
}

-- the database after that order has been reversed
abbrev pub after_reversal : Db
after_reversal = (submit_reversal digests 30 40 undo "LN-0001" success same_db after_success).1

-- the orders and the events that these runs leave
abbrev pub order : OrderStatus → BankTxnOrder
order s = record {
  tenant_id = "bank-a";
  biz_seq_no = "LN-0001";
  business_action = "DISBURSE";
  biz_type = "DISB";
  amount = "250.00";
  currency = "CNY";
  caller_service = "loan";
  status = s;
  request_id = some "req-1";
  submitted_at = some 20;
  finalized_at = some 20;
  finalized_via = some "SYNC";
  trans_type = some "DISB";
  ori_req_date = some "20260101";
  created_at = 10;
}

abbrev pub event_of_success : CallbackOutbox
event_of_success = record {
  id = 1;
  tenant_id = "bank-a";
  target = "lifecycle";
  payload =
      ("bizSeqNo", text "LN-0001")
      ∷ ("type", text "DISBURSE")
      ∷ ("txnStatus", text "SUCCEEDED")
      ∷ ("finalizedVia", text "SYNC")
      ∷ [];
  dedup_key = some "fwd-bank-a-LN-0001-SUCCEEDED";
  trace_id = some "req-1";
  status = OutboxStatus.pending;
  attempts = 0;
  next_retry_at = none;
  last_error = none;
  locked_at = none;
  claim_token = none;
}

-- the database in which the request is registered, and wedap has not answered
abbrev pub registered_db : Db
registered_db = after_begin (submit_begin digests 10 (request false) empty)

-- the result of a call that wedap turns away at the door
abbrev pub turned_away : Result (Response × Db)
turned_away = resume digests 20 (request false) (http_error 422) registered_db
