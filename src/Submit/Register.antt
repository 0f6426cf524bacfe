-- ===== src/Submit/Register.antt =====
-- Transaction 1 of app/services/submit.py: the idempotency row and the ACCEPTED order, committed
-- together before anything is sent.
use lending_bank_gateway.Prelude.{ℕ, true, false, Option, none, some, if◌then◌else◌}
use lending_bank_gateway.Json.{str_or_none}
use lending_bank_gateway.Domain.BizSeq.{validate_biz_seq_no}
use lending_bank_gateway.Domain.MoneyWrite.{money_write_fields}
use lending_bank_gateway.Domain.States.{accepted}
use lending_bank_gateway.Db.{
  Db, Digests, BankTxnOrder, Response, Result, ok, err, in_flight, invalid_biz_seq_no,
  key_state_conflict, add_order,
}
use lending_bank_gateway.Idempotency.{check_or_register}
use lending_bank_gateway.Submit.ParseAck.{no_response}
use lending_bank_gateway.Submit.Request.{SubmitRequest}

abbrev pub new_order : ℕ → SubmitRequest → BankTxnOrder
new_order now req = record {
  tenant_id = req.tenant_id;
  biz_seq_no = req.biz_seq_no;
  business_action = req.business_action;
  biz_type = req.biz_type;
  amount = req.amount;
  currency = req.currency;
  caller_service = req.caller_service;
  status = accepted;
  request_id = some req.request_id;
  submitted_at = none;
  finalized_at = none;
  finalized_via = none;
  trans_type = str_or_none "transType" req.wedap_payload;
  ori_req_date = req.ori_req_date;
  created_at = now;
}

-- the answer to a request whose first run has not ended
unfoldable pub in_flight_response : SubmitRequest → Response
in_flight_response req = record (no_response "PROCESSING" req.biz_seq_no) {
  in_flight = true;
  money = some (money_write_fields accepted false req.biz_seq_no req.repayment_contract true);
}

accept : ℕ → SubmitRequest → Db → Result (Option Response × Db)
accept now req db = elim (add_order (new_order now req) db) [
  | none ↦ err key_state_conflict
  | some db' ↦ ok (none, db')
]

-- what `register_and_accept_order` makes of the outcome of `check_or_register`
unfoldable pub registered :
    ℕ → SubmitRequest → Db → Result (Option Response × Db) → Result (Option Response × Db)
unfolding accept
registered now req db (ok (none, db')) = accept now req db'
registered now req db (ok (some hit, db')) = ok (some hit, db')
registered now req db (err in_flight) = ok (some (in_flight_response req), db)
registered now req db (err e) = err e

-- transaction 1; `some` is the answer, with no call of wedap
unfoldable pub register_and_accept_order :
    Digests → ℕ → SubmitRequest → Db → Result (Option Response × Db)
unfolding registered in_flight_response
register_and_accept_order env now req db =
    registered now req db
      (check_or_register env req.tenant_id req.business_scope req.biz_seq_no req.wedap_payload db)

-- the head of `submit_order` and of `submit_reversal`, up to the call of wedap
unfoldable pub submit_begin : Digests → ℕ → SubmitRequest → Db → Result (Option Response × Db)
submit_begin env now req db =
    if validate_biz_seq_no req.biz_seq_no
    then register_and_accept_order env now req db
    else err invalid_biz_seq_no
