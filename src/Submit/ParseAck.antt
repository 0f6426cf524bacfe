-- ===== src/Submit/ParseAck.antt =====
-- `_parse_ack` of app/services/submit.py.
pub mod Northbound
use lending_bank_gateway.Prelude.{
  Bool, false, String, Option, none, some, List, [], ◌∷◌, one_of, if◌then◌else◌,
}
use lending_bank_gateway.Prelude.Text.{upper, strip}
use lending_bank_gateway.Json.{Payload, text_get, flag_get}
use lending_bank_gateway.Domain.States.{
  OrderStatus, map_wedap_txn_status, map_wedap_repayment_status,
}
use lending_bank_gateway.Db.{Response}

-- an answer with a status and a number, and no other key
abbrev pub no_response : String → String → Response
no_response txn_status biz_seq_no = record {
  txn_status = txn_status;
  biz_seq_no = biz_seq_no;
  in_flight = false;
  debt_settled = none;
  global_tx_id = none;
  detail_status = none;
  error_code = none;
  error_msg = none;
  order_status = none;
  money = none;
}

-- the status that the order takes (none: not final), the answer's fields, and the trust
pub record Ack : Type 0 where
  pub mapped : Option OrderStatus
  pub fields : Response
  pub trusted : Bool

abbrev pub generic_northbound_statuses : List String
generic_northbound_statuses = "SUCCESS" ∷ "PROCESSING" ∷ "FAILED" ∷ "REVERSED" ∷ "PENDING" ∷ []

abbrev pub repayment_northbound_statuses : List String
repayment_northbound_statuses = "SUCCESS" ∷ "PROCESSING" ∷ "FAILED" ∷ []

-- `raw.strip().upper() if isinstance(raw, str) else ""`
unfoldable pub normal : Option String → String
normal none = ""
normal (some raw) = upper (strip raw)

abbrev northbound : String → Bool → String
northbound status trusted = if trusted then status else "RESULT_UNKNOWN"

generic_ack : String → Ack
generic_ack status =
    let trusted = one_of status generic_northbound_statuses in
    record {
      mapped = map_wedap_txn_status status;
      fields = no_response (northbound status trusted) "";
      trusted = trusted;
    }

repayment_ack : Payload → String → Ack
repayment_ack d status =
    let trusted = one_of status repayment_northbound_statuses in
    record {
      mapped = map_wedap_repayment_status status;
      fields = record (no_response (northbound status trusted) "") {
        debt_settled = some (flag_get "debtSettled" d);
        global_tx_id = text_get "globalTxId" d;
        detail_status = text_get "detailStatus" d;
      };
      trusted = trusted;
    }

-- The caller puts the number into the fields.
unfoldable pub parse_ack : Payload → Bool → Ack
unfolding generic_ack repayment_ack
parse_ack d repayment =
    if repayment
    then repayment_ack d (normal (text_get "status" d))
    else generic_ack (normal (text_get "txnStatus" d))
