-- ===== src/Submit/Request.antt =====
-- `SubmitRequest` of app/services/submit.py, and what a call of wedap can end in.
use lending_bank_gateway.Prelude.{ℕ, Bool, String, Option}
use lending_bank_gateway.Json.{Payload}

pub record SubmitRequest : Type 0 where
  pub tenant_id : String
  pub biz_seq_no : String
  pub business_action : String
  pub biz_type : String
  pub amount : String
  pub currency : String
  pub caller_service : String
  pub request_id : String
  pub business_scope : String
  pub wedap_payload : Payload
  pub ori_req_date : Option String
  pub repayment_contract : Bool

-- How the call of wedap ends: it returns a JSON object, it times out or breaks off, it raises for
-- an HTTP status, it raises `WedapError(code, msg, http_status)`, or it raises something else.
pub data WedapCall : Type 0 where
  answered : Payload → WedapCall
  transport_error : WedapCall
  http_error : ℕ → WedapCall
  wedap_error : String → String → Option ℕ → WedapCall
  raised : WedapCall
