-- ===== src/Db.antt =====
-- app/models: the tables that the order flows read and write, as lists of rows in the order of
-- insertion. Timestamps are numbers of time units. Text columns carry no length limit, amounts are
-- kept as the text of the decimal: these flows only store it and print it.
pub mod Orders
use lending_bank_gateway.Prelude.{
  ℕ, ◌+◌, Bool, true, false, ◌&&◌, String, str_eq, Option, none, some, List, [], ◌∷◌, ◌++◌, find,
  update_where, is_some, if◌then◌else◌,
}
use lending_bank_gateway.Json.{Payload}
use lending_bank_gateway.Domain.MoneyWrite.{MoneyFields}
use lending_bank_gateway.Domain.States.{OrderStatus}

-- app/models/txn.py; `created_at` is of the mixin in app/models/base.py
pub record BankTxnOrder : Type 0 where
  pub tenant_id : String
  pub biz_seq_no : String
  pub business_action : String
  pub biz_type : String
  pub amount : String
  pub currency : String
  pub caller_service : String
  pub status : OrderStatus
  pub request_id : Option String
  pub submitted_at : Option ℕ
  pub finalized_at : Option ℕ
  pub finalized_via : Option String
  pub trans_type : Option String
  pub ori_req_date : Option String
  pub created_at : ℕ

-- "HTTP_<status>", or the code that wedap answered
pub data ErrorCode : Type 0 where
  http : ℕ → ErrorCode
  wedap : String → ErrorCode

-- The answer of a money write. `none` is a key that is not there; `in_flight` is there only if true.
pub record Response : Type 0 where
  pub txn_status : String
  pub biz_seq_no : String
  pub in_flight : Bool
  pub debt_settled : Option Bool
  pub global_tx_id : Option String
  pub detail_status : Option String
  pub error_code : Option ErrorCode
  pub error_msg : Option String
  pub order_status : Option OrderStatus
  pub money : Option MoneyFields

-- app/models/idempotency.py
pub record IdempotencyRecord : Type 0 where
  pub tenant_id : String
  pub business_scope : String
  pub idempotency_key : String
  pub payload_hash : String
  pub first_response : Option Response
  pub final_effect_id : Option String

-- what an audit row says, and what its hash is taken of beside the previous hash
pub record AuditEntry : Type 0 where
  pub tenant_id : String
  pub actor : String
  pub action : String
  pub entity : String
  pub payload : List (String × String)

-- app/models/audit.py
pub record AuditLog : Type 0 where
  pub entry : AuditEntry
  pub prev_hash : String
  pub row_hash : String

pub record AuditChainHead : Type 0 where
  pub tenant_id : String
  pub last_row_hash : String

pub data OutboxStatus : Type 0 where
  pending sending sent failed dead : OutboxStatus

-- the text that a row keeps of its last failure: "no url for target <target>", "http <status>", the
-- name of the client's exception, or "reclaimed_stale_sending"
pub data SendError : Type 0 where
  no_url : String → SendError
  http_status : ℕ → SendError
  exception : String → SendError
  reclaimed_stale_sending : SendError

-- app/models/callback.py
pub record CallbackOutbox : Type 0 where
  pub id : ℕ
  pub tenant_id : String
  pub target : String
  pub payload : Payload
  pub dedup_key : Option String
  pub trace_id : Option String
  pub status : OutboxStatus
  pub attempts : ℕ
  pub next_retry_at : Option ℕ
  pub last_error : Option SendError
  pub locked_at : Option ℕ
  pub claim_token : Option String

pub record Db : Type 0 where
  pub orders : List BankTxnOrder
  pub idempotency : List IdempotencyRecord
  pub audit : List AuditLog
  pub heads : List AuditChainHead
  pub outbox : List CallbackOutbox
  pub next_outbox_id : ℕ

abbrev pub empty : Db
empty = record {
  orders = [];
  idempotency = [];
  audit = [];
  heads = [];
  outbox = [];
  next_outbox_id = 1;
}

-- Code that is not the gateway's own: SHA-256 over canonical JSON, of a request's payload and of an
-- audit entry with the hash before it.
pub record Digests : Type 0 where
  pub payload_hash : Payload → String
  pub row_hash : AuditEntry → String → String

-- What a transaction raises. Raising rolls back, so an error carries no database.
pub data Error : Type 0 where
  invalid_biz_seq_no payload_mismatch key_state_conflict in_flight no_result_found : Error
  illegal_transition callback_unresolved unexpected : Error

pub data Result {ℓ} (A : Type ℓ) : Type ℓ where
  ok : A → Result A
  err : Error → Result A

-- the key of `uq_order_tenant_biz`
abbrev pub is_order : String → String → BankTxnOrder → Bool
is_order tenant_id biz_seq_no o = str_eq o.tenant_id tenant_id && str_eq o.biz_seq_no biz_seq_no

-- `SELECT … WHERE tenant_id AND biz_seq_no`, the row locked where the source says `FOR UPDATE`
unfoldable pub find_order : String → String → Db → Option BankTxnOrder
find_order tenant_id biz_seq_no db = find (is_order tenant_id biz_seq_no) db.orders

-- the flush of an order that was loaded and assigned to
unfoldable pub put_order : BankTxnOrder → Db → Db
put_order o db = record db {
  orders = update_where (is_order o.tenant_id o.biz_seq_no) (λ _. o) db.orders;
}

-- the insert of an order; `none` where the unique key is taken
unfoldable pub add_order : BankTxnOrder → Db → Option Db
add_order o db =
    if is_some (find (is_order o.tenant_id o.biz_seq_no) db.orders)
    then none
    else some (record db { orders = db.orders ++ o ∷ [] })
