-- ===== src/Finalize.antt =====
-- app/services/order_finalize.py: the one place where an order that has reached a final status is
-- closed, audited and announced downstream. The caller has assigned the status to the order and
-- holds its row locked.
pub mod Keys
pub mod Frame
use Prim.Native.String.{◌++◌}
use lending_bank_gateway.Prelude.{
  ℕ, Bool, ◌&&◌, String, Option, none, some, List, [], ◌∷◌, is_some, is_none, if◌then◌else◌,
}
use lending_bank_gateway.Json.{Payload, text}
use lending_bank_gateway.Domain.States.{OrderStatus, value, elem, succeeded, failed, reversed}
use lending_bank_gateway.Db.{Db, BankTxnOrder, Digests, put_order}
use lending_bank_gateway.Audit.{write_audit}
use lending_bank_gateway.Outbox.{enqueue_forward}

unfoldable pub is_terminal : OrderStatus → Bool
is_terminal s = elem s (succeeded ∷ failed ∷ reversed ∷ [])

unfoldable pub terminal_event : String → OrderStatus → String → String → Payload
terminal_event biz_seq_no status source business_action =
    ("bizSeqNo", text biz_seq_no)
    ∷ ("type", text business_action)
    ∷ ("txnStatus", text (value status))
    ∷ ("finalizedVia", text source)
    ∷ []

-- the stable key of an order's event, one for each final status
unfoldable pub dedup_key : String → String → OrderStatus → String
dedup_key tenant_id biz_seq_no status =
    "fwd-" ++ tenant_id ++ "-" ++ biz_seq_no ++ "-" ++ value status

abbrev or_now : ℕ → Option ℕ → Option ℕ
or_now now none = some now
or_now now (some t) = some t

abbrev pub audit_payload : String → Option String → List (String × String)
audit_payload source none = ("finalized_via", source) ∷ []
audit_payload source (some from) = ("finalized_via", source) ∷ ("upgraded_from", from) ∷ []

-- the order as it leaves the function
abbrev pub closed : ℕ → String → BankTxnOrder → BankTxnOrder
closed now source order = record order {
  finalized_at = or_now now order.finalized_at;
  finalized_via = some source;
}

-- arguments: the digests and the clock; the order, `source`, `trace_id`, `caller_service` and
-- `upgrade_from`
unfoldable pub finalize_terminal_in_session :
    Digests → ℕ → BankTxnOrder → String → String → String → Option String → Db → Db
unfolding terminal_event dedup_key
finalize_terminal_in_session env now order source trace_id caller_service upgrade_from db =
    if is_some order.finalized_at && is_none upgrade_from
    then put_order order db
    else enqueue_forward order.tenant_id "lifecycle"
        (terminal_event order.biz_seq_no order.status source order.business_action)
        (some (dedup_key order.tenant_id order.biz_seq_no order.status)) (some trace_id)
        (write_audit env
          (record {
            tenant_id = order.tenant_id;
            actor = "svc:" ++ caller_service;
            action = "ORDER_" ++ value order.status;
            entity = "bank_txn_order:" ++ order.biz_seq_no;
            payload = audit_payload source upgrade_from;
          })
          (put_order (closed now source order) db))
