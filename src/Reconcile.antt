-- ===== src/Reconcile.antt =====
-- app/services/order_status_reconcile.py: an open order is closed by what wedap's status query says.
use Prim.Native.String.{◌++◌}
use lending_bank_gateway.Prelude.{
  ℕ, Bool, true, false, not, ◌&&◌, ◌||◌, String, str_eq, Option, none, some, is_some, if◌then◌else◌,
}
use lending_bank_gateway.Json.{Payload, str_get, str_or_empty}
use lending_bank_gateway.Domain.States.{
  OrderStatus, same, value, may_move, is_absorbing, map_wedap_txn_status, succeeded, reversed,
}
use lending_bank_gateway.Db.{
  Db, Digests, BankTxnOrder, Result, ok, err, illegal_transition, unexpected, find_order,
}
use lending_bank_gateway.Finalize.{finalize_terminal_in_session}

-- How the query of wedap ends: a JSON object, a `WedapError` or an HTTP error, or another exception.
pub data StatusQuery : Type 0 where
  answered : Payload → StatusQuery
  failed : StatusQuery
  raised : StatusQuery

abbrev is_blank : Option String → Bool
is_blank none = true
is_blank (some s) = str_eq s ""

abbrev pub or_blank : Option String → String
or_blank none = ""
or_blank (some s) = s

-- the final status that an answer about this order and this kind of transaction gives
unfoldable pub identified : String → String → Payload → Option OrderStatus
identified biz_seq_no trans_type d =
    if not (str_eq (str_or_empty "oriBizSeqNo" d) biz_seq_no)
      || not (str_eq (str_or_empty "transType" d) trans_type)
    then none
    else map_wedap_txn_status (str_get "txnStatus" d)

-- Steps 1 and 2, outside any transaction: `none` is `return False`.
unfoldable pub query_terminal : String → String → StatusQuery → Db → Result (Option OrderStatus)
query_terminal tenant_id biz_seq_no query db = elim (find_order tenant_id biz_seq_no db) [
  | none ↦ ok none
  | some order ↦
      if is_blank order.trans_type || is_blank order.ori_req_date then ok none else elim query [
        | answered d ↦ ok (identified biz_seq_no (or_blank order.trans_type) d)
        | failed ↦ ok none
        | raised ↦ err unexpected
      ]
]

abbrev pub with_status : OrderStatus → BankTxnOrder → BankTxnOrder
with_status s order = record order { status = s }

-- closed, or at rest in a status that no query may undo
abbrev pub is_settled : BankTxnOrder → Bool
is_settled order = is_some order.finalized_at || is_absorbing order.status

-- the one move that a settled order makes: a succeeded order that is reversed
abbrev pub is_upgrade : BankTxnOrder → OrderStatus → Bool
is_upgrade order terminal = same order.status succeeded && same terminal reversed

-- Step 3 on the locked row: whether the order has been closed by this call.
close_locked : Digests → ℕ → String → OrderStatus → BankTxnOrder → Db → Result (Bool × Db)
close_locked env now source terminal order db =
    let trace_id = "reconcile-" ++ order.biz_seq_no in
    if is_settled order
    then (if is_upgrade order terminal
        then (if may_move order.status terminal
            then ok (
              true,
              finalize_terminal_in_session env now (with_status terminal order) source trace_id
                  "gateway" (some (value succeeded)) db,
            )
            else err illegal_transition)
        else ok (false, db))
    else if may_move order.status terminal
    then ok (
      true,
      finalize_terminal_in_session env now (with_status terminal order) source trace_id "gateway"
          none db,
    )
    else ok (false, db)

unfoldable pub close_from_query :
    Digests → ℕ → String → String → String → OrderStatus → Db → Result (Bool × Db)
unfolding close_locked
close_from_query env now tenant_id biz_seq_no source terminal db =
    elim (find_order tenant_id biz_seq_no db) [
      | none ↦ ok (false, db)
      | some order ↦ close_locked env now source terminal order db
    ]

abbrev pub commit : Db → Result (Bool × Db) → Result Bool × Db
commit db (ok (b, db')) = (ok b, db')
commit db (err e) = (err e, db)

-- The whole function; `others` is what other transactions do while wedap is asked.
unfoldable pub resolve_terminal_via_status_query :
    Digests → ℕ → String → String → String → StatusQuery → (Db → Db) → Db → Result Bool × Db
resolve_terminal_via_status_query env now tenant_id biz_seq_no source query others db =
    elim (query_terminal tenant_id biz_seq_no query db) [
      | err e ↦ (err e, others db)
      | ok none ↦ (ok false, others db)
      | ok (some terminal) ↦
          commit (others db)
            (close_from_query env now tenant_id biz_seq_no source terminal (others db))
    ]
