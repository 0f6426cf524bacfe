-- ===== src/Callback.antt =====
-- app/services/callback_finalize.py: an order is closed by what a callback of wedap says.
use lending_bank_gateway.Prelude.{
  ℕ, Bool, true, false, ◌||◌, String, none, some, is_some, if◌then◌else◌,
}
use lending_bank_gateway.Json.{Payload, str_get}
use lending_bank_gateway.Domain.States.{
  OrderStatus, same, value, may_move, map_wedap_txn_status, succeeded,
}
use lending_bank_gateway.Db.{
  Db, Digests, BankTxnOrder, Result, ok, err, illegal_transition, callback_unresolved, find_order,
}
use lending_bank_gateway.Finalize.{finalize_terminal_in_session, is_terminal}
use lending_bank_gateway.Reconcile.{
  StatusQuery, with_status, is_settled, is_upgrade, resolve_terminal_via_status_query,
}

-- the transaction of a callback with a final status, on the locked row
close_locked : Digests → ℕ → OrderStatus → String → BankTxnOrder → Db → Result Db
close_locked env now terminal trace_id order db =
    if is_settled order
    then (if is_upgrade order terminal
        then (if may_move order.status terminal
            then ok (
                finalize_terminal_in_session env now (with_status terminal order) "CALLBACK"
                  trace_id "gateway" (some (value succeeded)) db)
            else err illegal_transition)
        else ok db)
    else if may_move order.status terminal
    then ok (
        finalize_terminal_in_session env now (with_status terminal order) "CALLBACK" trace_id
          "gateway" none db)
    else err callback_unresolved

unfoldable pub close_from_callback :
    Digests → ℕ → String → String → OrderStatus → String → Db → Result Db
unfolding close_locked
close_from_callback env now tenant_id biz_seq_no terminal trace_id db =
    elim (find_order tenant_id biz_seq_no db) [
      | none ↦ err callback_unresolved
      | some order ↦ close_locked env now terminal trace_id order db
    ]

abbrev pub is_closed : BankTxnOrder → Bool
is_closed order = is_some order.finalized_at || is_terminal order.status

abbrev pub commit : Db → Result Db → Result (Unit {0}) × Db
commit db (ok db') = (ok tt, db')
commit db (err e) = (err e, db)

-- the second read after a query that has not closed the order
recheck : String → String → Db → Result (Unit {0})
recheck tenant_id biz_seq_no db = elim (find_order tenant_id biz_seq_no db) [
  | none ↦ err callback_unresolved
  | some order ↦ if is_closed order then ok tt else err callback_unresolved
]

-- what follows a query made for an order that was open
unfoldable pub after_query : String → String → Result Bool × Db → Result (Unit {0}) × Db
unfolding recheck
after_query tenant_id biz_seq_no (ok true, db) = (ok tt, db)
after_query tenant_id biz_seq_no (ok false, db) = (recheck tenant_id biz_seq_no db, db)
after_query tenant_id biz_seq_no (err e, db) = (err e, db)

-- a callback with no final status
unfoldable pub without_status :
    Digests → ℕ → String → String → StatusQuery → (Db → Db) → Db → Result (Unit {0}) × Db
unfolding after_query
without_status env now tenant_id biz_seq_no query others db =
    let asked =
      resolve_terminal_via_status_query env now tenant_id biz_seq_no "CALLBACK" query others db in
    elim (find_order tenant_id biz_seq_no db) [
      | none ↦ (err callback_unresolved, db)
      | some order ↦
          if is_closed order
          then (if same order.status succeeded then (ok tt, asked.1) else (ok tt, db))
          else after_query tenant_id biz_seq_no asked
    ]

-- The whole function. `query` is how a status query would end, `others` is what other transactions
-- do while wedap is asked.
unfoldable pub resolve_callback_terminal :
    Digests → ℕ → String → Payload → String → StatusQuery → (Db → Db) → Db → Result (Unit {0}) × Db
unfolding without_status
resolve_callback_terminal env now tenant_id body trace_id query others db =
    let biz_seq_no = str_get "bizSeqNo" body in
    elim (map_wedap_txn_status (str_get "txnStatus" body)) [
      | none ↦ without_status env now tenant_id biz_seq_no query others db
      | some terminal ↦
          commit db (close_from_callback env now tenant_id biz_seq_no terminal trace_id db)
    ]
