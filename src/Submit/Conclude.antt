-- ===== src/Submit/Conclude.antt =====
-- Transaction 2 of app/services/submit.py: the order moves on if it is still ACCEPTED, and the
-- answer is frozen into the idempotency row. `submit_order` joins the parts.
pub mod Inversion
pub mod Frame
pub mod Replay
use Prim.Native.String.{◌++◌}
use lending_bank_gateway.Prelude.{ℕ, Bool, not, ◌||◌, none, some, [], ◌∷◌, if◌then◌else◌}
use lending_bank_gateway.Domain.MoneyWrite.{money_write_fields}
use lending_bank_gateway.Domain.States.{OrderStatus, same, value, may_move, accepted}
use lending_bank_gateway.Db.{
  Db, Digests, BankTxnOrder, Response, Result, ok, err, illegal_transition, no_result_found,
  unexpected, find_order, put_order,
}
use lending_bank_gateway.Idempotency.{record_response}
use lending_bank_gateway.Audit.{write_audit}
use lending_bank_gateway.Finalize.{finalize_terminal_in_session, is_terminal}
use lending_bank_gateway.Submit.Request.{SubmitRequest, WedapCall}
use lending_bank_gateway.Submit.Judge.{Verdict, judge}
use lending_bank_gateway.Submit.Register.{submit_begin}

-- the order as the call leaves it
abbrev pub moved : ℕ → OrderStatus → BankTxnOrder → BankTxnOrder
moved now new_status order = record order { status = new_status; submitted_at = some now }

-- the compare-and-set has hit: close a final order, or audit one that is still open
unfoldable pub advance : Digests → ℕ → SubmitRequest → OrderStatus → BankTxnOrder → Db → Db
advance env now req new_status order db =
    if is_terminal new_status
    then finalize_terminal_in_session env now (moved now new_status order) "SYNC" req.request_id
        req.caller_service none db
    else write_audit env
        (record {
          tenant_id = req.tenant_id;
          actor = "svc:" ++ req.caller_service;
          action = "ORDER_" ++ value new_status;
          entity = "bank_txn_order:" ++ req.biz_seq_no;
          payload = ("business_action", req.business_action) ∷ ("amount", req.amount) ∷ [];
        })
        (put_order (moved now new_status order) db)

-- the answer with the order's status, read after the compare-and-set, and the typed fields
abbrev pub frozen : SubmitRequest → Verdict → OrderStatus → Bool → Response
frozen req v status cas_applied = record v.response {
  order_status = some status;
  money = some (
      money_write_fields status v.no_effect_evidence req.biz_seq_no req.repayment_contract
        (v.ack_trusted || not cas_applied));
}

abbrev pub answer : Response → Result Db → Result (Response × Db)
answer response (ok db) = ok (response, db)
answer response (err e) = err e

finish : Digests → ℕ → SubmitRequest → Verdict → BankTxnOrder → Db → Result (Response × Db)
finish env now req v order db =
    let cas_applied = same order.status accepted in
    let status = if cas_applied then v.new_status else order.status in
    let response = frozen req v status cas_applied in
    answer response (
      record_response req.tenant_id req.business_scope req.biz_seq_no response
        (some ("order:" ++ req.biz_seq_no))
        (if cas_applied then advance env now req v.new_status order db else db))

unfoldable pub conclude : Digests → ℕ → SubmitRequest → Verdict → Db → Result (Response × Db)
unfolding finish
conclude env now req v db =
    if may_move accepted v.new_status
    then elim (find_order req.tenant_id req.biz_seq_no db) [
      | none ↦ err no_result_found
      | some order ↦ finish env now req v order db
    ]
    else err illegal_transition

-- `submit_order` after the call
unfoldable pub resume : Digests → ℕ → SubmitRequest → WedapCall → Db → Result (Response × Db)
resume env now req call db = elim (judge req call) [
  | none ↦ err unexpected
  | some v ↦ conclude env now req v db
]

-- an error keeps the database as it was before the transaction
abbrev pub commit : {A : Type 0} → Db → Result (A × Db) → Result A × Db
commit db (ok (a, db')) = (ok a, db')
commit db (err e) = (err e, db)

-- The whole of `submit_order`. `now` and `later` are the times of its two transactions, `call` is
-- how the call of wedap ends, and `others` what other transactions do to the database meanwhile.
unfoldable pub submit_order :
    Digests → ℕ → ℕ → SubmitRequest → WedapCall → (Db → Db) → Db → Result Response × Db
submit_order env now later req call others db = elim (submit_begin env now req db) [
  | err e ↦ (err e, db)
  | ok (some early, db') ↦ (ok early, db')
  | ok (none, db') ↦ commit (others db') (resume env later req call (others db'))
]
