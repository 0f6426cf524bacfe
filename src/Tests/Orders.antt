-- ===== src/Tests/Orders.antt =====
-- Witnesses for what an answer says, and for the resolvers of open orders.
use lending_bank_gateway.Prelude.{◌≡◌, refl, false, Option, none, some, [], ◌∷◌}
use lending_bank_gateway.Json.{text}
use lending_bank_gateway.Domain.MoneyWrite.{MoneyFields, OperationStatus, Outcome, RetryPolicy, row}
use lending_bank_gateway.Domain.States.{OrderStatus, may_move, accepted, failed, result_unknown}
use lending_bank_gateway.Db.{BankTxnOrder, ok}
use lending_bank_gateway.Submit.Request.{http_error}
use lending_bank_gateway.Submit.ParseAck.{parse_ack}
use lending_bank_gateway.Submit.ParseAck.Northbound.{Agrees, parse_ack-Agrees}
use lending_bank_gateway.Submit.Judge.{Verdict, judge}
use lending_bank_gateway.Submit.Judge.Evidence.{NoEffect}
use lending_bank_gateway.Submit.Conclude.{resume}
use lending_bank_gateway.Reconcile.{StatusQuery, answered, resolve_terminal_via_status_query}
use lending_bank_gateway.Ledger.{Run, done}
use lending_bank_gateway.Ledger.Answers.{own_order, resume-not_applied}
use lending_bank_gateway.Ledger.Resolvers.{resolve_terminal-Run}
use lending_bank_gateway.ReconcileWorker.{OrderStuckAlert, State, Limits, World, reconcile_once}
use lending_bank_gateway.ReconcileWorker.Rounds.{reconcile_once-Run}
use lending_bank_gateway.Tests.{
  submit, digests, request, same_db, registered_db, turned_away, got_db, got_answer,
}

resumed :
    resume digests 20 (request false) (http_error 422) registered_db
    ≡ ok (got_answer turned_away, got_db turned_away)
unfolding submit
resumed = refl

abbrev rejected : MoneyFields
rejected =
    row (some Outcome.not_applied) OperationStatus.rejected RetryPolicy.correct_and_new_intent
      "LN-0001" false

money_told : (got_answer turned_away).money ≡ some rejected
unfolding submit
money_told = refl

not_applied_told : rejected.outcome ≡ some Outcome.not_applied
not_applied_told = refl

resume-not_applied_example :
    NoEffect false (http_error 422)
    × ((o : BankTxnOrder) × (own_order digests 20 (request false) (got_db turned_away) ≡ some o)
        × (o.status ≡ failed))
resume-not_applied_example =
    resume-not_applied digests 20 (request false) registered_db (got_db turned_away)
      (got_answer turned_away) (http_error 422) resumed rejected money_told not_applied_told

abbrev verdict_of : Option Verdict → Verdict
verdict_of (some v) = v
verdict_of none = record {
  new_status = failed;
  response = got_answer turned_away;
  no_effect_evidence = false;
  ack_trusted = false;
}

abbrev door_verdict : Verdict
door_verdict = verdict_of (judge (request false) (http_error 422))

judged : judge (request false) (http_error 422) ≡ some door_verdict
unfolding lending_bank_gateway.Submit.Judge.judge
    lending_bank_gateway.Domain.States.is_door_reject_http_status
judged = refl

parse_ack-Agrees_example : Agrees false (parse_ack (("txnStatus", text " reversed ") ∷ []) false)
parse_ack-Agrees_example = parse_ack-Agrees (("txnStatus", text " reversed ") ∷ []) false

-- the answer of a status query
abbrev pub found_failed : StatusQuery
found_failed = answered (
    ("oriBizSeqNo", text "LN-0001")
    ∷ ("transType", text "DISB")
    ∷ ("txnStatus", text "FAILED")
    ∷ [])

resolve_terminal-Run_example :
    Run digests registered_db
      (resolve_terminal_via_status_query digests 50 "bank-a" "LN-0001" "RECONCILE" found_failed
        same_db registered_db).1
resolve_terminal-Run_example =
    resolve_terminal-Run digests 50 "bank-a" "LN-0001" found_failed same_db (λ d. done)
      registered_db "RECONCILE"

abbrev world : World
world = record {
  env = digests;
  clock = λ o. 5000;
  query = λ o. found_failed;
  others = λ o. same_db;
}

abbrev limits : Limits
limits = record { stale_after = 60; max_age = 3600; batch_limit = 50 }

abbrev old_alert : OrderStuckAlert
old_alert = record {
  tenant_id = "bank-a";
  biz_seq_no = "LN-0001";
  biz_type = "DISB";
  first_alerted_at = 4000;
}

abbrev stuck : State
stuck = record { db = registered_db; alerts = old_alert ∷ [] }

reconcile_once-Run_example : Run digests registered_db (reconcile_once world limits 500 stuck).1.db
reconcile_once-Run_example = reconcile_once-Run world (λ o d. done) limits 500 stuck
