-- ===== src/Tests/Flows.antt =====
-- Witnesses for the money flows: a disbursement that succeeds, is sent again and is reversed.
use lending_bank_gateway.Prelude.{◌≡◌, refl, true, false, some}
use lending_bank_gateway.Domain.States.{succeeded, reversed}
use lending_bank_gateway.Domain.States.Laws.{Later}
use lending_bank_gateway.Db.{ok, empty, find_order}
use lending_bank_gateway.Finalize.{is_terminal}
use lending_bank_gateway.Submit.Request.{http_error}
use lending_bank_gateway.Submit.Conclude.{submit_order}
use lending_bank_gateway.Idempotency.{find_record}
use lending_bank_gateway.Submit.Conclude.Replay.{submit_order-replay}
use lending_bank_gateway.Ledger.{Run, done}
use lending_bank_gateway.Ledger.Entries.{submit_order-Run, submit_reversal-Run}
use lending_bank_gateway.Ledger.Audited.{Run-IsChained}
use lending_bank_gateway.Audit.Chain.{IsChained}
use lending_bank_gateway.Progress.{Evolves}
use lending_bank_gateway.Progress.Submitting.{Run-Evolves, Run-Later}
use lending_bank_gateway.Announce.{event, Announced, IsReal}
use lending_bank_gateway.Announce.Flows.Runs.{Run-Announced, Run-IsReal}
use lending_bank_gateway.Tests.{
  digests, submit, reverse, request, undo, success, same_db, after_success, success_answer,
  after_reversal, order, event_of_success,
}

-- the first run ends with this answer
first_run :
    submit_order digests 10 20 (request false) success same_db empty
    ≡ (ok success_answer, after_success)
unfolding submit
first_run = refl

abbrev pub first_Run : Run digests empty after_success
first_Run = submit_order-Run digests 10 20 (request false) success same_db (λ d. done) empty

abbrev second_Run : Run digests after_success after_reversal
second_Run =
    submit_reversal-Run digests 30 40 undo success same_db (λ d. done) after_success "LN-0001"

pub success_found : find_order "bank-a" "LN-0001" after_success ≡ some (order succeeded)
unfolding submit
success_found = refl

reversed_found : find_order "bank-a" "LN-0001" after_reversal ≡ some (order reversed)
unfolding reverse
reversed_found = refl

success_event : event "bank-a" "LN-0001" succeeded after_success ≡ some event_of_success
unfolding submit
success_event = refl

row_kept :
    find_record "bank-a" (request false).business_scope "LN-0001" after_reversal
    ≡ find_record "bank-a" (request false).business_scope "LN-0001" after_success
unfolding submit reverse find_record
row_kept = refl

submit_order-replay_example :
    submit_order digests 30 40 (request false) (http_error 500) same_db after_reversal
    ≡ (ok success_answer, after_reversal)
submit_order-replay_example =
    submit_order-replay digests (request false) 10 20 30 40 success (http_error 500) same_db same_db
      empty after_success after_reversal success_answer (λ mid row h. h) first_run row_kept

submit_order-Run_example : Run digests empty after_success
submit_order-Run_example =
    submit_order-Run digests 10 20 (request false) success same_db (λ d. done) empty

submit_reversal-Run_example : Run digests after_success after_reversal
submit_reversal-Run_example =
    submit_reversal-Run digests 30 40 undo success same_db (λ d. done) after_success "LN-0001"

is_final : is_terminal succeeded ≡ true
unfolding is_terminal
is_final = refl

Run-Announced_example : Announced after_success (order succeeded)
Run-Announced_example =
    Run-Announced digests after_success first_Run "bank-a" "LN-0001" (order succeeded) success_found
      is_final

Run-IsReal_example : IsReal after_success "bank-a" "LN-0001" succeeded
Run-IsReal_example =
    Run-IsReal digests after_success first_Run "bank-a" "LN-0001" succeeded event_of_success
      success_event

Run-Evolves_example : Evolves after_success after_reversal
Run-Evolves_example = Run-Evolves digests after_success after_reversal second_Run

Run-Later_example : Later succeeded reversed
Run-Later_example =
    Run-Later digests after_success after_reversal "bank-a" "LN-0001" (order succeeded)
      (order reversed) second_Run success_found reversed_found

pub empty-IsChained : IsChained digests "bank-a" empty
empty-IsChained = record { linked = tt; anchored = λ h found. cc }

Run-IsChained_example : IsChained digests "bank-a" after_success
Run-IsChained_example = Run-IsChained digests "bank-a" empty after_success first_Run empty-IsChained
