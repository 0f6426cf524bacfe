-- ===== src/Tests/Rounds.antt =====
-- Witnesses for the rounds of the file delivery.
use lending_bank_gateway.Prelude.{
  ℕ, ◌≡◌, ◌⊎◌, refl, true, false, Option, none, some, List, [], ◌∷◌, All, arith,
}
use lending_bank_gateway.Json.Value.{
  Value, Fields, pos, integer, text, array, object, nil, cons, end, field, get, int_or_zero,
}
use lending_bank_gateway.WedapDelivery.{
  DeliveryStatus, WedapImportDeliveryTask, raised, claim_result,
}
use lending_bank_gateway.WedapDelivery.Collection.{task_of}
use lending_bank_gateway.WedapDelivery.Receipts.{is_final, mark_callback_sent}
use lending_bank_gateway.WedapDelivery.Rounds.{Carrier}
use lending_bank_gateway.WedapDelivery.Rounds.Progress.{IsAlone, Has}
use lending_bank_gateway.WedapDelivery.Rounds.Progress.Finish.{rounds, Spaced, rounds-finish}
use lending_bank_gateway.WedapDelivery.ImportResult.{
  BadLine, ImportResult, parse_result, line_results,
}
use lending_bank_gateway.WedapDelivery.ImportResult.Lines.{IsLineResult, parse_result-IsLineResult}
use lending_bank_gateway.WedapDelivery.Alerts.{Kind, WedapDeliveryAlert, alert, stuck, Files}
use lending_bank_gateway.WedapDelivery.Alerts.Once.{OnRecord}
use lending_bank_gateway.WedapDelivery.Collector.{
  Collector, bytes, post, import_alert, collect_task,
}
use lending_bank_gateway.WedapDelivery.Collector.Safety.{collect_task-alerts}
use lending_bank_gateway.Tests.Files.{policy, task, delivered}

-- nobody else is at work
abbrev quiet : WedapImportDeliveryTask → List WedapImportDeliveryTask → List WedapImportDeliveryTask
quiet t rows = rows

-- every delivery fails, and no receipts are sent
abbrev broken : ℕ → Carrier
broken now = record {
  deliver = λ t. raised "ReadTimeout";
  clock = λ t. now;
  receipts = none;
  before = quiet;
  while_delivering = quiet;
}

broken-IsAlone : (now : ℕ) → IsAlone 1 (broken now)
broken-IsAlone now = record {
  before = λ t rows u. (u, refl);
  delivering = λ t rows u. (u, refl);
  receipts = tt;
}

abbrev more_rounds : List ℕ
more_rounds = 10000 ∷ 20000 ∷ 30000 ∷ 40000 ∷ []

Has-task : Has 1 task (task ∷ [])
Has-task = record { unique = (tt, tt); there = refl }

spaced : Spaced policy (100 ∷ more_rounds)
spaced = (omega arith, (omega arith, (omega arith, (omega arith, (tt, tt)))))

rounds-finish_example :
    (r' : WedapImportDeliveryTask) × (task_of 1
        (rounds policy broken 60 (100 ∷ more_rounds) (task ∷ []))
      ≡ some r')
    × (is_final r'.status ≡ true)
rounds-finish_example =
    rounds-finish policy broken 60 1 broken-IsAlone 100 more_rounds (task ∷ []) task Has-task refl
      (omega arith) spaced (omega arith)

-- another replica sends the receipt of the task meanwhile
abbrev sending :
    WedapImportDeliveryTask → List WedapImportDeliveryTask → List WedapImportDeliveryTask
sending t rows = mark_callback_sent t.id 5 rows

-- a result file whose import failed, with one bad line
abbrev bad_item : Fields
bad_item =
    field "lineNo" (integer "7" (pos 7))
      (field "lineStatus" (text "CONTRACT_INVALID") (field "errorCode" (text "E42") end))

abbrev result_body : Fields
result_body = field "importStatus" (text "FAILED") (
    field "lineErrorCount" (integer "1" (pos 1))
      (field "lineResults" (array "[…]" (cons (object "{…}" bad_item) nil)) end))

abbrev file : Option Value
file = some (object "{…}" result_body)

abbrev bad : BadLine
bad = record {
  line_no = some (integer "7" (pos 7));
  line_status = "CONTRACT_INVALID";
  error_message = none;
  error_code = some (text "E42");
  dedup_key = none;
}

abbrev result : ImportResult
result = record {
  import_status = "FAILED";
  ingested_count = pos 0;
  duplicate_count = pos 0;
  line_error_count = pos 1;
  bad_lines = bad ∷ [];
  file_error_code = none;
  file_error_msg = none;
}

parsed : parse_result file ≡ some result
unfolding parse_result get int_or_zero
parsed = refl

parse_result-IsLineResult_example : All IsLineResult (line_results (bad ∷ []))
parse_result-IsLineResult_example = parse_result-IsLineResult file result parsed

abbrev collector : Collector
collector = record {
  presigned = true;
  token = λ t. "token-a";
  reply = λ t. bytes file;
  takes = λ t ls. false;
  before = sending;
  while_fetching = sending;
  while_posting = sending;
}

abbrev files : Files
files = record { tasks = delivered ∷ []; alerts = [] }

won : (claim_result 900 300 1 "token-a" (sending delivered (delivered ∷ []))).0 ≡ true
unfolding claim_result mark_callback_sent
won = refl

collect_task-alerts_example :
    OnRecord
      (collect_task collector 900 300 delivered files).1.alerts
      (import_alert 900 delivered result)
    × ((post collector delivered result ≡ true)
        ⊎ ((collect_task collector 900 300 delivered files).0 ≡ false))
collect_task-alerts_example =
    collect_task-alerts collector 900 delivered 300 files file result won refl parsed refl

-- an alert of the batch is on record, and the task is stuck
abbrev old_alert : WedapDeliveryAlert
old_alert = alert task Kind.result_overdue (stuck DeliveryStatus.pending 0 5) 15

abbrev alarmed : Files
alarmed = record { tasks = task ∷ []; alerts = old_alert ∷ [] }
