-- ===== src/WedapDelivery/Collector.antt =====
-- `collect_results_once` of app/services/wedap_delivery.py, and `_fetch` and `_post` of
-- app/workers/wedap_delivery_dispatcher.py: wedap's results are fetched, put on record where a whole
-- file failed, and sent on to recon.
pub mod Safety
use lending_bank_gateway.Prelude.{
  ℕ, suc, ◌==◌, Bool, true, false, ◌&&◌, ◌||◌, String, str_eq, Option, none, some, List, [], ◌∷◌,
  one_of, select, is_none, if◌then◌else◌,
}
use lending_bank_gateway.Json.Value.{Value}
use lending_bank_gateway.WedapDelivery.{
  WedapImportDeliveryTask, is_older, claim_result, release_result_lock, mark_result_collected,
}
use lending_bank_gateway.WedapDelivery.ImportResult.{
  ImportResult, LineResult, parse_result, line_results,
}
use lending_bank_gateway.WedapDelivery.Alerts.{
  Kind, failed_file, WedapDeliveryAlert, alert, record_delivery_alert, Files, is_delivered,
}

-- how the call of S3 or of the presigned URL ends: the bytes, by what `json.loads` makes of them, a
-- `ClientError` by its code, an `HTTPStatusError` by its status, or another exception
pub data Reply : Type 0 where
  bytes : Option Value → Reply
  client_error : String → Reply
  http_error : ℕ → Reply
  other_error : Reply

pub data Fetched : Type 0 where
  content : Option Value → Fetched
  not_ready : Fetched
  fetch_raises : Fetched

-- `_fetch`: a result that is not there yet is no error
unfoldable pub fetch : Bool → Reply → Fetched
fetch presigned (bytes v) = content v
fetch presigned other_error = fetch_raises
fetch false (http_error status) = fetch_raises
fetch true (http_error status) = if status == 404 then not_ready else fetch_raises
fetch true (client_error code) = fetch_raises
fetch false (client_error code) =
    if one_of code ("NoSuchKey" ∷ "NotFound" ∷ "404" ∷ []) then not_ready else fetch_raises

-- how the calls of a turn end, the token that it takes, and what other transactions do to the tasks
-- before the turn, while wedap's store is asked, and while recon is
pub record Collector : Type 0 where
  pub presigned : Bool
  pub token : WedapImportDeliveryTask → String
  pub reply : WedapImportDeliveryTask → Reply
  pub takes : WedapImportDeliveryTask → List LineResult → Bool
  pub before : WedapImportDeliveryTask → List WedapImportDeliveryTask → List WedapImportDeliveryTask
  pub while_fetching :
      WedapImportDeliveryTask → List WedapImportDeliveryTask → List WedapImportDeliveryTask
  pub while_posting :
      WedapImportDeliveryTask → List WedapImportDeliveryTask → List WedapImportDeliveryTask

-- `_post`: recon is not called where there is nothing to send
unfoldable pub post : Collector → WedapImportDeliveryTask → ImportResult → Bool
post w task result = elim (line_results result.bad_lines) [
  | [] ↦ true
  | l ∷ ls ↦ w.takes task (l ∷ ls)
]

abbrev pub import_alert : ℕ → WedapImportDeliveryTask → ImportResult → WedapDeliveryAlert
import_alert now task r =
    alert task Kind.import_failed
      (failed_file r.file_error_code r.ingested_count r.line_error_count) now

-- the alert of a file that failed as a whole, before the post
unfoldable pub alert_failed :
    ℕ → WedapImportDeliveryTask → ImportResult → List WedapDeliveryAlert → List WedapDeliveryAlert
unfolding record_delivery_alert
alert_failed now task r alerts =
    if str_eq r.import_status "FAILED"
    then (record_delivery_alert (import_alert now task r) alerts).1
    else alerts

-- the turn with the parsed result
unfoldable pub hand_on :
    Collector → ℕ → WedapImportDeliveryTask → ImportResult → Files → Bool × Files
unfolding alert_failed
hand_on w now task r st =
    let alerts = alert_failed now task r st.alerts in
    let rows = w.while_posting task st.tasks in
    if post w task r
    then (
      (mark_result_collected now task.id (w.token task) rows).0,
      record { tasks = (mark_result_collected now task.id (w.token task) rows).1; alerts = alerts },
    )
    else (
      false,
      record { tasks = release_result_lock task.id (w.token task) rows; alerts = alerts },
    )

-- the lock is let go
abbrev let_go : Collector → WedapImportDeliveryTask → Files → Bool × Files
let_go w task st =
    (false, record st { tasks = release_result_lock task.id (w.token task) st.tasks })

unfoldable pub on_content :
    Collector → ℕ → WedapImportDeliveryTask → Option Value → Files → Bool × Files
unfolding hand_on
on_content w now task v st = elim (parse_result v) [
  | none ↦ let_go w task st
  | some r ↦ hand_on w now task r st
]

abbrev pub after_fetch : Collector → ℕ → WedapImportDeliveryTask → Fetched → Files → Bool × Files
after_fetch w now task not_ready st = let_go w task st
after_fetch w now task fetch_raises st = let_go w task st
after_fetch w now task (content v) st = on_content w now task v st

-- the turn of a task whose result this collector has locked
unfoldable pub collect_locked : Collector → ℕ → WedapImportDeliveryTask → Files → Bool × Files
unfolding on_content fetch
collect_locked w now task st =
    after_fetch w now task (fetch w.presigned (w.reply task))
      (record st { tasks = w.while_fetching task st.tasks })

unfoldable pub collect_task : Collector → ℕ → ℕ → WedapImportDeliveryTask → Files → Bool × Files
unfolding collect_locked
collect_task w now timeout task st =
    let (won, locked) = claim_result now timeout task.id (w.token task) (w.before task st.tasks) in
    if won
    then collect_locked w now task (record st { tasks = locked })
    else (false, record st { tasks = locked })

unfoldable pub collect_tasks : Collector → ℕ → ℕ → List WedapImportDeliveryTask → Files → ℕ × Files
unfolding collect_task
collect_tasks w now timeout [] st = (0, st)
collect_tasks w now timeout (t ∷ ts) st =
    let (done, st') = collect_task w now timeout t st in
    let rest = collect_tasks w now timeout ts st' in (if done then suc rest.0 else rest.0, rest.1)

abbrev pub is_uncollected : ℕ → ℕ → WedapImportDeliveryTask → Bool
is_uncollected now timeout r =
    is_delivered r.status
    && (is_none r.result_collected_at
        && (is_none r.result_locked_at || is_older now timeout r.result_locked_at))

unfoldable pub collect_results_once : Collector → ℕ → ℕ → ℕ → Files → ℕ × Files
unfolding collect_tasks
collect_results_once w now timeout limit st =
    collect_tasks w now timeout (select (is_uncollected now timeout) limit st.tasks) st
