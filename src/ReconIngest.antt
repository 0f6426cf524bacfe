-- ===== src/ReconIngest.antt =====
-- app/services/recon_ingest.py and the transactions of app/workers/recon_worker.py: a workbook of
-- reconciliation results is put into the tables.
pub mod Sheets
pub mod Reading
pub mod Landing
pub mod Worker
pub mod Ending
use lending_bank_gateway.Prelude.{
  ℕ, ◌==◌, ltb, Bool, true, false, not, ◌&&◌, String, str_eq, Option, none, some, ◌⊎◌, inl, inr,
  List, [], ◌∷◌, ◌++◌, find, length, update_where, is_some, if◌then◌else◌,
}
use lending_bank_gateway.ReconIngest.Sheets.{
  Workbook, Sheet, IngestError, column_drift, bad_amount, other_error, header_drift, collect_rows,
  sheet_of,
}
use lending_bank_gateway.ReconIngest.Reading.{DiffRow, WedapRow, BankRow, Rows, read_rows}
use lending_bank_gateway.Amounts.{Decimal}

pub data TaskStatus : Type 0 where
  notified downloading downloaded parsed failed superseded : TaskStatus

-- what `column_check` holds
pub data ColumnCheck : Type 0 where
  drift : String → ColumnCheck
  data_error : String → String → ColumnCheck
  download_error parse_error : String → ColumnCheck
  all_ok : ColumnCheck
  count_mismatch : ℕ → ℕ → ColumnCheck

pub record ReconResultTask : Type 0 where
  pub id : ℕ
  pub tenant_id : String
  pub task_no : String
  pub version : ℕ
  pub diff_count : ℕ
  pub status : TaskStatus
  pub column_check : Option ColumnCheck
  pub archive_path : Option String
  pub parser_version : Option String
  pub schema_version : Option String

-- the tables; a row of details comes with its tenant and its task's id
pub record ReconDb : Type 0 where
  pub tasks : List ReconResultTask
  pub diffs : List (String × (ℕ × DiffRow))
  pub wedap_rows : List (String × (ℕ × WedapRow))
  pub bank_rows : List (String × (ℕ × BankRow))

abbrev pub has_id : ℕ → ReconResultTask → Bool
has_id id t = t.id == id

abbrev pub is_notified : TaskStatus → Bool
is_notified TaskStatus.notified = true
is_notified _ = false

abbrev pub is_downloaded : TaskStatus → Bool
is_downloaded TaskStatus.downloaded = true
is_downloaded _ = false

abbrev pub is_superseded : TaskStatus → Bool
is_superseded TaskStatus.superseded = true
is_superseded _ = false

-- `_set_status`, by the id alone
unfoldable pub set_status : ℕ → TaskStatus → ReconDb → ReconDb
set_status id status db = record db {
  tasks = update_where (has_id id) (λ t. record t { status = status }) db.tasks;
}

-- `_atomic_claim`
unfoldable pub atomic_claim : ℕ → ReconDb → Bool × ReconDb
atomic_claim id db = (
  is_some (find (λ t. has_id id t && is_notified t.status) db.tasks),
  record db {
    tasks =
        update_where (λ t. has_id id t && is_notified t.status)
          (λ t. record t { status = TaskStatus.downloading }) db.tasks;
  },
)

-- the task FAILED with its reason, in a transaction of its own
unfoldable pub mark_failed : ℕ → ColumnCheck → ReconDb → ReconDb
mark_failed id check db = record db {
  tasks =
      update_where (has_id id)
        (λ t. record t { status = TaskStatus.failed; column_check = some check }) db.tasks;
}

-- the details of a task
abbrev pub tagged {ℓ} : {A : Type ℓ} → ReconResultTask → List A → List (String × (ℕ × A))
tagged task [] = []
tagged task (x ∷ xs) = (task.tenant_id, (task.id, x)) ∷ tagged task xs

abbrev pub is_lower : ReconResultTask → ReconResultTask → Bool
is_lower task t =
    str_eq t.tenant_id task.tenant_id
    && (str_eq t.task_no task.task_no
        && (ltb t.version task.version && not (is_superseded t.status)))

abbrev pub supersede : ReconResultTask → ReconResultTask
supersede t = record t { status = TaskStatus.superseded }

abbrev pub finished : ColumnCheck → String → ReconResultTask → ReconResultTask
finished check path t = record t {
  status = TaskStatus.parsed;
  parser_version = some "1";
  schema_version = some "wedap-recon-3sheet-v1";
  column_check = some check;
  archive_path = some path;
}

-- the end of the transaction that lands the rows
unfoldable pub land : ReconResultTask → ColumnCheck → String → Rows → ReconDb → ReconDb
land task check path rows db = record {
  tasks =
      update_where (is_lower task) supersede
        (update_where (has_id task.id) (finished check path) db.tasks);
  diffs = db.diffs ++ tagged task rows.diffs;
  wedap_rows = db.wedap_rows ++ tagged task rows.wedap_rows;
  bank_rows = db.bank_rows ++ tagged task rows.bank_rows;
}

-- how it ends: nothing to do, landed, or an exception
pub data Ingested : Type 0 where
  skipped landed : Ingested
  raised : IngestError → Ingested

abbrev pub counted : ℕ → ℕ → ColumnCheck
counted expected actual = if actual == expected then all_ok else count_mismatch expected actual

-- the handlers of exceptions inside `parse_and_land`
abbrev pub on_error : ℕ → IngestError → ReconDb → ReconDb
on_error id (column_drift sheet) db = mark_failed id (drift sheet) db
on_error id (bad_amount column value) db = mark_failed id (data_error column value) db
on_error id (other_error name) db = db

-- the rows put into the tables, or what made it stop
abbrev pub land_read :
    ReconResultTask → ColumnCheck → String → ReconDb → IngestError ⊎ Rows → Ingested × ReconDb
land_read task check path db (inl e) = (raised e, on_error task.id e db)
land_read task check path db (inr rows) = (landed, land task check path rows db)

-- What Python's `Decimal` makes of a text is a parameter.
module _ (decimal : String → Option Decimal) where
  -- the transaction after the workbook is read; `task` is as it was before
  abbrev pub land_rows :
      ReconResultTask → String → Workbook → ReconDb → Option ReconResultTask → Ingested × ReconDb
  land_rows task path book db none = (skipped, db)
  land_rows task path book db (some locked) =
      if is_downloaded locked.status
      then land_read task
          (counted task.diff_count (length (collect_rows (sheet_of "Differences" book)))) path db
          (read_rows decimal book)
      else (skipped, db)

  -- after the headers are checked
  abbrev pub parse_checked :
      String → Workbook → ReconDb → ReconResultTask → Option String → Ingested × ReconDb
  parse_checked path book db task none =
      land_rows task path book db (find (has_id task.id) db.tasks)
  parse_checked path book db task (some sheet) =
      (raised (column_drift sheet), mark_failed task.id (drift sheet) db)

  -- with the workbook; `db` is from after it was read
  abbrev pub parse_book : String → Workbook → ReconDb → ReconResultTask → Ingested × ReconDb
  parse_book path book db task = parse_checked path book db task (header_drift book)

  -- with a task that is DOWNLOADED, and what `load_workbook` gives, or the name of its exception
  abbrev pub parse_file :
      String → ReconDb → ReconResultTask → String ⊎ Workbook → Ingested × ReconDb
  parse_file path db task (inl name) = (raised (other_error name), db)
  parse_file path db task (inr book) = parse_book path book db task

  abbrev pub parse_found :
      (ReconDb → ReconDb)
      → String
      → String ⊎ Workbook
      → ReconDb
      → Option ReconResultTask
      → Ingested × ReconDb
  parse_found meanwhile path file db none = (raised (other_error "ValueError"), db)
  parse_found meanwhile path file db (some task) =
      if is_downloaded task.status then parse_file path (meanwhile db) task file else (skipped, db)

  -- `meanwhile` is what others do while the workbook is read
  unfoldable pub parse_and_land :
      (ReconDb → ReconDb) → ℕ → String → String ⊎ Workbook → ReconDb → Ingested × ReconDb
  unfolding land mark_failed header_drift collect_rows read_rows
  parse_and_land meanwhile id path file db =
      parse_found meanwhile path file db (find (has_id id) db.tasks)
