-- ===== src/Tests/Recon.antt =====
-- Witnesses for the ingestion of reconciliation files.
use mathlib.Core.Option.{some-injective}
use lending_bank_gateway.Prelude.{refl, sym, ap, none, inr, List, [], ◌∷◌, String}
use lending_bank_gateway.ReconIngest.Sheets.{no_integer, blank, filled, Row, Workbook}
use lending_bank_gateway.ReconIngest.{TaskStatus, ReconResultTask, ReconDb, parse_and_land}
use lending_bank_gateway.ReconIngest.Landing.{AllOrNothing, parse_and_land_lem}
use lending_bank_gateway.ReconIngest.Worker.{Turn, ingest_task}
use lending_bank_gateway.ReconIngest.Ending.{Ends, ingest_task-Ends}

abbrev version_of : TaskStatus → ReconResultTask
version_of status = record {
  id = 2;
  tenant_id = "T1";
  task_no = "R1";
  version = 2;
  diff_count = 1;
  status = status;
  column_check = none;
  archive_path = none;
  parser_version = none;
  schema_version = none;
}

abbrev older : ReconResultTask
older = record (version_of TaskStatus.parsed) { id = 1; version = 1 }

abbrev tables : TaskStatus → ReconDb
tables status = record {
  tasks = older ∷ version_of status ∷ [];
  diffs = [];
  wedap_rows = [];
  bank_rows = [];
}

abbrev cells : List String → Row
cells [] = []
cells (s ∷ ss) = filled s no_integer ∷ cells ss

abbrev workbook : Workbook
workbook =
    (
      "Differences",
      cells (
            "Type" ∷ "WeDAP Biz Seq No" ∷ "Bank Seq No" ∷ "WeDAP Amount" ∷ "Bank Amount"
            ∷ "Diff Amount" ∷ "WeDAP Status" ∷ "Bank Status" ∷ [])
          ∷ (filled "MISSING" no_integer
              ∷ filled "B7" no_integer
              ∷ blank
              ∷ blank
              ∷ blank
              ∷ blank
              ∷ blank
              ∷ blank
              ∷ [])
          ∷ [],
    )
    ∷ (
      "WeDAP Source",
      cells (
            "Biz Type" ∷ "Biz Seq No" ∷ "Bank Biz Seq No" ∷ "Amount" ∷ "Currency" ∷ "Payer"
            ∷ "Payee" ∷ "Status" ∷ "Error" ∷ [])
          ∷ [],
    )
    ∷ (
      "Bank Source",
      cells (
            "Bank Seq No" ∷ "Txn Date" ∷ "Amount" ∷ "Currency" ∷ "Payer" ∷ "Payee" ∷ "Status"
            ∷ "File Name" ∷ "Line No" ∷ [])
          ∷ [],
    )
    ∷ []

parse_and_land_lem_example :
    AllOrNothing
      (λ s. none)
      "R1_v2.xlsx"
      workbook
      (version_of TaskStatus.downloaded)
      (tables TaskStatus.downloaded)
      (parse_and_land
        (λ s. none)
        (λ db. db)
        2
        "R1_v2.xlsx"
        (inr workbook)
        (tables TaskStatus.downloaded))
parse_and_land_lem_example =
    parse_and_land_lem (λ s. none) (λ db. db) 2 "R1_v2.xlsx" workbook (tables TaskStatus.downloaded)
      (version_of TaskStatus.downloaded) refl refl
      (λ t found. sym (ap (λ x. x.version) (some-injective _ _ found)))

abbrev turn : Turn
turn = record {
  dir_fails = none;
  download_fails = none;
  file = inr workbook;
  before = λ db. db;
  while_downloading = λ db. db;
  while_reading = λ db. db;
}

ingest_task-Ends_example : Ends turn (version_of TaskStatus.notified) (tables TaskStatus.notified) (
    ingest_task
      (λ s. none)
      (λ t. "R1_v2.xlsx")
      turn
      (version_of TaskStatus.notified)
      (tables TaskStatus.notified))
ingest_task-Ends_example =
    ingest_task-Ends (λ s. none) (λ t. "R1_v2.xlsx") turn (version_of TaskStatus.notified)
      (tables TaskStatus.notified) ((refl, tt), (tt, tt)) (λ db. refl) (λ db. refl)
