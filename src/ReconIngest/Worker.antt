-- ===== src/ReconIngest/Worker.antt =====
-- app/workers/recon_worker.py: a round over the tasks that are NOTIFIED.
use lending_bank_gateway.Prelude.{
  ℕ, suc, String, Option, none, some, ◌⊎◌, inl, inr, List, [], ◌∷◌, if◌then◌else◌,
}
use lending_bank_gateway.ReconIngest.Sheets.{Workbook, column_drift, bad_amount, other_error}
use lending_bank_gateway.ReconIngest.{
  TaskStatus, ReconResultTask, ReconDb, download_error, parse_error, is_notified, set_status,
  atomic_claim, mark_failed, Ingested, skipped, landed, raised, parse_and_land,
}
use lending_bank_gateway.Amounts.{Decimal}

-- a task's turn: the exception of the making of the archive's directory, or of the download, if it
-- fails, what `load_workbook` gives of the file,
-- and what others do before the claim, during the download and during the reading
pub record Turn : Type 0 where
  pub dir_fails : Option String
  pub download_fails : Option String
  pub file : String ⊎ Workbook
  pub before : ReconDb → ReconDb
  pub while_downloading : ReconDb → ReconDb
  pub while_reading : ReconDb → ReconDb

-- the handlers of exceptions around `parse_and_land`
unfoldable pub after_parse : ℕ → Ingested × ReconDb → ReconDb
after_parse id (skipped, db) = db
after_parse id (landed, db) = db
after_parse id (raised (column_drift sheet), db) = db
after_parse id (raised (bad_amount column value), db) = db
after_parse id (raised (other_error name), db) = mark_failed id (parse_error name) db

-- how a turn ends: another worker has the task, it counts, or an exception ends the whole round
pub data TurnEnd : Type 0 where
  not_claimed handled : TurnEnd
  aborted : String → TurnEnd

-- one more
abbrev pub counting : (String ⊎ ℕ) × ReconDb → (String ⊎ ℕ) × ReconDb
counting (inl name, db) = (inl name, db)
counting (inr n, db) = (inr (suc n), db)

-- Python's `Decimal` and the path under which a task's file is kept are parameters.
module _ (decimal : String → Option Decimal) (dest : ReconResultTask → String) where
  -- after the download, which fails with an exception of this name, or does not
  abbrev pub ingest_download : Turn → ReconResultTask → ReconDb → Option String → ReconDb
  ingest_download turn task db (some name) = mark_failed task.id (download_error name) db
  ingest_download turn task db none = after_parse task.id (
      parse_and_land decimal turn.while_reading task.id (dest task) turn.file
        (set_status task.id TaskStatus.downloaded db))

  -- after the claim
  unfoldable pub ingest_claimed : Turn → ReconResultTask → ReconDb → ReconDb
  unfolding parse_and_land mark_failed set_status after_parse
  ingest_claimed turn task db =
      ingest_download turn task (turn.while_downloading db) turn.download_fails

  -- after the claim: `os.makedirs` stands outside of every `try`
  abbrev pub ingest_into : Turn → ReconResultTask → ReconDb → Option String → TurnEnd × ReconDb
  ingest_into turn task db none = (handled, ingest_claimed turn task db)
  ingest_into turn task db (some name) = (aborted name, db)

  unfoldable pub ingest_task : Turn → ReconResultTask → ReconDb → TurnEnd × ReconDb
  unfolding atomic_claim ingest_claimed
  ingest_task turn task db =
      let (claimed, db') = atomic_claim task.id (turn.before db) in
      if claimed then ingest_into turn task db' turn.dir_fails else (not_claimed, db')

  -- the number of tasks that were handled, or the exception that ends the round
  unfoldable pub ingest_tasks :
      (ReconResultTask → Turn) → List ReconResultTask → ReconDb → (String ⊎ ℕ) × ReconDb
  unfolding ingest_task
  ingest_tasks turns [] db = (inr 0, db)
  ingest_tasks turns (t ∷ ts) db =
      let (end, db') = ingest_task (turns t) t db in
      elim end [
        | not_claimed ↦ ingest_tasks turns ts db'
        | handled ↦ counting (ingest_tasks turns ts db')
        | aborted name ↦ (inl name, db')
      ]

  -- `SELECT … WHERE status = 'NOTIFIED'`
  abbrev pub notified_tasks : List ReconResultTask → List ReconResultTask
  notified_tasks [] = []
  notified_tasks (t ∷ ts) =
      if is_notified t.status then t ∷ notified_tasks ts else notified_tasks ts

  unfoldable pub ingest_pending_once : (ReconResultTask → Turn) → ReconDb → (String ⊎ ℕ) × ReconDb
  unfolding ingest_tasks
  ingest_pending_once turns db = ingest_tasks turns (notified_tasks db.tasks) db
