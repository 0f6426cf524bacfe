-- ===== src/ReconIngest/Landing.antt =====
-- What `parse_and_land` leaves in the tables.
use mathlib.Core.Option
use lending_bank_gateway.Prelude.{
  ℕ, ◌≡◌, refl, true, false, String, Option, none, some, ◌⊎◌, inl, inr, List, [], ◌∷◌, ◌++◌, find,
  All, Bool-cases, arith, update_where, find-update_where, find-holds, ◌==◌, if◌then◌else◌, ap, ◌∙◌,
}
use lending_bank_gateway.ReconIngest.Sheets.{
  Workbook, header_drift, column_drift, bad_amount, other_error, IngestError,
}
use lending_bank_gateway.ReconIngest.Reading.{Rows, read_rows}
use lending_bank_gateway.ReconIngest.{
  TaskStatus, ReconResultTask, ReconDb, Ingested, skipped, landed, raised, has_id, is_lower,
  supersede, finished, land_read, is_downloaded, tagged, land, mark_failed, parse_checked,
  parse_and_land, ColumnCheck, on_error, land_rows,
}
use lending_bank_gateway.Amounts.{Decimal}

abbrev SameRows : ReconDb → ReconDb → Type 0
SameRows before after =
    (after.diffs ≡ before.diffs)
    × ((after.wedap_rows ≡ before.wedap_rows) × (after.bank_rows ≡ before.bank_rows))

-- no version below this one of the same tenant and number counts
abbrev pub IsLatest : ReconResultTask → List ReconResultTask → Type 0
IsLatest task tasks = All (λ t. is_lower task t ≡ false) tasks

superseded-IsLatest :
    (task : ReconResultTask) (xs : List ReconResultTask)
    → IsLatest task (update_where (is_lower task) supersede xs)
superseded-IsLatest task [] = tt
superseded-IsLatest task (x ∷ xs) = (
  elim (Bool-cases (is_lower task x)) [
    | inl hit ↦ ground (arith, hit)
    | inr miss ↦ ground (arith, miss)
  ],
  superseded-IsLatest task xs,
)

pub mark_failed-SameRows :
    (id : ℕ) (check : ColumnCheck) (db : ReconDb) → SameRows db (mark_failed id check db)
unfolding mark_failed
mark_failed-SameRows id check db = (refl, (refl, refl))

pub on_error-SameRows : (id : ℕ) (e : IngestError) (db : ReconDb) → SameRows db (on_error id e db)
on_error-SameRows id (column_drift sheet) db = mark_failed-SameRows id _ db
on_error-SameRows id (bad_amount column value) db = mark_failed-SameRows id _ db
on_error-SameRows id (other_error name) db = (refl, (refl, refl))

-- the task is PARSED, and shows this file
abbrev pub FoundParsed : ℕ → String → ReconDb → Type 0
FoundParsed id path db =
    (t : ReconResultTask) × ((find (has_id id) db.tasks ≡ some t)
      × ((t.status ≡ TaskStatus.parsed) × (t.archive_path ≡ some path)))

-- exactly the rows of a workbook have come to the tables
abbrev pub RowsAdded :
    (String → Option Decimal) → Workbook → ReconResultTask → ReconDb → ReconDb → Type 0
RowsAdded decimal book task before after =
    (rows : Rows) × ((read_rows decimal book ≡ inr rows)
      × ((after.diffs ≡ before.diffs ++ tagged task rows.diffs)
          × ((after.wedap_rows ≡ before.wedap_rows ++ tagged task rows.wedap_rows)
              × (after.bank_rows ≡ before.bank_rows ++ tagged task rows.bank_rows))))

-- landed with all of it, or without a row
abbrev pub AllOrNothing :
    (String → Option Decimal)
    → String
    → Workbook
    → ReconResultTask
    → ReconDb
    → Ingested × ReconDb
    → Type 0
AllOrNothing decimal path book task before (skipped, after) = SameRows before after
AllOrNothing decimal path book task before (raised e, after) = SameRows before after
AllOrNothing decimal path book task before (landed, after) =
    (header_drift book ≡ none)
    × (RowsAdded decimal book task before after
        × (FoundParsed task.id path after × IsLatest task after.tasks))

same_version : (task t : ReconResultTask) → t.version ≡ task.version → is_lower task t ≡ false
same_version task t same = ground (arith, same)

pub find-update :
    (id : ℕ) (f : ReconResultTask → ReconResultTask) (xs : List ReconResultTask)
    (t : ReconResultTask)
    → ((x : ReconResultTask) → (f x).id ≡ x.id)
    → find (has_id id) xs ≡ some t
    → find (has_id id) (update_where (has_id id) f xs) ≡ some (f t)
find-update id f xs t keep found =
    find-update_where (has_id id) (has_id id) f xs (λ x hit. ap (λ n. n == id) (keep x))
    ∙ (ap (Option.map (λ x. if has_id id x then f x else x)) found
        ∙ ap (λ b. some (if b then f t else t)) (find-holds (has_id id) t xs found))

pub land-FoundParsed :
    (task locked : ReconResultTask) (check : ColumnCheck) (path : String) (rows : Rows)
    (db : ReconDb)
    → find (has_id task.id) db.tasks ≡ some locked
    → locked.version ≡ task.version
    → FoundParsed task.id path (land task check path rows db)
unfolding land
land-FoundParsed task locked check path rows db found same = (
  finished check path locked,
  (
    find-update_where (has_id task.id) (is_lower task) supersede
          (update_where (has_id task.id) (finished check path) db.tasks) (λ x hit. refl)
        ∙ (ap (Option.map (λ x. if is_lower task x then supersede x else x))
              (find-update task.id (finished check path) db.tasks locked (λ x. refl) found)
            ∙ ap
                (λ b. some (
                  if b then supersede (finished check path locked) else finished check path locked))
                (same_version task (finished check path locked) same)),
    (refl, refl),
  ),
)

module _ (decimal : String → Option Decimal) (path : String) (book : Workbook)
    (task : ReconResultTask) (db : ReconDb) where
  land_read-AllOrNothing :
      (check : ColumnCheck) (locked : ReconResultTask) (read : IngestError ⊎ Rows)
      → header_drift book ≡ none
      → read_rows decimal book ≡ read
      → find (has_id task.id) db.tasks ≡ some locked
      → locked.version ≡ task.version
      → AllOrNothing decimal path book task db (land_read task check path db read)
  unfolding land
  land_read-AllOrNothing check locked (inl e) fits reads found same = on_error-SameRows task.id e db
  land_read-AllOrNothing check locked (inr rows) fits reads found same = (
    fits,
    (
      (rows, (reads, (refl, (refl, refl)))),
      (land-FoundParsed task locked check path rows db found same, superseded-IsLatest task _),
    ),
  )

  land_rows-AllOrNothing :
      (read : Option ReconResultTask)
      → header_drift book ≡ none
      → find (has_id task.id) db.tasks ≡ read
      → ((t : ReconResultTask) → find (has_id task.id) db.tasks ≡ some t → t.version ≡ task.version)
      → AllOrNothing decimal path book task db (land_rows decimal task path book db read)
  land_rows-AllOrNothing none fits found same = (refl, (refl, refl))
  land_rows-AllOrNothing (some locked) fits found same =
      elim (Bool-cases (is_downloaded locked.status)) [
        | inl hit ↦ rw hit (
            land_read-AllOrNothing _ locked (read_rows decimal book) fits refl found
              (same locked found))
        | inr miss ↦ rw miss (refl, (refl, refl))
      ]

  parse_checked-AllOrNothing :
      (drifted : Option String)
      → header_drift book ≡ drifted
      → ((t : ReconResultTask) → find (has_id task.id) db.tasks ≡ some t → t.version ≡ task.version)
      → AllOrNothing decimal path book task db (parse_checked decimal path book db task drifted)
  parse_checked-AllOrNothing none fits same = land_rows-AllOrNothing _ fits refl same
  parse_checked-AllOrNothing (some sheet) fits same = mark_failed-SameRows task.id _ db

-- If a task is DOWNLOADED, and what others do while its workbook is read does not change its version,
-- then `parse_and_land` is all or nothing: either it lands, the sheets' headers are the expected ones,
-- the tables have got exactly the rows of the workbook, the task is PARSED and no lower version of its
-- number and tenant is left that is not SUPERSEDED; or it does nothing or raises, and the three tables
-- of rows are as they were.
pub parse_and_land_lem :
    (decimal : String → Option Decimal) (meanwhile : ReconDb → ReconDb) (id : ℕ) (path : String)
    (book : Workbook) (db : ReconDb) (task : ReconResultTask)
    → find (has_id id) db.tasks ≡ some task
    → is_downloaded task.status ≡ true
    → ((t : ReconResultTask)
        → find (has_id task.id) (meanwhile db).tasks ≡ some t
        → t.version ≡ task.version)
    → AllOrNothing decimal path book task
        (meanwhile db)
        (parse_and_land decimal meanwhile id path (inr book) db)
unfolding parse_and_land
parse_and_land_lem decimal meanwhile id path book db task found ready same =
    rw (found, ready)
      (parse_checked-AllOrNothing decimal path book task (meanwhile db) (header_drift book) refl
        same)
